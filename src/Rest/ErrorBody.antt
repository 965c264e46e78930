-- ===== src/Rest/ErrorBody.antt =====
-- `exception_to_error_body` of src/nexus/_internal/actors/rest_entry_point_runtime.py. Exceptions are
-- objects whose links may form a cycle.
use bittensor_nexus_library.Prelude.{
  ℕ, zero, suc, ◌+◌, ◌≤◌, ◌≡◌, refl, ap, ◌∙◌, String, Option, none, some, List, [], ◌∷◌, ◌++◌,
  length, length-append, ◌==◌, string_eq, arith, if◌then◌else◌,
}

-- What the code reads of exception objects: `type(exc).__name__`, `str(exc).strip()`, and the links.
pub record Exceptions (E : Type 0) : Type 0 where
  pub type_name : E → String
  pub text : E → String
  pub cause : E → Option E
  pub context : E → Option E

-- An entry of `causes`; the text of the truncation tells the depth.
pub data Cause : Type 0 where
  cause : String → String → Cause
  truncated_exception_chain : ℕ → Cause

pub record ErrorBody : Type 0 where
  pub error_type : String
  pub message : String
  pub causes : List Cause

abbrev pub max_exception_depth : ℕ
max_exception_depth = 8

abbrev pub or_else : {E : Type 0} → Option E → Option E → Option E
or_else none other = other
or_else (some e) other = some e

module _ {E : Type 0} (view : Exceptions E) where
  -- `_exception_message`
  unfoldable pub exception_message : E → String
  exception_message e = if view.text e == "" then view.type_name e else view.text e

  -- `exc.__cause__ or exc.__context__`
  abbrev pub next : E → Option E
  next e = or_else (view.cause e) (view.context e)

  abbrev pub cause_of : E → Cause
  cause_of e = cause (view.type_name e) (exception_message e)

  -- The loop over the chain, for the depth that is left, and where it stops.
  unfoldable pub collect : ℕ → Option E → List Cause × Option E
  unfolding exception_message
  collect zero current = ([], current)
  collect (suc left) none = ([], none)
  collect (suc left) (some e) = let rest = collect left (next e) in (cause_of e ∷ rest.0, rest.1)

  abbrev pub with_truncation : ℕ → List Cause × Option E → List Cause
  with_truncation max_depth (causes, none) = causes
  with_truncation max_depth (causes, some e) = causes ++ truncated_exception_chain max_depth ∷ []

  unfoldable pub exception_to_error_body : ℕ → E → ErrorBody
  unfolding collect exception_message
  exception_to_error_body max_depth e = record {
    error_type = view.type_name e;
    message = exception_message e;
    causes = with_truncation max_depth (collect max_depth (next e));
  }

  -- These exceptions, in this order, are all that the links lead to.
  abbrev pub IsChain : Option E → List E → Type 0
  IsChain first [] = first ≡ none
  IsChain first (e ∷ es) = (first ≡ some e) × IsChain (next e) es

  -- The first entries of a chain, and the mark when it goes on.
  abbrev pub reported : ℕ → ℕ → List E → List Cause
  reported max_depth zero [] = []
  reported max_depth zero (e ∷ es) = truncated_exception_chain max_depth ∷ []
  reported max_depth (suc left) [] = []
  reported max_depth (suc left) (e ∷ es) = cause_of e ∷ reported max_depth left es

  collect-length : (left : ℕ) (current : Option E) → length (collect left current).0 ≤ left
  unfolding collect
  collect-length zero current = omega arith
  collect-length (suc left) none = omega arith
  collect-length (suc left) (some e) = omega (arith, collect-length left (next e))

  with_truncation-length :
      (max_depth : ℕ) (causes : List Cause) (last : Option E)
      → length (with_truncation max_depth (causes, last)) ≤ length causes + 1
  with_truncation-length max_depth causes none = omega arith
  with_truncation-length max_depth causes (some e) =
      omega (arith, length-append causes (truncated_exception_chain max_depth ∷ []))

  -- Whatever the links of the exceptions, also when they form a cycle, the body of an exception has at
  -- most one cause more than the maximal depth.
  pub exception_to_error_body-bounded :
      (max_depth : ℕ) (e : E) → length (exception_to_error_body max_depth e).causes ≤ max_depth + 1
  unfolding exception_to_error_body
  exception_to_error_body-bounded max_depth e =
      let c = collect max_depth (next e) in
      omega (arith, with_truncation-length max_depth c.0 c.1, collect-length max_depth (next e))

  with_truncation-cons :
      (max_depth : ℕ) (c : Cause) (causes : List Cause) (last : Option E)
      → with_truncation max_depth (c ∷ causes, last) ≡ c ∷ with_truncation max_depth (causes, last)
  with_truncation-cons max_depth c causes none = refl
  with_truncation-cons max_depth c causes (some e) = refl

  collect-reported :
      (max_depth left : ℕ) (first : Option E) (es : List E)
      → IsChain first es
      → with_truncation max_depth (collect left first) ≡ reported max_depth left es
  unfolding collect
  collect-reported max_depth zero first [] end = rw end refl
  collect-reported max_depth zero first (e ∷ es) (here, chain) = rw here refl
  collect-reported max_depth (suc left) first [] end = rw end refl
  collect-reported max_depth (suc left) first (e ∷ es) (here, chain) = rw here (
      with_truncation-cons max_depth (cause_of e) (collect left (next e)).0
        (collect left (next e)).1
      ∙ ap (λ l. cause_of e ∷ l) (collect-reported max_depth left (next e) es chain))

  -- The causes of an exception whose links end are those of its chain, in order: all of them while
  -- they are at most as many as the maximal depth, and otherwise the first ones of that number and a
  -- mark.
  pub exception_to_error_body-reported :
      (max_depth : ℕ) (e : E) (es : List E)
      → IsChain (next e) es
      → (exception_to_error_body max_depth e).causes ≡ reported max_depth max_depth es
  unfolding exception_to_error_body
  exception_to_error_body-reported max_depth e es chain =
      collect-reported max_depth max_depth (next e) es chain
