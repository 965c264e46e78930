-- ===== src/Timestamper/Queries.antt =====
-- Steps that read the state of an actor and leave it as it is.
use bittensor_nexus_library.Prelude.{
  ℕ, suc, Bool, ◌≡◌, refl, ap, ◌∙◌, true, false, Option, none, some, List, [], ◌∷◌, contains,
  nat_eq, Bool-cases, Option-cases, inl, inr, ◌⊎◌, String, if◌then◌else◌,
}
use bittensor_nexus_library.Prelude.Dict
use bittensor_nexus_library.Exceptions.{Exn, Result, ok, raise}
use bittensor_nexus_library.Exceptions.Exec.{Exec, continue, gets, pure, ◌>>=◌}
use bittensor_nexus_library.ContextStore.{ContextId, ContextStore}
use bittensor_nexus_library.ContextStore.Store.{lock_context, get_context}
use bittensor_nexus_library.Chain.BlockBeat.{BlockBeat}
use bittensor_nexus_library.Runtime.{Actor, on_store}
use bittensor_nexus_library.Timestamper.{
  Moment, Values, QueuedOutput, Timestamper, started_at, stamp, timestamp_output, retained_entries,
  flush, is_older, queue_age_error_threshold,
}

abbrev pub IsQuery {ℓ κ} : {S : Type ℓ} {A : Type κ} → Exec S A → Type ℓ
IsQuery {S = S} m = (s : S) → (m s).1 ≡ s

pub Result-cases :
    {A : Type 0} (r : Result A) → ((e : Exn) × (r ≡ raise e)) ⊎ ((a : A) × (r ≡ ok a))
Result-cases (ok a) = inr (a, refl)
Result-cases (raise e) = inl (e, refl)

pub query_run :
    {S A : Type 0} (m : Exec S A) (s : S) {r : Result A} → IsQuery m → (m s).0 ≡ r → m s ≡ (r, s)
query_run m s {r} h e = ap (λ r. (r, (m s).1)) e ∙ ap (λ t. (r, t)) (h s)

continue-IsQuery :
    {S A B : Type 0} (r : Result A) (f : A → Exec S B)
    → ((a : A) → IsQuery (f a))
    → IsQuery (continue r f)
continue-IsQuery (ok a) f h s = h a s
continue-IsQuery (raise e) f h s = refl

pub bind-IsQuery :
    {S A B : Type 0} (m : Exec S A) (f : A → Exec S B)
    → IsQuery m
    → ((a : A) → IsQuery (f a))
    → IsQuery (m >>= f)
bind-IsQuery m f g h s = ap (λ t. (continue (m s).0 f t).1) (g s) ∙ continue-IsQuery (m s).0 f h s

continue_inv :
    {S A B : Type 0} (r : Result A) (f : A → Exec S B) (s : S) (b : B)
    → (continue r f s).0 ≡ ok b
    → (a : A) × (r ≡ ok a) × ((f a s).0 ≡ ok b)
continue_inv (ok a) f s b h = (a, refl, h)
continue_inv (raise e) f s b h = cc

pub ok_inj : {A : Type 0} {a b : A} → ok a ≡ ok b → a ≡ b
ok_inj h = cc

-- What a successful sequence of two steps says of both.
pub bind_inv :
    {S A B : Type 0} (m : Exec S A) (f : A → Exec S B) (s : S) (b : B)
    → ((m >>= f) s).0 ≡ ok b
    → (a : A) × ((m s).0 ≡ ok a) × ((f a (m s).1).0 ≡ ok b)
bind_inv m f s b h = continue_inv (m s).0 f (m s).1 b h

pub get_context-IsQuery :
    {V D : Type 0} (ctx : ContextId) → IsQuery (get_context {V = V} {D = D} ctx)
unfolding get_context lock_context
get_context-IsQuery ctx s = elim (Bool-cases (contains ctx s.locks)) [
  | inr unknown ↦ rw unknown refl
  | inl locked ↦ elim (Option-cases (Dict.get ctx s.contexts)) [
    | inl missing ↦ rw (locked, missing) refl
    | inr (c, found) ↦ rw (locked, found) refl
  ]
]

module _ {V O D : Type 0} (values : Values V) (key : String) where
  pub on_store-IsQuery :
      {A : Type 0} (m : Exec (ContextStore V D) A)
      → IsQuery m
      → IsQuery (on_store {S = Timestamper O} m)
  on_store-IsQuery m h a = ap (λ s. record a { context_store = s }) (h a.context_store)

  pub started_at-IsQuery : (ctx : ContextId) → IsQuery (started_at values key {O = O} {D = D} ctx)
  unfolding started_at
  started_at-IsQuery ctx =
      bind-IsQuery (on_store (get_context ctx)) _
        (on_store-IsQuery (get_context ctx) (get_context-IsQuery ctx)) (λ c a. refl)

  stamp-IsQuery :
      (now : Moment) (output : O) (started : Moment) (beat : Option BlockBeat)
      → IsQuery (stamp values key {D = D} now output started beat)
  stamp-IsQuery now output started none a = refl
  stamp-IsQuery now output started (some beat) a = refl

  pub timestamp_output-IsQuery :
      (now : Moment) (ctx : ContextId) (output : O)
      → IsQuery (timestamp_output values key {D = D} now ctx output)
  unfolding timestamp_output
  timestamp_output-IsQuery now ctx output =
      bind-IsQuery (started_at values key ctx) _ (started_at-IsQuery ctx) (λ started.
        bind-IsQuery (gets (λ a. a.state.latest_block_beat)) (stamp values key now output started)
          (λ a. refl) (stamp-IsQuery now output started))

  keep_or_drop-IsQuery :
      (old : Bool) (queued : QueuedOutput O) (rest : List (QueuedOutput O) × ℕ)
      → IsQuery {S = Actor (Timestamper O) V D} {A = List (QueuedOutput O) × ℕ}
          (if old then pure (rest.0, suc rest.1) else pure (queued ∷ rest.0, rest.1))
  keep_or_drop-IsQuery true queued rest a = refl
  keep_or_drop-IsQuery false queued rest a = refl

  pub retained_entries-IsQuery :
      (now : Moment) (queue : List (QueuedOutput O))
      → IsQuery (retained_entries values key {D = D} now queue)
  unfolding retained_entries
  retained_entries-IsQuery now [] a = refl
  retained_entries-IsQuery now (queued ∷ queue) a =
      bind-IsQuery (started_at values key queued.ctx_id) _ (started_at-IsQuery queued.ctx_id)
        (λ started.
          bind-IsQuery (retained_entries values key now queue) _
            (retained_entries-IsQuery now queue)
            (λ rest.
              keep_or_drop-IsQuery (is_older queue_age_error_threshold now started) queued rest))
        a

  pub flush-IsQuery :
      (I : Type 0) (clock : ℕ → Moment) (queue : List (QueuedOutput O))
      → IsQuery (flush values key {I = I} {D = D} clock queue)
  unfolding flush
  flush-IsQuery I clock [] a = refl
  flush-IsQuery I clock (queued ∷ queue) a =
      bind-IsQuery (on_store (get_context queued.ctx_id)) _
        (on_store-IsQuery (get_context queued.ctx_id) (get_context-IsQuery queued.ctx_id))
        (λ c.
          bind-IsQuery (timestamp_output values key (clock 0) c.id queued.output) _
            (timestamp_output-IsQuery (clock 0) c.id queued.output)
            (λ stamped.
              bind-IsQuery (flush values key {I = I} (λ i. clock (suc i)) queue) _
                (flush-IsQuery I (λ i. clock (suc i)) queue) (λ rest a. refl)))
        a
