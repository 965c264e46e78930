-- ===== src/ContextStore/Recovery/Entries.antt =====
-- The loop of recovery over all entries, against the replay of each context's own entries; and
-- `log_entries`, which keeps each context's entries in order.
use bittensor_nexus_library.Prelude.{
  ℕ, ◌+◌, ◌≤◌, ◌≡◌, refl, ap, ◌∙◌, subst, true, false, Option, none, some, List, [], ◌∷◌, ◌++◌,
  ◌==◌, nat_eq, arith, keep_if, keep_if-append, Bool-cases, Option-cases, inl, inr, beq_refl, All,
}
use bittensor_nexus_library.Prelude.Dict
use bittensor_nexus_library.Prelude.Dict.{Dict, IsDict}
use bittensor_nexus_library.Prelude.Sort.{sort_by, keep_if-sort_by, sort_by_sorted, Ascending}
use bittensor_nexus_library.Exceptions.{ok, >>=-eq-ok}
use bittensor_nexus_library.ContextStore.{ContextId, DeepDiff, LogEntry, InMemoryPersistence}
use bittensor_nexus_library.ContextStore.Persistence.{all_entries, log_entries}
use bittensor_nexus_library.ContextStore.Recovery.{Recovering, recover_entries}
use bittensor_nexus_library.ContextStore.Recovery.Local.{
  Local, view, local_step, local_steps, recover_entry-view,
}

module _ {V D : Type 0} where
  abbrev pub of_context : ContextId → List (LogEntry V D) → List (LogEntry V D)
  of_context ctx = keep_if (λ e. e.ctx == ctx)

module _ {V D : Type 0} ⦃dd : DeepDiff V D⦄ where
  head_step :
      (e : LogEntry V D) (es : List (LogEntry V D)) (l l' : Local V D)
      → local_steps (of_context e.ctx (e ∷ es)) l ≡ ok l'
      → (l₁ : Local V D) × (local_step e l ≡ ok l₁) × (local_steps (of_context e.ctx es) l₁ ≡ ok l')
  unfolding keep_if local_steps
  head_step e es l l' h =
      >>=-eq-ok (local_step e l) (local_steps (of_context e.ctx es))
        (ground (arith, h, beq_refl e.ctx))

  tail_steps :
      (e : LogEntry V D) (es : List (LogEntry V D)) (c : ContextId) (l l' : Local V D)
      → (e.ctx == c) ≡ false
      → local_steps (of_context c (e ∷ es)) l ≡ ok l'
      → local_steps (of_context c es) l ≡ ok l'
  unfolding keep_if
  tail_steps e es c l l' other h = ground (arith, h)

  -- Recovery succeeds where the replay of every context's own entries does, with the same result.
  pub recover_entries-view :
      (es : List (LogEntry V D)) (r : Recovering V D) (l : ContextId → Local V D)
      → ((c : ContextId) → local_steps (of_context c es) (view r c) ≡ ok (l c))
      → (r' : Recovering V D) × (recover_entries es r ≡ ok r') × ((c : ContextId) → view r' c ≡ l c)
  unfolding recover_entries local_steps keep_if
  recover_entries-view [] r l h = (r, refl, λ c. ground (arith, h c))
  recover_entries-view (e ∷ es) r l h =
      let (l₁, step, rest) = head_step e es (view r e.ctx) (l e.ctx) (h e.ctx) in
      let (r₁, once, updates) = recover_entry-view e r l₁ step in
      let (r', all, seen) = recover_entries-view es r₁ l λ c. elim (Bool-cases (e.ctx == c)) [
        | inl here ↦ ground (arith, rest, updates c)
        | inr there ↦ ground (arith, updates c, tail_steps e es c (view r c) (l c) there (h c))
      ] in
      (r', rw once all, seen)

module _ {V D : Type 0} where
  abbrev pub log_or_empty : Option (List (LogEntry V D)) → List (LogEntry V D)
  log_or_empty none = []
  log_or_empty (some log) = log

  -- Every entry of a context's log names that context, and its index is its place.
  abbrev pub IsLog : ContextId → ℕ → List (LogEntry V D) → Type 0
  IsLog c n [] = Unit
  IsLog c n (e ∷ es) = (e.ctx ≡ c) × (e.step_idx ≡ n) × IsLog c (n + 1) es

  of_context_own : (c n : ℕ) (log : List (LogEntry V D)) → IsLog c n log → of_context c log ≡ log
  unfolding keep_if
  of_context_own c n [] h = refl
  of_context_own c n (e ∷ es) h = ground (arith, h, of_context_own c (n + 1) es h.2)

  of_context_other :
      (c d n : ℕ) (log : List (LogEntry V D))
      → IsLog d n log
      → (d == c) ≡ false
      → of_context c log ≡ []
  unfolding keep_if
  of_context_other c d n [] h other = refl
  of_context_other c d n (e ∷ es) h other =
      ground (arith, h, of_context_other c d (n + 1) es h.2 other)

  abbrev pub AreLogs : Dict ContextId (List (LogEntry V D)) → Type 0
  AreLogs logs =
      (c : ContextId) (log : List (LogEntry V D)) → Dict.get c logs ≡ some log → IsLog c 0 log

  get_same :
      (k c : ContextId) (logs : Dict ContextId (List (LogEntry V D)))
      → (k == c) ≡ true
      → Dict.get k logs ≡ none
      → Dict.get c logs ≡ none
  get_same k c logs same fresh = ground (arith, same, fresh)

  nothing_after : (xs ys : List (LogEntry V D)) → ys ≡ [] → xs ++ ys ≡ xs
  nothing_after [] ys h = h
  nothing_after (x ∷ xs) ys h = ap (λ zs. x ∷ zs) (nothing_after xs ys h)

  of_context-all_entries :
      (c : ContextId) (logs : Dict ContextId (List (LogEntry V D)))
      → IsDict logs
      → AreLogs logs
      → of_context c (all_entries logs) ≡ log_or_empty (Dict.get c logs)
  unfolding all_entries Dict.get keep_if
  of_context-all_entries c [] d own = refl
  of_context-all_entries c ((k, log) ∷ logs) (fresh, d) own =
      let mine : IsLog k 0 log = own k log (rw (beq_refl k) refl) in
      let rest : AreLogs logs = λ j l h. own j l (ground (arith, h, fresh)) in
      let ih = of_context-all_entries c logs d rest in
      let split = keep_if-append (λ e. e.ctx == c) log (all_entries logs) in
      elim (Bool-cases (k == c)) [
        | inl here ↦
            let same : k ≡ c = ground (arith, here) in
            let none_left : log_or_empty (Dict.get c logs) ≡ [] =
              rw (get_same k c logs here fresh) refl in
            rw here (
              split
              ∙ nothing_after (of_context c log) (of_context c (all_entries logs)) (ih ∙ none_left)
              ∙ of_context_own c 0 log (subst (λ j. IsLog j 0 log) same mine))
        | inr there ↦ rw there (
            split
            ∙ ap (λ xs. xs ++ of_context c (all_entries logs))
                (of_context_other c k 0 log mine there)
            ∙ ih)
      ]

  indices_from :
      (c k n : ℕ) (log : List (LogEntry V D))
      → IsLog c n log
      → k ≤ n
      → All (λ e. k ≤ e.step_idx) log
  indices_from c k n [] h low = tt
  indices_from c k n (e ∷ es) (own, idx, h) low =
      (rw idx low, indices_from c k (n + 1) es h (omega (arith, low)))

  ascends : (c n : ℕ) (log : List (LogEntry V D)) → IsLog c n log → Ascending (λ e. e.step_idx) log
  ascends c n [] h = tt
  ascends c n (e ∷ es) (own, idx, h) =
      (indices_from c e.step_idx (n + 1) es h (omega (arith, idx)), ascends c (n + 1) es h)

  ascends_option :
      (c : ContextId) (logs : Dict ContextId (List (LogEntry V D)))
      → AreLogs logs
      → Ascending (λ e. e.step_idx) (log_or_empty (Dict.get c logs))
  ascends_option c logs own = elim (Option-cases (Dict.get c logs)) [
    | inl e ↦ rw e tt
    | inr (log, e) ↦ rw e (ascends c 0 log (own c log e))
  ]

  -- What recovery reads of a context is its log.
  pub of_context-log_entries :
      (c : ContextId) (p : InMemoryPersistence V D)
      → IsDict p.logs
      → AreLogs p.logs
      → of_context c (log_entries p) ≡ log_or_empty (Dict.get c p.logs)
  unfolding log_entries
  of_context-log_entries c p d own =
      keep_if-sort_by (λ e. e.step_idx) (λ e. e.ctx == c) (all_entries p.logs)
      ∙ ap (sort_by (λ e. e.step_idx)) (of_context-all_entries c p.logs d own)
      ∙ sort_by_sorted (λ e. e.step_idx) (log_or_empty (Dict.get c p.logs))
          (ascends_option c p.logs own)
