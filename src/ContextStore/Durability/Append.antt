-- ===== src/ContextStore/Durability/Append.antt =====
-- An entry at the end of one log, seen by the invariant.
use bittensor_nexus_library.Prelude.{
  ℕ, ◌+◌, ◌≡◌, refl, sym, ap, ◌∙◌, subst, false, Option, none, some, List, [], ◌∷◌, ◌++◌, inl, inr,
  ◌==◌, beq_refl, length, length-append, nat_eq, string_eq, if◌then◌else◌, arith, Bool-cases,
}
use bittensor_nexus_library.Prelude.Dict
use bittensor_nexus_library.Prelude.Dict.{Dict, IsDict, get-put, put-IsDict}
use bittensor_nexus_library.Exceptions.{ok, raise, ◌>>=◌}
use bittensor_nexus_library.ContextStore.{
  ContextId, DeepDiff, LogEntry, LogEntryData, Context, InMemoryPersistence,
}
use bittensor_nexus_library.ContextStore.Persistence.{next_entry, absent}
use bittensor_nexus_library.ContextStore.Recovery.{follows}
use bittensor_nexus_library.ContextStore.Recovery.Local.{
  Local, nothing, local_entry, local_step, local_steps,
}
use bittensor_nexus_library.ContextStore.Recovery.Entries.{IsLog}
use bittensor_nexus_library.ContextStore.Durability.Sets.{Sets}
use bittensor_nexus_library.ContextStore.Durability.{live, Replays, Tracked, Tracks}

module _ {V D : Type 0} where
  IsLog-append :
      (c n : ℕ) (log : List (LogEntry V D)) (entry : LogEntryData V D) (m : ℕ)
      → IsLog c n log
      → m ≡ n + length log
      → IsLog c n (log ++ record { ctx = c; step_idx = m; entry = entry } ∷ [])
  IsLog-append c n [] entry m h at = (refl, omega (arith, at), tt)
  IsLog-append c n (e ∷ es) entry m (own, idx, h) at =
      (own, idx, IsLog-append c (n + 1) es entry m h (omega (arith, at)))

module _ {V D : Type 0} ⦃dd : DeepDiff V D⦄ where
  local_steps-append :
      (xs ys : List (LogEntry V D)) (l : Local V D)
      → local_steps (xs ++ ys) l ≡ (local_steps xs l >>= local_steps ys)
  unfolding local_steps
  local_steps-append [] ys l = refl
  local_steps-append (e ∷ es) ys l =
      elim (local_step e l)
        as (λ r. (r >>= local_steps (es ++ ys)) ≡ ((r >>= local_steps es) >>= local_steps ys)) [
          | ok l' ↦ local_steps-append es ys l'
          | raise x ↦ refl
        ]

  -- Replaying `entry` turns the context `c` into `c'`.
  abbrev pub Steps : ContextId → LogEntryData V D → Context V → Context V → Type 0
  Steps ctx entry c c' =
      (l : Local V D)
      → l.context ≡ some c
      → l.completed ≡ false
      → (l' : Local V D) × (local_entry ctx entry l ≡ ok l')
        × (l'.context ≡ live c')
        × (l'.completed ≡ c'.is_completed)
        × (l'.step ≡ l.step)

  local_step_next :
      (e : LogEntry V D) (l l' : Local V D) (n : ℕ)
      → l.step ≡ some n
      → e.step_idx ≡ n + 1
      → l.completed ≡ false
      → local_entry e.ctx e.entry (record l { step = some e.step_idx }) ≡ ok l'
      → local_step e l ≡ ok l'
  unfolding local_step follows
  local_step_next e l l' n step idx alive h = ground (arith, h)

  pub Replays-append :
      (ctx : ContextId) (entry : LogEntryData V D) (c c' : Context V) (log : List (LogEntry V D))
      → Steps ctx entry c c'
      → c.is_completed ≡ false
      → Replays (live c) c.is_completed log
      → Replays (live c') c'.is_completed (log ++ next_entry ctx entry log ∷ [])
  unfolding local_steps
  Replays-append ctx entry c c' log steps alive (l, replay, context, completed, n, step, len) =
      let e = next_entry ctx entry log in
      let (l', done, context', completed', step') =
        steps (record l { step = some (length log) }) (context ∙ rw alive refl)
          (completed ∙ alive) in
      let once : local_step e l ≡ ok l' =
        local_step_next e l l' n step len (completed ∙ alive) done in
      (
        l',
        local_steps-append log (e ∷ []) nothing
            ∙ ap (λ r. r >>= local_steps (e ∷ [])) replay
            ∙ ap (λ r. r >>= local_steps []) once,
        context',
        completed',
        length log,
        step',
        omega (arith, length-append log (e ∷ [])),
      )

  pub Tracked-elsewhere :
      (j : ContextId) (o : Option (Context V)) (p p' : InMemoryPersistence V D)
      → Dict.get j p'.logs ≡ Dict.get j p.logs
      → absent (Dict.get j p'.context_tree) ≡ absent (Dict.get j p.context_tree)
      → Tracked j o p
      → Tracked j o p'
  Tracked-elsewhere j none p p' same_log same_tree (inl h) = inl (same_log ∙ h)
  Tracked-elsewhere j none p p' same_log same_tree (inr (log, h, own, replays)) =
      inr (log, same_log ∙ h, own, replays)
  Tracked-elsewhere j (some c) p p' same_log same_tree (log, h, t, own, names, replays) =
      (log, same_log ∙ h, same_tree ∙ t, own, names, replays)

  -- One more entry in the log of a live context, and its effect on the context.
  pub append-Tracks :
      (ctx : ContextId) (entry : LogEntryData V D) (c c' : Context V) (log : List (LogEntry V D))
      (contexts contexts' : Dict ContextId (Context V)) (p p' : InMemoryPersistence V D)
      → Tracks contexts p
      → Dict.get ctx contexts ≡ some c
      → Dict.get ctx p.logs ≡ some log
      → c.is_completed ≡ false
      → Steps ctx entry c c'
      → c'.id ≡ c.id
      → Sets ctx c' contexts contexts'
      → p'.logs ≡ Dict.put ctx (log ++ next_entry ctx entry log ∷ []) p.logs
      → ((j : ContextId) → absent (Dict.get j p'.context_tree) ≡ absent (Dict.get j p.context_tree))
      → Tracks contexts' p'
  append-Tracks ctx entry c c' log contexts contexts' p p' (d, t) found logged alive steps same_id
        sets logs tree =
      let log' = log ++ next_entry ctx entry log ∷ [] in
      let (log₀, logged₀, rooted, own, names, replays) =
        subst (λ o. Tracked ctx o p) found (t ctx) in
      let same : log₀ ≡ log = ground (arith, logged, logged₀) in
      let logs_at : (j : ContextId)
          → Dict.get j p'.logs ≡ (if ctx == j then some log' else Dict.get j p.logs) =
        λ j. ap (Dict.get j) logs ∙ get-put ctx j log' p.logs in
      (
        subst IsDict (sym logs) (put-IsDict ctx log' p.logs d),
        λ j. elim (Bool-cases (ctx == j)) [
          | inl here ↦
              let eq : ctx ≡ j = ground (arith, here) in
              let set_here : Dict.get ctx contexts' ≡ some c' = sets ctx ∙ rw (beq_refl ctx) refl in
              let log_here : Dict.get ctx p'.logs ≡ some log' =
                logs_at ctx ∙ rw (beq_refl ctx) refl in
              subst (λ i. Tracked i (Dict.get i contexts') p') eq
                (subst (λ o. Tracked ctx o p') (sym set_here)
                  (
                    log',
                    log_here,
                    tree ctx ∙ rooted,
                    IsLog-append ctx 0 log entry (length log) (subst (IsLog ctx 0) same own)
                        (omega arith),
                    same_id ∙ names,
                    Replays-append ctx entry c c' log steps alive
                        (subst (Replays (live c) c.is_completed) same replays),
                  ))
          | inr there ↦
              let set_there : Dict.get j contexts' ≡ Dict.get j contexts = sets j ∙ rw there refl in
              let log_there : Dict.get j p'.logs ≡ Dict.get j p.logs = logs_at j ∙ rw there refl in
              subst (λ o. Tracked j o p') (sym set_there)
                (Tracked-elsewhere j (Dict.get j contexts) p p' log_there (tree j) (t j))
        ],
      )
