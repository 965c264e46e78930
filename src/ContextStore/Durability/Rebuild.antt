-- ===== src/ContextStore/Durability/Rebuild.antt =====
-- Recovery of a store that satisfies the invariant.
use bittensor_nexus_library.Prelude.{
  ◌≡◌, refl, ap, ◌∙◌, subst, not, Option, none, some, List, [], ◌∷◌, inl, inr, contains, nat_eq,
  arith,
}
use bittensor_nexus_library.Prelude.Dict
use bittensor_nexus_library.Prelude.Dict.{Dict, IsDict}
use bittensor_nexus_library.Exceptions.{ok}
use bittensor_nexus_library.ContextStore.{
  ContextId, DeepDiff, LogEntry, Context, ContextStore, InMemoryPersistence,
}
use bittensor_nexus_library.ContextStore.Persistence.{absent, log_entries}
use bittensor_nexus_library.ContextStore.Recovery.{RecoveredContextStore, start, recover_from}
use bittensor_nexus_library.ContextStore.Recovery.Local.{
  Local, view, view-start, nothing, local_steps,
}
use bittensor_nexus_library.ContextStore.Recovery.Entries.{
  IsLog, AreLogs, log_or_empty, of_context-log_entries, recover_entries-view,
}
use bittensor_nexus_library.ContextStore.Durability.{live_option, Tracked, Locks, IsStore}

contains-keys :
    {V : Type 0} (ctx : ContextId) (d : Dict ContextId V)
    → contains ctx (Dict.keys d) ≡ not (absent (Dict.get ctx d))
unfolding contains Dict.get
contains-keys ctx [] = refl
contains-keys ctx ((j, v) ∷ d) = ground (arith, contains-keys ctx d)

module _ {V D : Type 0} ⦃dd : DeepDiff V D⦄ where
  Tracked-IsLog :
      (ctx : ContextId) (o : Option (Context V)) (p : InMemoryPersistence V D)
      (log : List (LogEntry V D))
      → Tracked ctx o p
      → Dict.get ctx p.logs ≡ some log
      → IsLog ctx 0 log
  Tracked-IsLog ctx none p log (inl fresh) h = absurd (ground (arith, fresh, h))
  Tracked-IsLog ctx none p log (inr (log', h', own, replays)) h =
      let same : log' ≡ log = ground (arith, h, h') in subst (IsLog ctx 0) same own
  Tracked-IsLog ctx (some c) p log (log', h', rooted, own, names, replays) h =
      let same : log' ≡ log = ground (arith, h, h') in subst (IsLog ctx 0) same own

  -- The replay of a context's own log gives what is live of it.
  Tracked-replay :
      (ctx : ContextId) (o : Option (Context V)) (p : InMemoryPersistence V D)
      → Tracked ctx o p
      → (l : Local V D) × (local_steps (log_or_empty (Dict.get ctx p.logs)) nothing ≡ ok l)
        × (l.context ≡ live_option o)
  unfolding local_steps nothing
  Tracked-replay ctx none p (inl fresh) = (nothing, rw fresh refl, refl)
  Tracked-replay ctx none p (inr (log, h, own, (l, replay, context, completed, n, step, len))) =
      (l, rw h replay, context)
  Tracked-replay ctx (some c) p
        (log, h, rooted, own, names, (l, replay, context, completed, n, step, len)) =
      (l, rw h replay, context)

  abbrev Replayed : InMemoryPersistence V D → Option (Context V) → ContextId → Type 0
  Replayed p o ctx =
      (l : Local V D) × (local_steps (log_or_empty (Dict.get ctx p.logs)) nothing ≡ ok l)
      × (l.context ≡ live_option o)

  -- Recovery of what is persisted of such a store succeeds, and brings back its live contexts.
  pub recover_from-Tracks :
      (s : ContextStore V D)
      → IsStore s
      → (r : RecoveredContextStore V D) × (recover_from s.persistence ≡ ok r)
        × (r.context_store.persistence ≡ s.persistence)
        × ((ctx : ContextId)
            → Dict.get ctx r.context_store.contexts ≡ live_option (Dict.get ctx s.contexts))
        × Locks r.context_store.contexts r.context_store.locks
  unfolding recover_from Dict.get view
  recover_from-Tracks s ((d, tracked), locks) =
      let p = s.persistence in
      let own : AreLogs p.logs =
        λ ctx log. Tracked-IsLog ctx (Dict.get ctx s.contexts) p log (tracked ctx) in
      let local : (ctx : ContextId) → Replayed p (Dict.get ctx s.contexts) ctx =
        λ ctx. Tracked-replay ctx (Dict.get ctx s.contexts) p (tracked ctx) in
      let (r, done, seen) =
        recover_entries-view (log_entries p) start (λ ctx. (local ctx).0)
          λ ctx.
            ap (λ es. local_steps es (view start ctx)) (of_context-log_entries ctx p d own)
            ∙ ap (local_steps (log_or_empty (Dict.get ctx p.logs))) (view-start ctx)
            ∙ (local ctx).1 in
      (
        record {
          context_store = record {
            persistence = p;
            contexts = r.contexts;
            locks = Dict.keys r.contexts;
          };
          last_messages = r.last_messages;
        },
        rw done refl,
        refl,
        λ ctx. ap (λ l. l.context) (seen ctx) ∙ (local ctx).2,
        λ ctx. contains-keys ctx r.contexts,
      )
