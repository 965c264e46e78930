-- ===== src/Timestamper/Shrinks.antt =====
-- What the age check of a `TimestamperActor` does to the queue: it never adds to it.
use bittensor_nexus_library.Prelude.{
  ℕ, suc, ◌≤◌, ◌≡◌, subst, sym, String, Bool, true, false, not, ◌&&◌, Option, none, List, [], ◌∷◌,
  nat_eq, string_eq, arith, Bool-cases, inl, inr, if◌then◌else◌,
}
use bittensor_nexus_library.Exceptions.{Result, ok, raise}
use bittensor_nexus_library.Exceptions.Exec.{Exec, continue, gets, pure, ◌>>=◌}
use bittensor_nexus_library.ContextStore.{ContextId}
use bittensor_nexus_library.Runtime.{Actor}
use bittensor_nexus_library.Timestamper.{
  Moment, Values, QueuedOutput, Timestamper, started_at, retained_entries,
  drop_entries_older_than_error_threshold, set_warning_logged_head, check_head, check_age,
  is_logged, log_if_first_queued_output_too_old, is_older, queue_age_error_threshold,
  queue_age_warning_threshold,
}
use bittensor_nexus_library.Timestamper.Queries.{
  IsQuery, Result-cases, bind_inv, ok_inj, started_at-IsQuery, retained_entries-IsQuery,
}
use bittensor_nexus_library.Timestamper.Runs.{queued_for}

module _ {V : Type 0} (values : Values V) (key : String) where
  module _ {O D : Type 0} where
    kept_one :
        (old : Bool) (test : ContextId → O → Bool) (queued : QueuedOutput O)
        (queue : List (QueuedOutput O)) (rest kept : List (QueuedOutput O) × ℕ)
        (a : Actor (Timestamper O) V D)
        → queued_for test rest.0 ≤ queued_for test queue
        → ((if old then pure (rest.0, suc rest.1) else pure (queued ∷ rest.0, rest.1)) a).0
          ≡ ok kept
        → queued_for test kept.0 ≤ queued_for test (queued ∷ queue)
    kept_one true test queued queue rest kept a le h =
        subst (λ k. queued_for test k.0 ≤ queued_for test (queued ∷ queue)) (ok_inj h)
          (omega (arith, le))
    kept_one false test queued queue rest kept a le h =
        subst (λ k. queued_for test k.0 ≤ queued_for test (queued ∷ queue)) (ok_inj h)
          (omega (arith, le))

    retained_entries_le :
        (test : ContextId → O → Bool) (now : Moment) (queue : List (QueuedOutput O))
        (kept : List (QueuedOutput O) × ℕ) (a : Actor (Timestamper O) V D)
        → (retained_entries values key now queue a).0 ≡ ok kept
        → queued_for test kept.0 ≤ queued_for test queue
    unfolding retained_entries
    retained_entries_le test now [] kept a h =
        subst (λ k. queued_for test k.0 ≤ 0) (ok_inj h) (omega arith)
    retained_entries_le test now (queued ∷ queue) kept a h =
        let (started, at, next) = bind_inv (started_at values key queued.ctx_id) _ a kept h in
        let a₁ = (started_at values key queued.ctx_id a).1 in
        let (rest, done, last) = bind_inv (retained_entries values key now queue) _ a₁ kept next in
        kept_one (is_older queue_age_error_threshold now started) test queued queue rest kept _
          (retained_entries_le test now queue rest a₁ done) last

    -- A step after which no more outputs of the context are queued.
    abbrev pub Shrinks :
        {A : Type 0} → (ContextId → O → Bool) → Exec (Actor (Timestamper O) V D) A → Type 0
    Shrinks test m =
        (a : Actor (Timestamper O) V D)
        → queued_for test (m a).1.state.queued_outputs ≤ queued_for test a.state.queued_outputs

    pub continue-Shrinks :
        {A B : Type 0} (test : ContextId → O → Bool) (r : Result A)
        (f : A → Exec (Actor (Timestamper O) V D) B)
        → ((x : A) → Shrinks test (f x))
        → Shrinks test (continue r f)
    continue-Shrinks test (ok x) f h a = h x a
    continue-Shrinks test (raise e) f h a = omega arith

    pub bind-Shrinks :
        {A B : Type 0} (test : ContextId → O → Bool) (m : Exec (Actor (Timestamper O) V D) A)
        (f : A → Exec (Actor (Timestamper O) V D) B)
        → Shrinks test m
        → ((x : A) → Shrinks test (f x))
        → Shrinks test (m >>= f)
    bind-Shrinks test m f g h a = omega (arith, g a, continue-Shrinks test (m a).0 f h (m a).1)

    query-Shrinks :
        {A : Type 0} (test : ContextId → O → Bool) (m : Exec (Actor (Timestamper O) V D) A)
        → IsQuery m
        → Shrinks test m
    query-Shrinks test m h a =
        subst (λ s. queued_for test s.state.queued_outputs ≤ queued_for test a.state.queued_outputs)
          (sym (h a)) (omega arith)

    drop-Shrinks :
        (test : ContextId → O → Bool) (now : Moment)
        → Shrinks test (drop_entries_older_than_error_threshold values key now)
    unfolding drop_entries_older_than_error_threshold
    drop-Shrinks test now a =
        let queue = a.state.queued_outputs in
        elim (Result-cases (retained_entries values key now queue a).0) [
          | inl (e, failed) ↦ rw failed (
              query-Shrinks test (retained_entries values key now queue)
                (retained_entries-IsQuery values key now queue) a)
          | inr (kept, done) ↦ rw done (retained_entries_le test now queue kept a done)
        ]

    check_age-Shrinks :
        (test : ContextId → O → Bool) (now : Moment) (first : QueuedOutput O) (started : Moment)
        (logged : Option (ContextId × Moment))
        → Shrinks test (check_age values key now first started logged)
    unfolding check_age
    check_age-Shrinks test now first started logged a =
        elim (Bool-cases (is_older queue_age_error_threshold now started)) [
          | inl old ↦ rw old (
              bind-Shrinks test (drop_entries_older_than_error_threshold values key now)
                (λ dropped. set_warning_logged_head values key none) (drop-Shrinks test now)
                (λ dropped a. omega arith) a)
          | inr recent ↦
              rw recent
                (elim (Bool-cases (
                  is_older queue_age_warning_threshold now started
                  && not (is_logged logged (first.ctx_id, started)))) [
                    | inl warned ↦ rw warned (omega arith)
                    | inr quiet ↦ rw quiet (omega arith)
                  ])
        ]

    check_head-Shrinks :
        (test : ContextId → O → Bool) (now : Moment) (queue : List (QueuedOutput O))
        → Shrinks test (check_head values key now queue)
    unfolding check_head
    check_head-Shrinks test now [] a = omega arith
    check_head-Shrinks test now (first ∷ queue) a =
        bind-Shrinks test (started_at values key first.ctx_id)
          (λ started.
            (gets (λ (a : Actor (Timestamper O) V D). a.state.warning_logged_head) >>= λ logged.
            check_age values key now first started logged))
          (query-Shrinks test (started_at values key first.ctx_id)
            (started_at-IsQuery values key first.ctx_id))
          (λ started a. check_age-Shrinks test now first started a.state.warning_logged_head a) a

    pub log-Shrinks :
        (test : ContextId → O → Bool) (now : Moment)
        → Shrinks test (log_if_first_queued_output_too_old values key now)
    unfolding log_if_first_queued_output_too_old
    log-Shrinks test now a = check_head-Shrinks test now a.state.queued_outputs a
