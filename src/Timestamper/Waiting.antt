-- ===== src/Timestamper/Waiting.antt =====
-- What an output does that comes before the first block beat.
use bittensor_nexus_library.Prelude.{
  ℕ, suc, ◌≡◌, refl, sym, ap, ◌∙◌, subst, String, not, ◌&&◌, Option, none, List, [], ◌∷◌, ◌++◌,
  nat_eq, string_eq, arith, Bool-cases, inl, inr, if◌then◌else◌,
}
use bittensor_nexus_library.Prelude.Dict
use bittensor_nexus_library.Exceptions.{Result, ok, raise}
use bittensor_nexus_library.Exceptions.Exec.{continue, modify, gets, pure, ◌>>=◌, ◌>>◌, >>=_run}
use bittensor_nexus_library.ContextStore.{ContextId, DeepDiff, Context}
use bittensor_nexus_library.ContextStore.Durability.{IsStore}
use bittensor_nexus_library.Runtime.{Actor, on_state}
use bittensor_nexus_library.Timestamper.{
  is_logged, Moment, Values, QueuedOutput, Timestamper, started_at, retained_entries,
  drop_entries_older_than_error_threshold, check_head, check_age,
  log_if_first_queued_output_too_old, output_with, handle_output, is_older,
  queue_age_error_threshold, queue_age_warning_threshold,
}
use bittensor_nexus_library.Timestamper.Starts.{cons_start, start_of, starts_of, started_at_run}

-- The outputs whose age is at most the error threshold, and the number of the others.
abbrev pub young :
    {O : Type 0} → Moment → List (QueuedOutput O) → List Moment → List (QueuedOutput O) × ℕ
young now [] starts = ([], 0)
young now (queued ∷ queue) [] = ([], 0)
young now (queued ∷ queue) (started ∷ starts) =
    let rest = young now queue starts in
    if is_older queue_age_error_threshold now started
    then (rest.0, suc rest.1)
    else (queued ∷ rest.0, rest.1)

cons_start_inv :
    (r : Result Moment) (rs : Result (List Moment)) (starts : List Moment)
    → cons_start r rs ≡ ok starts
    → (t : Moment) × (ts : List Moment) × (r ≡ ok t) × (rs ≡ ok ts) × (starts ≡ t ∷ ts)
cons_start_inv (raise e) rs starts h = absurd (ground (arith, h))
cons_start_inv (ok t) (raise e) starts h = absurd (ground (arith, h))
cons_start_inv (ok t) (ok ts) starts h = (t, ts, refl, refl, cc)

-- What stays of a queue: all of it while the head is not too old.
abbrev pub waiting :
    {O : Type 0} → Moment → List (QueuedOutput O) → List Moment → List (QueuedOutput O)
waiting now queue [] = queue
waiting now queue (started ∷ starts) =
    if is_older queue_age_error_threshold now started
    then (young now queue (started ∷ starts)).0
    else queue

abbrev retained :
    {O : Type 0}
    → Moment
    → List (QueuedOutput O)
    → Result (List Moment)
    → Result (List (QueuedOutput O) × ℕ)
retained now queue (ok starts) = ok (young now queue starts)
retained now queue (raise e) = raise e

-- The actor waits with this queue for the first beat.
abbrev pub Waits :
    {V O D : Type 0}
    → Actor (Timestamper O) V D
    → List (QueuedOutput O)
    → Actor (Timestamper O) V D
    → Type 0
Waits a queue a' =
    (a'.state.latest_block_beat ≡ a.state.latest_block_beat)
    × (a'.state.queued_outputs ≡ queue)
    × (a'.context_store ≡ a.context_store)

module _ {V : Type 0} (values : Values V) (key : String) where
  module _ {O D : Type 0} ⦃dd : DeepDiff V D⦄ where
    retained_cons :
        (now : Moment) (queued : QueuedOutput O) (queue : List (QueuedOutput O))
        (a : Actor (Timestamper O) V D) (started : Moment) (starts : Result (List Moment))
        → continue
            (retained now queue starts)
            (λ rest.
              if is_older queue_age_error_threshold now started
              then pure (rest.0, suc rest.1)
              else pure (queued ∷ rest.0, rest.1))
            a
          ≡ (retained now (queued ∷ queue) (cons_start (ok started) starts), a)
    retained_cons now queued queue a started (raise e) = refl
    retained_cons now queued queue a started (ok starts) =
        elim (Bool-cases (is_older queue_age_error_threshold now started)) [
          | inl old ↦ rw old refl
          | inr new ↦ rw new refl
        ]

    retained_rest :
        (now : Moment) (queued : QueuedOutput O) (queue : List (QueuedOutput O))
        (a : Actor (Timestamper O) V D) (first : Result Moment)
        → retained_entries values key now queue a
          ≡ (retained now queue (starts_of values key a.context_store queue), a)
        → continue first
            (λ started.
              (retained_entries values key now queue >>= λ rest.
              if is_older queue_age_error_threshold now started
              then pure (rest.0, suc rest.1)
              else pure (queued ∷ rest.0, rest.1)))
            a
          ≡ (
            retained now
                (queued ∷ queue)
                (cons_start first (starts_of values key a.context_store queue)),
            a,
          )
    retained_rest now queued queue a (raise e) rest = refl
    retained_rest now queued queue a (ok started) rest =
        >>=_run (retained_entries values key now queue) _ a rest
        ∙ retained_cons now queued queue a started (starts_of values key a.context_store queue)

    retained_entries_run :
        (now : Moment) (queue : List (QueuedOutput O)) (a : Actor (Timestamper O) V D)
        → IsStore a.context_store
        → retained_entries values key now queue a
          ≡ (retained now queue (starts_of values key a.context_store queue), a)
    unfolding retained_entries
    retained_entries_run now [] a sound = refl
    retained_entries_run now (queued ∷ queue) a sound =
        >>=_run (started_at values key queued.ctx_id) _ a
          (started_at_run values key queued.ctx_id a sound)
        ∙ retained_rest now queued queue a
            (start_of values key (Dict.get queued.ctx_id a.context_store.contexts))
            (retained_entries_run now queue a sound)

    drop_run :
        (now : Moment) (queue : List (QueuedOutput O)) (starts : List Moment)
        (a : Actor (Timestamper O) V D)
        → IsStore a.context_store
        → a.state.queued_outputs ≡ queue
        → starts_of values key a.context_store queue ≡ ok starts
        → drop_entries_older_than_error_threshold values key now a ≡ (
          ok (young now queue starts).1,
          record a { state = record a.state { queued_outputs = (young now queue starts).0 } },
        )
    unfolding drop_entries_older_than_error_threshold
    drop_run now queue starts a sound held valid =
        let store_retained = λ (kept : List (QueuedOutput O) × ℕ).
          (on_state (modify (λ t. record t { queued_outputs = kept.0 })) >> pure kept.1) in
        ap (λ queue. (retained_entries values key {D = D} now queue >>= store_retained) a) held
        ∙ >>=_run (retained_entries values key now queue) store_retained a
            (retained_entries_run now queue a sound)
        ∙ ap (λ r. continue (retained now queue r) store_retained a) valid

    check_age_run :
        (now : Moment) (first : QueuedOutput O) (queue : List (QueuedOutput O)) (started : Moment)
        (starts : List Moment) (logged : Option (ContextId × Moment))
        (a : Actor (Timestamper O) V D)
        → IsStore a.context_store
        → a.state.queued_outputs ≡ first ∷ queue
        → starts_of values key a.context_store (first ∷ queue) ≡ ok (started ∷ starts)
        → (a' : Actor (Timestamper O) V D) × (check_age values key now first started logged a
            ≡ (ok tt, a'))
          × Waits a (waiting now (first ∷ queue) (started ∷ starts)) a'
    unfolding check_age
    check_age_run now first queue started starts logged a sound held valid =
        elim (Bool-cases (is_older queue_age_error_threshold now started)) [
          | inl old ↦ rw old (
            _,
            >>=_run (drop_entries_older_than_error_threshold values key now) _ a
                (drop_run now (first ∷ queue) (started ∷ starts) a sound held valid),
            (refl, rw old refl, refl),
          )
          | inr recent ↦
              rw recent
                (elim (Bool-cases (
                  is_older queue_age_warning_threshold now started
                  && not (is_logged logged (first.ctx_id, started)))) [
                    | inl warned ↦ rw warned (_, refl, (refl, held, refl))
                    | inr quiet ↦ rw quiet (_, refl, (refl, held, refl))
                  ])
        ]

    check_head_run :
        (now : Moment) (first : QueuedOutput O) (queue : List (QueuedOutput O))
        (starts : List Moment) (a : Actor (Timestamper O) V D)
        → IsStore a.context_store
        → a.state.queued_outputs ≡ first ∷ queue
        → starts_of values key a.context_store (first ∷ queue) ≡ ok starts
        → (a' : Actor (Timestamper O) V D) × (check_head values key now (first ∷ queue) a
            ≡ (ok tt, a'))
          × Waits a (waiting now (first ∷ queue) starts) a'
    unfolding check_head
    check_head_run now first queue starts a sound held valid =
        let (started, rest, at, others, same) =
          cons_start_inv (start_of values key (Dict.get first.ctx_id a.context_store.contexts))
            (starts_of values key a.context_store queue) starts valid in
        let valid' : starts_of values key a.context_store (first ∷ queue) ≡ ok (started ∷ rest) =
          valid ∙ ap ok same in
        let (a', done, waits) =
          check_age_run now first queue started rest a.state.warning_logged_head a sound held
            valid' in
        let with_start = λ (started : Moment).
          (gets (λ (a : Actor (Timestamper O) V D). a.state.warning_logged_head) >>= λ logged.
          check_age values key now first started logged) in
        (
          a',
          >>=_run (started_at values key first.ctx_id) with_start a
                (started_at_run values key first.ctx_id a sound)
              ∙ ap (λ r. continue r with_start a) at
              ∙ done,
          subst (λ starts. Waits a (waiting now (first ∷ queue) starts) a') (sym same) waits,
        )

    log_run :
        (now : Moment) (queue : List (QueuedOutput O)) (last : QueuedOutput O)
        (starts : List Moment) (a : Actor (Timestamper O) V D)
        → IsStore a.context_store
        → a.state.queued_outputs ≡ queue ++ last ∷ []
        → starts_of values key a.context_store (queue ++ last ∷ []) ≡ ok starts
        → (a' : Actor (Timestamper O) V D) × (log_if_first_queued_output_too_old values key now a
            ≡ (ok tt, a'))
          × Waits a (waiting now (queue ++ last ∷ []) starts) a'
    unfolding log_if_first_queued_output_too_old
    log_run now [] last starts a sound held valid =
        let (a', done, waits) = check_head_run now last [] starts a sound held valid in
        (a', ap (λ queue. check_head values key now queue a) held ∙ done, waits)
    log_run now (first ∷ queue) last starts a sound held valid =
        let (a', done, waits) =
          check_head_run now first (queue ++ last ∷ []) starts a sound held valid in
        (a', ap (λ queue. check_head values key now queue a) held ∙ done, waits)

    -- On a sound store, an output that comes before the first block beat, when its context and the
    -- queued ones have starts, is sent nowhere and joins the end of the queue. The queue then stays as
    -- it is while the age of its head is at most five minutes; otherwise exactly the outputs of at most
    -- that age stay, in their order.
    pub handle_output-Waits :
        {I : Type 0} (now : Moment) (c : Context V) (ctx : ContextId) (output : O)
        (starts : List Moment) (a : Actor (Timestamper O) V D)
        → IsStore a.context_store
        → a.state.latest_block_beat ≡ none
        → starts_of values key a.context_store
            (a.state.queued_outputs ++ record { ctx_id = ctx; output = output } ∷ [])
          ≡ ok starts
        → (a' : Actor (Timestamper O) V D) × (handle_output values key {I = I} now c ctx output a
            ≡ (ok [], a'))
          × Waits a
              (waiting now
                (a.state.queued_outputs ++ record { ctx_id = ctx; output = output } ∷ [])
                starts)
              a'
    unfolding handle_output output_with
    handle_output-Waits {I} now c ctx output starts a sound unseen valid =
        let new : QueuedOutput O = record { ctx_id = ctx; output = output } in
        let queued : Actor (Timestamper O) V D = record a {
          state = record a.state { queued_outputs = a.state.queued_outputs ++ new ∷ [] };
        } in
        let (a', done, waits) =
          log_run now a.state.queued_outputs new starts queued sound refl valid in
        (
          a',
          ap (λ beat. output_with values key {I = I} beat now c ctx output a) unseen
              ∙ >>=_run (log_if_first_queued_output_too_old values key now) (λ done. pure []) queued
                  done,
          waits,
        )
