-- ===== src/Timestamper/Flush.antt =====
-- What a block beat does with the queued outputs.
use bittensor_nexus_library.Prelude.{
  ℕ, suc, ◌≡◌, refl, ap, ◌∙◌, String, none, some, List, [], ◌∷◌, nat_eq, string_eq, Option-cases,
  inl, inr,
}
use bittensor_nexus_library.Prelude.Dict
use bittensor_nexus_library.Exceptions.{Result, ok, raise}
use bittensor_nexus_library.Exceptions.Exec.{continue, modify, pure, ◌>>=◌, ◌>>◌, >>=_run}
use bittensor_nexus_library.ContextStore.{DeepDiff, Context}
use bittensor_nexus_library.ContextStore.Durability.{IsStore}
use bittensor_nexus_library.ContextStore.Durability.Writes.{has_log}
use bittensor_nexus_library.ContextStore.History.Laws.{get_context_run, get_context_unknown}
use bittensor_nexus_library.Chain.BlockBeat.{BlockBeat}
use bittensor_nexus_library.Runtime.{Actor, on_state}
use bittensor_nexus_library.Timestamper.{
  Moment, Values, Timestamped, QueuedOutput, Timestamper, Sent, timestamped_output,
  timestamp_output, flush, flush_queue, handle_block_beat,
}
use bittensor_nexus_library.Timestamper.Starts.{
  stamped, cons_start, start_of, starts_of, timestamp_output_run,
}

-- The events of queued outputs with these starts.
abbrev pub stamps :
    {I O : Type 0}
    → BlockBeat
    → (ℕ → Moment)
    → List (QueuedOutput O)
    → List Moment
    → List (Sent I O)
stamps beat clock [] starts = []
stamps beat clock (queued ∷ queue) [] = []
stamps beat clock (queued ∷ queue) (started ∷ starts) =
    timestamped_output queued.ctx_id (record {
      executor_output = queued.output;
      processing_started = started;
      processing_finished = clock 0;
      block_at_finish = beat;
    })
    ∷ stamps beat (λ i. clock (suc i)) queue starts

-- What a flush comes to, from the starts of the queue.
abbrev pub flushed :
    {I O : Type 0}
    → BlockBeat
    → (ℕ → Moment)
    → List (QueuedOutput O)
    → Result (List Moment)
    → Result (List (Sent I O))
flushed beat clock queue (ok starts) = ok (stamps beat clock queue starts)
flushed beat clock queue (raise e) = raise e

-- What a block beat leaves behind.
abbrev pub after_flush :
    {V O D : Type 0}
    → BlockBeat
    → Result (List Moment)
    → Actor (Timestamper O) V D
    → Actor (Timestamper O) V D
after_flush beat (ok starts) a = record a {
  state = record { latest_block_beat = some beat; queued_outputs = []; warning_logged_head = none };
}
after_flush beat (raise e) a = record a { state = record a.state { latest_block_beat = some beat } }

module _ {V : Type 0} (values : Values V) (key : String) where
  module _ {O D : Type 0} ⦃dd : DeepDiff V D⦄ where
    flushed_cons :
        {I : Type 0} (beat : BlockBeat) (clock : ℕ → Moment) (queued : QueuedOutput O)
        (queue : List (QueuedOutput O)) (started : Moment) (a : Actor (Timestamper O) V D)
        (starts : Result (List Moment))
        → continue
            (flushed {I = I} beat (λ i. clock (suc i)) queue starts)
            (λ rest. pure (
              timestamped_output queued.ctx_id (record {
                executor_output = queued.output;
                processing_started = started;
                processing_finished = clock 0;
                block_at_finish = beat;
              })
              ∷ rest))
            a
          ≡ (flushed beat clock (queued ∷ queue) (cons_start (ok started) starts), a)
    flushed_cons beat clock queued queue started a (ok starts) = refl
    flushed_cons beat clock queued queue started a (raise e) = refl

    -- The rest of a flush, after the start of the first output.
    flush_rest :
        {I : Type 0} (beat : BlockBeat) (clock : ℕ → Moment) (queued : QueuedOutput O)
        (queue : List (QueuedOutput O)) (a : Actor (Timestamper O) V D)
        → flush values key {I = I} (λ i. clock (suc i)) queue a ≡ (
          flushed beat (λ i. clock (suc i)) queue (starts_of values key a.context_store queue),
          a,
        )
        → (first : Result Moment)
        → continue
            (stamped (clock 0) queued.output beat first)
            (λ stamped.
              (flush values key {I = I} (λ i. clock (suc i)) queue >>= λ rest.
              pure (timestamped_output queued.ctx_id stamped ∷ rest)))
            a
          ≡ (
            flushed beat clock
                (queued ∷ queue)
                (cons_start first (starts_of values key a.context_store queue)),
            a,
          )
    flush_rest {I} beat clock queued queue a rest (raise e) = refl
    flush_rest {I} beat clock queued queue a rest (ok started) =
        >>=_run (flush values key {I = I} (λ i. clock (suc i)) queue) _ a rest
        ∙ flushed_cons beat clock queued queue started a
            (starts_of values key a.context_store queue)

    flush_run :
        {I : Type 0} (beat : BlockBeat) (clock : ℕ → Moment) (queue : List (QueuedOutput O))
        (a : Actor (Timestamper O) V D)
        → IsStore a.context_store
        → a.state.latest_block_beat ≡ some beat
        → flush values key {I = I} clock queue a
          ≡ (flushed beat clock queue (starts_of values key a.context_store queue), a)
    unfolding flush
    flush_run beat clock [] a sound seen = refl
    flush_run {I} beat clock (queued ∷ queue) a sound seen =
        let rest = λ (stamped : Timestamped O).
          (flush values key {I = I} {D = D} (λ i. clock (suc i)) queue >>= λ rest.
          pure (timestamped_output queued.ctx_id stamped ∷ rest)) in
        let first =
          λ (c : Context V). (timestamp_output values key (clock 0) c.id queued.output >>= rest) in
        elim (Option-cases (Dict.get queued.ctx_id a.context_store.contexts)) [
          | inl missing ↦
              ap (λ o. continue o.0 first (record a { context_store = o.1 }))
                (get_context_unknown queued.ctx_id a.context_store sound missing)
              ∙ rw missing refl
          | inr (c, found) ↦
              let (log, logged, names, rooted) =
                has_log queued.ctx_id c a.context_store sound found in
              ap (λ o. continue o.0 first (record a { context_store = o.1 }))
                (get_context_run queued.ctx_id c a.context_store sound found)
              ∙ ap (λ i. (timestamp_output values key (clock 0) i queued.output >>= rest) a) names
              ∙ >>=_run (timestamp_output values key (clock 0) queued.ctx_id queued.output) rest a (
                  timestamp_output_run values key (clock 0) queued.ctx_id queued.output beat a sound
                    seen)
              ∙ flush_rest beat clock queued queue a
                  (flush_run beat (λ i. clock (suc i)) queue a sound seen)
                  (start_of values key (Dict.get queued.ctx_id a.context_store.contexts))
        ]

    abbrev seeing : BlockBeat → Actor (Timestamper O) V D → Actor (Timestamper O) V D
    seeing beat a = record a { state = record a.state { latest_block_beat = some beat } }

    clear_flushed :
        {I : Type 0} (beat : BlockBeat) (clock : ℕ → Moment) (queue : List (QueuedOutput O))
        (a : Actor (Timestamper O) V D) (starts : Result (List Moment))
        → continue
            (flushed {I = I} beat clock queue starts)
            (λ events.
              on_state (modify (λ t. record t { queued_outputs = []; warning_logged_head = none }))
              >> pure events)
            (seeing beat a)
          ≡ (flushed beat clock queue starts, after_flush beat starts a)
    clear_flushed beat clock queue a (ok starts) = refl
    clear_flushed beat clock queue a (raise e) = refl

    flush_queue_run :
        {I : Type 0} (beat : BlockBeat) (clock : ℕ → Moment) (queue : List (QueuedOutput O))
        (a : Actor (Timestamper O) V D)
        → IsStore a.context_store
        → a.state.queued_outputs ≡ queue
        → flush_queue values key {I = I} clock queue (seeing beat a) ≡ (
          flushed beat clock queue (starts_of values key a.context_store queue),
          after_flush beat (starts_of values key a.context_store queue) a,
        )
    unfolding flush_queue
    flush_queue_run beat clock [] a sound held =
        ap
          (λ queue. (
            ok [],
            record a {
              state = record {
                latest_block_beat = some beat;
                queued_outputs = queue;
                warning_logged_head = none;
              };
            },
          ))
          held
    flush_queue_run {I} beat clock (first ∷ queue) a sound held =
        >>=_run (flush values key {I = I} clock (first ∷ queue)) _ (seeing beat a)
          (flush_run beat clock (first ∷ queue) (seeing beat a) sound refl)
        ∙ clear_flushed beat clock (first ∷ queue) a
            (starts_of values key a.context_store (first ∷ queue))

    -- On a sound store, a block beat sends an event for each queued output, in the order in which they
    -- were queued, with the start of its context, the beat and the time, and empties the queue, when
    -- every queued context has a start; when one has none it raises the error of the first of these,
    -- sends nothing and keeps the whole queue. The store is left as it was.
    pub handle_block_beat-flushes :
        {I : Type 0} (beat : BlockBeat) (clock : ℕ → Moment) (a : Actor (Timestamper O) V D)
        → IsStore a.context_store
        → handle_block_beat values key {I = I} clock beat a ≡ (
          flushed beat clock a.state.queued_outputs
              (starts_of values key a.context_store a.state.queued_outputs),
          after_flush beat (starts_of values key a.context_store a.state.queued_outputs) a,
        )
    unfolding handle_block_beat
    handle_block_beat-flushes beat clock a sound =
        flush_queue_run beat clock a.state.queued_outputs a sound refl
