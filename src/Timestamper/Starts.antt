-- ===== src/Timestamper/Starts.antt =====
-- The start of processing that a context holds, and the errors when it holds none.
use bittensor_nexus_library.Prelude.{
  ◌≡◌, refl, ap, ◌∙◌, String, Option, none, some, List, [], ◌∷◌, nat_eq, string_eq, Option-cases,
  inl, inr,
}
use bittensor_nexus_library.Prelude.Dict
use bittensor_nexus_library.Exceptions.{Result, ok, raise, invalid_context_id}
use bittensor_nexus_library.Exceptions.Exec.{continue, lift, gets, ◌>>=◌, >>=_run}
use bittensor_nexus_library.ContextStore.{ContextId, DeepDiff, Context, ContextStore}
use bittensor_nexus_library.ContextStore.Durability.{IsStore}
use bittensor_nexus_library.ContextStore.History.Laws.{get_context_run, get_context_unknown}
use bittensor_nexus_library.Chain.BlockBeat.{BlockBeat}
use bittensor_nexus_library.Runtime.{Actor}
use bittensor_nexus_library.Timestamper.{
  Moment, Values, Timestamped, QueuedOutput, Timestamper, valid_start, started_at, stamp,
  timestamp_output,
}

abbrev pub cons_start : Result Moment → Result (List Moment) → Result (List Moment)
cons_start (raise e) starts = raise e
cons_start (ok started) (raise e) = raise e
cons_start (ok started) (ok starts) = ok (started ∷ starts)

abbrev pub stamped : {O : Type 0} → Moment → O → BlockBeat → Result Moment → Result (Timestamped O)
stamped now output beat (raise e) = raise e
stamped now output beat (ok started) = ok (record {
  executor_output = output;
  processing_started = started;
  processing_finished = now;
  block_at_finish = beat;
})

module _ {V : Type 0} (values : Values V) (key : String) where
  -- The start of a context, as the store has it.
  abbrev pub start_of : Option (Context V) → Result Moment
  start_of none = raise invalid_context_id
  start_of (some c) = valid_start values key (Dict.get key c.user_data)

  -- The starts of queued outputs, or the error of the first that has none.
  abbrev pub starts_of :
      {O D : Type 0} → ContextStore V D → List (QueuedOutput O) → Result (List Moment)
  starts_of s [] = ok []
  starts_of s (queued ∷ queue) =
      cons_start (start_of (Dict.get queued.ctx_id s.contexts)) (starts_of s queue)

  module _ {O D : Type 0} ⦃dd : DeepDiff V D⦄ where
    pub started_at_run :
        (ctx : ContextId) (a : Actor (Timestamper O) V D)
        → IsStore a.context_store
        → started_at values key ctx a ≡ (start_of (Dict.get ctx a.context_store.contexts), a)
    unfolding started_at
    started_at_run ctx a sound = elim (Option-cases (Dict.get ctx a.context_store.contexts)) [
      | inl missing ↦ rw missing (
          ap
            (λ o.
              continue o.0 (λ c. lift (valid_start values key (Dict.get key c.user_data)))
                (record a { context_store = o.1 }))
            (get_context_unknown ctx a.context_store sound missing))
      | inr (c, found) ↦ rw found (
          ap
            (λ o.
              continue o.0 (λ c. lift (valid_start values key (Dict.get key c.user_data)))
                (record a { context_store = o.1 }))
            (get_context_run ctx c a.context_store sound found))
    ]

    finish_stamp :
        (now : Moment) (output : O) (beat : BlockBeat) (a : Actor (Timestamper O) V D)
        → a.state.latest_block_beat ≡ some beat
        → (first : Result Moment)
        → continue first
            (λ started.
              (gets (λ (a : Actor (Timestamper O) V D). a.state.latest_block_beat) >>= λ beat.
              stamp values key now output started beat))
            a
          ≡ (stamped now output beat first, a)
    finish_stamp now output beat a seen (raise e) = refl
    finish_stamp now output beat a seen (ok started) =
        ap (λ b. stamp values key now output started b a) seen

    pub timestamp_output_run :
        (now : Moment) (ctx : ContextId) (output : O) (beat : BlockBeat)
        (a : Actor (Timestamper O) V D)
        → IsStore a.context_store
        → a.state.latest_block_beat ≡ some beat
        → timestamp_output values key now ctx output a
          ≡ (stamped now output beat (start_of (Dict.get ctx a.context_store.contexts)), a)
    unfolding timestamp_output
    timestamp_output_run now ctx output beat a sound seen =
        >>=_run (started_at values key ctx)
          (λ started.
            (gets (λ (a : Actor (Timestamper O) V D). a.state.latest_block_beat) >>= λ beat.
            stamp values key now output started beat))
          a (started_at_run ctx a sound)
        ∙ finish_stamp now output beat a seen (start_of (Dict.get ctx a.context_store.contexts))
