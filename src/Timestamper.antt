-- ===== src/Timestamper.antt =====
-- `TimestamperActor` of src/nexus/_internal/actors/timestamper.py. A moment in UTC is a number of
-- microseconds, and the current time that a handler reads is an argument. Logging is left out, but
-- not the state that decides whether to log.
pub mod Starts
pub mod Flush
pub mod Waiting
pub mod Queries
pub mod Runs
pub mod Shrinks
pub mod Accounts
mod Tests
use bittensor_nexus_library.Prelude.{
  ℕ, ◌+◌, ◌-◌, ◌*◌, suc, String, Bool, true, false, not, Option, none, some, List, [], ◌∷◌, ◌++◌,
  ltb, ◌==◌, ◌&&◌, nat_eq, string_eq, if◌then◌else◌,
}
use bittensor_nexus_library.Prelude.Dict
use bittensor_nexus_library.Exceptions.{Result, ok, raise, nexus, internal_state_corruption}
use bittensor_nexus_library.Exceptions.Exec.{
  Exec, pure, throw, lift, modify, gets, continue, ◌>>=◌, ◌>>◌,
}
use bittensor_nexus_library.ContextStore.{ContextId, DeepDiff, Context, ContextStore}
use bittensor_nexus_library.ContextStore.Store.{get_context, set_user_data}
use bittensor_nexus_library.Chain.BlockBeat.{BlockBeat}
use bittensor_nexus_library.Runtime.{Actor, on_store, on_state}

abbrev pub Moment : Type 0
Moment = ℕ

-- A Python datetime with a timezone, as the moment that it names, or one without.
pub data Datetime : Type 0 where
  aware : Moment → Datetime
  naive : Datetime

-- How Python's values hold datetimes: `load` is `isinstance(value, datetime)`.
pub record Values (V : Type 0) : Type 0 where
  pub store : Moment → V
  pub load : V → Option Datetime

-- timedelta(minutes=1) and timedelta(minutes=5), in microseconds
abbrev pub queue_age_warning_threshold : ℕ
queue_age_warning_threshold = 60_000_000

abbrev pub queue_age_error_threshold : ℕ
queue_age_error_threshold = 300_000_000

pub record Timestamped (O : Type 0) : Type 0 where
  pub executor_output : O
  pub processing_started : Moment
  pub processing_finished : Moment
  pub block_at_finish : BlockBeat

pub record QueuedOutput (O : Type 0) : Type 0 where
  pub ctx_id : ContextId
  pub output : O

-- The fields of a `TimestamperActor`.
pub record Timestamper (O : Type 0) : Type 0 where
  pub latest_block_beat : Option BlockBeat
  pub queued_outputs : List (QueuedOutput O)
  pub warning_logged_head : Option (ContextId × Moment)

pub data Sent (I O : Type 0) : Type 0 where
  forwarded_input : ContextId → I → Sent I O
  timestamped_output : ContextId → Timestamped O → Sent I O

unfoldable pub start : {O : Type 0} → Timestamper O
start = record { latest_block_beat = none; queued_outputs = []; warning_logged_head = none }

-- `age > threshold`; a start after `now` has a negative age.
abbrev pub is_older : ℕ → Moment → Moment → Bool
is_older threshold now started = ltb threshold (now - started)

abbrev pub is_logged : Option (ContextId × Moment) → ContextId × Moment → Bool
is_logged none key = false
is_logged (some (ctx, started)) (ctx', started') = (ctx == ctx') && (started == started')

abbrev pub or_corrupt : Option Datetime → Result Moment
or_corrupt none = raise (nexus internal_state_corruption)
or_corrupt (some naive) = raise (nexus internal_state_corruption)
or_corrupt (some (aware started)) = ok started

module _ {V : Type 0} (values : Values V) (key : String) where
  abbrev pub valid_start : Option V → Result Moment
  valid_start none = raise (nexus internal_state_corruption)
  valid_start (some v) = or_corrupt (values.load v)

  module _ {O D : Type 0} where
    -- `_started_at`
    unfoldable pub started_at : ContextId → Exec (Actor (Timestamper O) V D) Moment
    unfolding get_context
    started_at ctx = do
      c ← on_store (get_context ctx)
      lift (valid_start (Dict.get key c.user_data))

    abbrev pub stamp :
        Moment → O → Moment → Option BlockBeat → Exec (Actor (Timestamper O) V D) (Timestamped O)
    stamp now output started none = throw (nexus internal_state_corruption)
    stamp now output started (some beat) = pure (record {
      executor_output = output;
      processing_started = started;
      processing_finished = now;
      block_at_finish = beat;
    })

    -- `_timestamp_output`
    unfoldable pub timestamp_output :
        Moment → ContextId → O → Exec (Actor (Timestamper O) V D) (Timestamped O)
    unfolding started_at
    timestamp_output now ctx output = do
      started ← started_at ctx
      beat ← gets (λ a. a.state.latest_block_beat)
      stamp now output started beat

    -- The loop of `_drop_entries_older_than_error_threshold`, and the number of dropped entries.
    unfoldable pub retained_entries :
        Moment
        → List (QueuedOutput O)
        → Exec (Actor (Timestamper O) V D) (List (QueuedOutput O) × ℕ)
    unfolding started_at
    retained_entries now [] = pure ([], 0)
    retained_entries now (queued ∷ queue) = do
      started ← started_at queued.ctx_id
      rest ← retained_entries now queue
      if is_older queue_age_error_threshold now started
          then pure (rest.0, suc rest.1)
          else pure (queued ∷ rest.0, rest.1)

    unfoldable pub drop_entries_older_than_error_threshold :
        Moment → Exec (Actor (Timestamper O) V D) ℕ
    unfolding retained_entries
    drop_entries_older_than_error_threshold now = do
      queue ← gets (λ a. a.state.queued_outputs)
      retained ← retained_entries now queue
      on_state (modify (λ t. record t { queued_outputs = retained.0 }))
      pure retained.1

    abbrev pub set_warning_logged_head :
        Option (ContextId × Moment) → Exec (Actor (Timestamper O) V D) (Unit {0})
    set_warning_logged_head head = on_state (modify (λ t. record t { warning_logged_head = head }))

    abbrev pub enqueue : QueuedOutput O → Exec (Actor (Timestamper O) V D) (Unit {0})
    enqueue queued =
        on_state (modify (λ t. record t { queued_outputs = t.queued_outputs ++ queued ∷ [] }))

    -- The branches on the age of the first queued output.
    unfoldable pub check_age :
        Moment
        → QueuedOutput O
        → Moment
        → Option (ContextId × Moment)
        → Exec (Actor (Timestamper O) V D) (Unit {0})
    unfolding drop_entries_older_than_error_threshold
    check_age now first started logged =
        let head : ContextId × Moment = (first.ctx_id, started) in
        let is_old = is_older queue_age_warning_threshold now started in
        if is_older queue_age_error_threshold now started
        then (do
          dropped ← drop_entries_older_than_error_threshold now
          set_warning_logged_head none)
        else if is_old && not (is_logged logged head)
        then set_warning_logged_head (some head)
        else pure tt

    unfoldable pub check_head :
        Moment → List (QueuedOutput O) → Exec (Actor (Timestamper O) V D) (Unit {0})
    unfolding started_at check_age
    check_head now [] = set_warning_logged_head none
    check_head now (first ∷ queue) = do
      started ← started_at first.ctx_id
      logged ← gets (λ a. a.state.warning_logged_head)
      check_age now first started logged

    -- `_log_if_first_queued_output_too_old`
    unfoldable pub log_if_first_queued_output_too_old :
        Moment → Exec (Actor (Timestamper O) V D) (Unit {0})
    unfolding check_head
    log_if_first_queued_output_too_old now = do
      queue ← gets (λ a. a.state.queued_outputs)
      check_head now queue

  module _ {I O D : Type 0} where
    unfoldable pub output_with :
        Option BlockBeat
        → Moment
        → Context V
        → ContextId
        → O
        → Exec (Actor (Timestamper O) V D) (List (Sent I O))
    unfolding timestamp_output log_if_first_queued_output_too_old
    output_with none now context ctx output = do
      enqueue (record { ctx_id = ctx; output = output })
      log_if_first_queued_output_too_old now
      pure []
    output_with (some beat) now context ctx output = do
      stamped ← timestamp_output now context.id output
      pure (timestamped_output ctx stamped ∷ [])

    -- `ctx` is the id of the event; `now` is read once on either branch.
    unfoldable pub handle_output :
        Moment → Context V → ContextId → O → Exec (Actor (Timestamper O) V D) (List (Sent I O))
    unfolding output_with
    handle_output now context ctx output = do
      beat ← gets (λ a. a.state.latest_block_beat)
      output_with beat now context ctx output

    -- The loop of `handle_block_beat`; `clock i` is the time read for the i-th output.
    unfoldable pub flush :
        (ℕ → Moment) → List (QueuedOutput O) → Exec (Actor (Timestamper O) V D) (List (Sent I O))
    unfolding get_context timestamp_output
    flush clock [] = pure []
    flush clock (queued ∷ queue) = do
      context ← on_store (get_context queued.ctx_id)
      stamped ← timestamp_output (clock 0) context.id queued.output
      rest ← flush (λ i. clock (suc i)) queue
      pure (timestamped_output queued.ctx_id stamped ∷ rest)

    unfoldable pub flush_queue :
        (ℕ → Moment) → List (QueuedOutput O) → Exec (Actor (Timestamper O) V D) (List (Sent I O))
    unfolding flush
    flush_queue clock [] = do set_warning_logged_head none; pure []
    flush_queue clock (first ∷ queue) = do
      events ← flush clock (first ∷ queue)
      on_state (modify (λ t. record t { queued_outputs = []; warning_logged_head = none }))
      pure events

    unfoldable pub handle_block_beat :
        (ℕ → Moment) → BlockBeat → Exec (Actor (Timestamper O) V D) (List (Sent I O))
    unfolding flush_queue
    handle_block_beat clock beat = do
      on_state (modify (λ t. record t { latest_block_beat = some beat }))
      queue ← gets (λ a. a.state.queued_outputs)
      flush_queue clock queue

    unfoldable pub handle_input :
        ⦃dd : DeepDiff V D⦄
        → Moment
        → Context V
        → ContextId
        → I
        → Exec (Actor (Timestamper O) V D) (List (Sent I O))
    unfolding set_user_data
    handle_input now context ctx payload = do
      on_store (set_user_data context key (values.store now))
      pure (forwarded_input ctx payload ∷ [])
