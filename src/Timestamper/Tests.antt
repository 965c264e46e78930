-- ===== src/Timestamper/Tests.antt =====
-- A short life of a timestamper, with numbers as values.
use bittensor_nexus_library.Prelude.{
  ℕ, zero, suc, ◌+◌, ◌≤◌, ◌≡◌, refl, Bool, ◌&&◌, ◌==◌, none, some, List, [], ◌∷◌, string_eq, nat_eq,
  contains,
}
use bittensor_nexus_library.Prelude.Dict
use bittensor_nexus_library.Exceptions.{ok}
use bittensor_nexus_library.ContextStore.{ContextStore}
use bittensor_nexus_library.ContextStore.Store
use bittensor_nexus_library.ContextStore.Persistence
use bittensor_nexus_library.ContextStore.Examples.{
  numbers, numbers-IsExact, begun, begun-Reachable, context,
}
use bittensor_nexus_library.ContextStore.History.{user_data, called, Reachable}
use bittensor_nexus_library.ContextStore.History
use bittensor_nexus_library.ContextStore.History.Laws.{Reachable-IsStore}
use bittensor_nexus_library.Chain.BlockBeat.{BlockBeat}
use bittensor_nexus_library.Runtime.{Actor}
use bittensor_nexus_library.Timestamper.{
  Values, aware, QueuedOutput, Timestamper, start, handle_output, handle_block_beat,
}
use bittensor_nexus_library.Timestamper.Starts.{starts_of}
use bittensor_nexus_library.Timestamper.Flush.{flushed, after_flush, handle_block_beat-flushes}
use bittensor_nexus_library.Timestamper.Waiting.{Waits, waiting, handle_output-Waits}
use bittensor_nexus_library.Timestamper.Runs.{
  Step, input, output, block_beat, run, sent_for, queued_for, received_for,
}
use bittensor_nexus_library.Timestamper.Accounts.{run_at_most_once}

-- The number 0 is no datetime, and the others are those of a moment later.
abbrev values : Values ℕ
values = record { store = λ t. suc t; load = λ v. elim v [ zero ↦ none | suc t ↦ some (aware t) ] }

abbrev started : ContextStore ℕ ℕ
started = (History.run ⦃dd = numbers⦄ (user_data 7 "started" 101) begun).1

started-Reachable : Reachable ⦃dd = numbers⦄ started
started-Reachable = called (user_data 7 "started" 101) begun tt begun-Reachable

abbrev idle : Actor (Timestamper ℕ) ℕ ℕ
idle = record { state = start; context_store = started }

abbrev first : QueuedOutput ℕ
first = record { ctx_id = 7; output = 40 }

abbrev beat : BlockBeat
beat = record { block_number = 9; block_timestamp = 108; block_hash = "0x" }

abbrev busy : Actor (Timestamper ℕ) ℕ ℕ
busy = record idle {
  state = record {
    latest_block_beat = none;
    queued_outputs = first ∷ [];
    warning_logged_head = none;
  };
}

handle_block_beat-flushes_example :
    handle_block_beat values "started" {I = ℕ} (λ i. 200) beat busy ≡ (
      flushed beat (λ i. 200) (first ∷ []) (starts_of values "started" started (first ∷ [])),
      after_flush beat (starts_of values "started" started (first ∷ [])) busy,
    )
handle_block_beat-flushes_example =
    handle_block_beat-flushes values "started" ⦃dd = numbers⦄ beat (λ i. 200) busy
      (Reachable-IsStore ⦃dd = numbers⦄ numbers-IsExact started started-Reachable)

has_start : starts_of values "started" started (first ∷ []) ≡ ok (100 ∷ [])
unfolding History.run Store.create_context Store.set_user_data Store.get_context Dict.get Dict.put
    Store.empty Persistence.create_context contains Persistence.append_entry
has_start = refl

handle_output-Waits_example :
    (a' : Actor (Timestamper ℕ) ℕ ℕ) × (handle_output values "started" {I = ℕ} 200 context 7 40 idle
      ≡ (ok [], a'))
    × Waits idle (waiting 200 (first ∷ []) (100 ∷ [])) a'
unfolding start
handle_output-Waits_example =
    handle_output-Waits values "started" ⦃dd = numbers⦄ 200 context 7 40 (100 ∷ []) idle
      (Reachable-IsStore ⦃dd = numbers⦄ numbers-IsExact started started-Reachable) refl has_start

abbrev steps : List (Step ℕ ℕ)
steps = input 100 7 30 ∷ output 150 7 40 ∷ block_beat (λ i. 200) 7 beat ∷ output 210 7 41 ∷ []

-- The output 40 in the context 7.
abbrev is_first : ℕ → ℕ → Bool
is_first ctx payload = ctx == 7 && payload == 40

run_at_most_once_example :
    sent_for is_first (run values "started" ⦃dd = numbers⦄ steps idle).0
      + queued_for is_first (run values "started" ⦃dd = numbers⦄ steps idle).1.state.queued_outputs
    ≤ queued_for is_first idle.state.queued_outputs + received_for is_first steps
run_at_most_once_example = run_at_most_once values "started" ℕ ⦃dd = numbers⦄ is_first steps idle
