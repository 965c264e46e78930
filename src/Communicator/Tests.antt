-- ===== src/Communicator/Tests.antt =====
-- The theorems on the communicator, at a run of its threads.
use bittensor_nexus_library.Prelude.{
  ℕ, ◌+◌, ◌≡◌, refl, true, not, nat_eq, keep_if, none, some, ◌==◌, if◌then◌else◌, List, [], ◌∷◌,
}
use bittensor_nexus_library.Prelude.Int.{pos}
use bittensor_nexus_library.Prelude.Dict
use bittensor_nexus_library.Exceptions.{Result, ok, Validation, valid, other_error, runtime_error}
use bittensor_nexus_library.Communicator.{PendingRequest, ResponseEnvelope, Shared, AxonInfo}
use bittensor_nexus_library.Communicator.PendingRequests.{is_expired, pop_expired}
use bittensor_nexus_library.Communicator.Pending.{pending_of, IsPending, pop_expired-keep_if}
use bittensor_nexus_library.Communicator.Accounts.{emitted_of}
use bittensor_nexus_library.Communicator.Threads.{enqueued, timed_out, status, process_callback}
use bittensor_nexus_library.Communicator.Laws.{
  Event, input, handed_over, lost, sent, callback, sweep, empty, run, inputs_of, accounted-run,
  process_callback-process_callback,
}

abbrev axon : AxonInfo
axon = record { is_http = true; port = pos 8080 }

abbrev valid_url : AxonInfo → Result (Unit {0})
valid_url a = ok tt

-- The output 9 makes the validator of the model raise.
abbrev validate : ℕ → Validation ℕ
validate n = if n == 9 then other_error runtime_error else valid n

abbrev request : ℕ → PendingRequest
request n = record { request_id = n; ctx_id = 5; expires_at = n + 10 }

abbrev response : ℕ → ResponseEnvelope ℕ
response n = record { request_id = n; output = some 1; error = none }

abbrev events : List (Event ℕ)
events =
    input true axon (request 1)
    ∷ input true axon (request 2)
    ∷ handed_over 1 enqueued
    ∷ handed_over 2 timed_out
    ∷ input true axon (request 3)
    ∷ callback (some (response 1))
    ∷ sent 1 (status 500)
    ∷ sweep 13
    ∷ callback (some (record (response 3) { output = some 9 }))
    ∷ []

accounted-run_example :
    emitted_of 5 (run valid_url validate events empty).emitted
      + pending_of 5 (run valid_url validate events empty).pending
      + lost valid_url validate 5 events empty
    ≡ inputs_of valid_url validate 5 events
accounted-run_example = accounted-run valid_url validate 5 events

abbrev waiting : Shared ℕ
waiting = record { pending = (1, request 1) ∷ (2, request 2) ∷ []; emitted = [] }

process_callback-process_callback_example :
    process_callback validate
      (some (response 1))
      (process_callback validate (some (response 1)) waiting).1
    ≡ (404, (process_callback validate (some (response 1)) waiting).1)
process_callback-process_callback_example =
    process_callback-process_callback validate (response 1) (response 1) waiting refl

waiting-IsPending : IsPending waiting.pending
unfolding Dict.get
waiting-IsPending = ((refl, (refl, tt)), (refl, (refl, tt)))

pop_expired-keep_if_example : pop_expired 11 waiting.pending ≡ (
  keep_if (is_expired 11) (Dict.values waiting.pending),
  keep_if (λ e. not (is_expired 11 e.1)) waiting.pending,
)
pop_expired-keep_if_example = pop_expired-keep_if 11 waiting.pending waiting-IsPending
