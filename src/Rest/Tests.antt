-- ===== src/Rest/Tests.antt =====
-- Exceptions in a cycle, two waiting requests, and a request over HTTP.
use bittensor_nexus_library.Prelude.{
  ℕ, zero, suc, ◌+◌, ◌≤◌, ◌≡◌, refl, String, none, some, List, [], ◌∷◌, length, nat_eq, string_eq,
  arith, ◌↔◌, contains,
}
use bittensor_nexus_library.Prelude.Dict
use bittensor_nexus_library.Prelude.Int.{pos}
use bittensor_nexus_library.Exceptions.{Result, ok, runtime_error, valid, validation_error}
use bittensor_nexus_library.ContextStore.Store
use bittensor_nexus_library.ContextStore.Store.{new_context}
use bittensor_nexus_library.ContextStore.Persistence
use bittensor_nexus_library.ContextStore.Durability.{IsStore}
use bittensor_nexus_library.ContextStore.Examples.{numbers, numbers-IsExact, begun, begun-Reachable}
use bittensor_nexus_library.ContextStore.History.{run}
use bittensor_nexus_library.ContextStore.History.Laws.{Reachable-IsStore}
use bittensor_nexus_library.Runtime.{Actor}
use bittensor_nexus_library.Rest.ErrorBody.{
  Exceptions, exception_to_error_body, max_exception_depth, exception_to_error_body-bounded,
}
use bittensor_nexus_library.Rest.PendingResponses
use bittensor_nexus_library.Rest.PendingResponses.{
  PendingResponses, Step, arrives, responds, gives_up, finished, resolve,
}
use bittensor_nexus_library.Rest.PendingResponses.Laws.{run_finished}
use bittensor_nexus_library.Rest.PendingResponses.Answered.{IsKnown}
use bittensor_nexus_library.Rest.Responses.{
  jsonable, Payloads, json, PendingHttpResponse, build_http_response, handle_response,
}
use bittensor_nexus_library.Rest.Responses.Laws.{handle_response-handle_response}
use bittensor_nexus_library.Rest.Requests.{
  integer, Request, Config, accepted, check_request, Server, submit,
}
use bittensor_nexus_library.Rest.Requests.Laws.{
  IsAcceptable, check_request-accepted_iff, Submitted, submit-Submitted,
}

-- Two exceptions that are each other's context, and one that is caused by a last one.
abbrev exceptions : Exceptions ℕ
exceptions = record {
  type_name = λ e. "Error";
  text = λ e. "";
  cause = λ e. elim e [
    | zero ↦ none
    | suc zero ↦ none
    | suc (suc zero) ↦ some 3
    | suc (suc (suc n)) ↦ none
  ];
  context = λ e. elim e [ zero ↦ some 1 | suc zero ↦ some 0 | suc (suc n) ↦ none ];
}

exception_to_error_body-bounded_example :
    length (exception_to_error_body exceptions max_exception_depth 0).causes
    ≤ max_exception_depth + 1
exception_to_error_body-bounded_example =
    exception_to_error_body-bounded exceptions max_exception_depth 0

abbrev no_requests : PendingResponses String
no_requests = record { futures_by_ctx_id = []; futures = [] }

abbrev others : List (Step String)
others = arrives 8 2 ∷ responds 8 "other" ∷ arrives 9 3 ∷ gives_up 9 ∷ []

-- A payload 0 is an exception; other numbers are JSON values of their own.
abbrev payloads : Payloads ℕ ℕ ℕ
payloads = record {
  as_exception = λ x. elim x [ zero ↦ some 2 | suc n ↦ none ];
  to_jsonable_python = jsonable;
}

abbrev ok_response : PendingHttpResponse ℕ
ok_response = record { status_code = 200; body = json 3 }

abbrev none_waiting : PendingResponses (PendingHttpResponse ℕ)
none_waiting = record { futures_by_ctx_id = []; futures = [] }

abbrev other_requests : List (Step (PendingHttpResponse ℕ))
other_requests = arrives 8 2 ∷ responds 8 ok_response ∷ arrives 9 3 ∷ gives_up 9 ∷ []

none_waiting-IsKnown : IsKnown none_waiting
unfolding Dict.get
none_waiting-IsKnown ctx f h = absurd (ground (arith, h))

handle_response-handle_response_example :
    (s' : PendingResponses (PendingHttpResponse ℕ)) × (handle_response exceptions payloads {M = ℕ} 7
        0
        (PendingResponses.run (arrives 7 1 ∷ other_requests) none_waiting)
      ≡ (ok [], s'))
    × (Dict.get 1 s'.futures ≡ some (finished (build_http_response exceptions payloads 0)))
    × (handle_response exceptions payloads {M = ℕ} 7 5 s' ≡ (ok [], s'))
unfolding Dict.get PendingResponses.create Dict.put PendingResponses.resolve Dict.remove
    PendingResponses.give_up
handle_response-handle_response_example =
    handle_response-handle_response exceptions payloads {M = ℕ} 7 1 other_requests 0 5 none_waiting
      none_waiting-IsKnown refl (refl, (refl, (refl, tt))) (refl, (refl, (refl, (refl, tt))))

abbrev answered : PendingResponses String
answered = record { futures_by_ctx_id = []; futures = (1, finished "answer") ∷ [] }

run_finished_example :
    Dict.get 1 (PendingResponses.run others answered).futures ≡ some (finished "answer")
unfolding Dict.get PendingResponses.create Dict.put PendingResponses.resolve Dict.remove
    PendingResponses.give_up
run_finished_example = run_finished others answered 1 "answer" (refl, (refl, tt)) refl

-- Bodies are numbers, which are their own models and lengths; 0 is no model.
abbrev config : Config ℕ ℕ
config = record {
  path = "/run";
  size = λ b. b;
  model_validate_json = λ b. elim b [ zero ↦ validation_error | suc n ↦ valid (suc n) ];
}

abbrev request : Request ℕ
request = record { path = "/run"; method = "POST"; content_length = integer (pos 5); body = ok 5 }

check_request-accepted_iff_example :
    (check_request config request ≡ accepted 5) ↔ IsAcceptable config request 5
check_request-accepted_iff_example = check_request-accepted_iff config request 5

request_accepted : check_request config request ≡ accepted 5
unfolding check_request
request_accepted = refl

abbrev actor : Actor (Server String ℕ) ℕ ℕ
actor = record { state = record { responses = no_requests; pipe = [] }; context_store = begun }

fresh : Dict.get 1 begun.persistence.logs ≡ none
unfolding run Store.create_context Dict.get Dict.put Store.empty Persistence.create_context contains
fresh = refl

submit-Submitted_example :
    (r : Result ℕ) × (a' : Actor (Server String ℕ) ℕ ℕ) × (submit ⦃dd = numbers⦄ 1 5
        (some runtime_error)
        50
        actor
      ≡ (r, a'))
    × Submitted ⦃dd = numbers⦄ 1 5 50 (some runtime_error) actor r a'
    × (Dict.get 1 a'.context_store.contexts ≡ some (new_context 0 1 []))
    × IsStore ⦃dd = numbers⦄ a'.context_store
unfolding Dict.get
submit-Submitted_example =
    submit-Submitted ⦃dd = numbers⦄ 1 5 (some runtime_error) 50 actor
      (Reachable-IsStore ⦃dd = numbers⦄ numbers-IsExact begun begun-Reachable) fresh refl
