-- ===== src/Communicator/PendingRequests.antt =====
-- `InMemoryPendingAsyncHttpRequestStore` of
-- src/nexus/_internal/actors/executor_communicator/pending_requests.py.
use bittensor_nexus_library.Prelude.{
  ℕ, List, [], ◌∷◌, Option, Bool, leb, keep_if, nat_eq, if◌then◌else◌,
}
use bittensor_nexus_library.Prelude.Dict
use bittensor_nexus_library.Prelude.Dict.{Dict}
use bittensor_nexus_library.Exceptions.{nexus, internal_framework}
use bittensor_nexus_library.Exceptions.Exec.{Exec, throw, modify, gets, ◌>>=◌}
use bittensor_nexus_library.ContextStore.Persistence.{absent}
use bittensor_nexus_library.Communicator.{RequestId, PendingRequest}

abbrev pub PendingRequests : Type 0
PendingRequests = Dict RequestId PendingRequest

unfoldable pub put : PendingRequest → Exec PendingRequests (Unit {0})
put request = do
  present ← gets (Dict.get request.request_id)
  if absent present
      then modify (Dict.put request.request_id request)
      else throw (nexus internal_framework)

unfoldable pub pop : RequestId → PendingRequests → Option PendingRequest × PendingRequests
pop request_id d = (Dict.get request_id d, Dict.remove request_id d)

abbrev pub is_expired : ℕ → PendingRequest → Bool
is_expired now request = leb request.expires_at now

unfoldable pub remove_all : List PendingRequest → PendingRequests → PendingRequests
remove_all [] d = d
remove_all (request ∷ requests) d = remove_all requests (Dict.remove request.request_id d)

unfoldable pub pop_expired : ℕ → PendingRequests → List PendingRequest × PendingRequests
unfolding remove_all keep_if
pop_expired now d =
    let expired = keep_if (is_expired now) (Dict.values d) in (expired, remove_all expired d)
