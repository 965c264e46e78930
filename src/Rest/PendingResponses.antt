-- ===== src/Rest/PendingResponses.antt =====
-- `InMemoryPendingHttpResponseStore` of src/nexus/_internal/actors/rest_entry_point_runtime.py, and the
-- futures that it shares with the waiting requests. Its lock makes each method one step.
pub mod Laws
pub mod Answered
use bittensor_nexus_library.Prelude.{
  ℕ, ◌≡◌, ◌≢◌, refl, sym, ap, ◌∙◌, Bool, true, false, not, Option, none, some, List, [], ◌∷◌, ◌==◌,
  nat_eq, arith, Bool-cases, Option-cases, inl, inr, beq_refl, if◌then◌else◌,
}
use bittensor_nexus_library.Prelude.Dict
use bittensor_nexus_library.Prelude.Dict.{Dict, get-put, get-remove}
use bittensor_nexus_library.Exceptions.{Result, ok, raise, nexus, internal_framework}
use bittensor_nexus_library.Exceptions.Exec.{Exec, pure, throw, modify, gets, ◌>>=◌, ◌>>◌}
use bittensor_nexus_library.ContextStore.{ContextId}

-- A `Future` object, by a number of its own.
abbrev pub FutureId : Type 0
FutureId = ℕ

pub data Status (R : Type 0) : Type 0 where
  pending cancelled : Status R
  finished : R → Status R

pub record PendingResponses (R : Type 0) : Type 0 where
  pub futures_by_ctx_id : Dict ContextId FutureId
  pub futures : Dict FutureId (Status R)

pub data Step (R : Type 0) : Type 0 where
  arrives : ContextId → FutureId → Step R
  responds : ContextId → R → Step R
  gives_up : ContextId → Step R
  stops : Step R

-- `future.done()`, which a cancelled future is too
abbrev pub is_done : {R : Type 0} → Option (Status R) → Bool
is_done (some pending) = false
is_done (some cancelled) = true
is_done (some (finished r)) = true
is_done none = false

module _ {R : Type 0} where
  unfoldable pub empty : PendingResponses R
  empty = record { futures_by_ctx_id = []; futures = [] }

  -- The body of `create` under the test; `future` is the new object.
  unfoldable pub create_if :
      Option FutureId → ContextId → FutureId → Exec (PendingResponses R) FutureId
  create_if (some present) ctx future = throw (nexus internal_framework)
  create_if none ctx future = do
    modify (λ s. record {
      futures_by_ctx_id = Dict.put ctx future s.futures_by_ctx_id;
      futures = Dict.put future pending s.futures;
    })
    pure future

  unfoldable pub create : ContextId → FutureId → Exec (PendingResponses R) FutureId
  unfolding create_if
  create ctx future = do
    present ← gets (λ s. Dict.get ctx s.futures_by_ctx_id)
    create_if present ctx future

  unfoldable pub pop : ContextId → Exec (PendingResponses R) (Option FutureId)
  pop ctx = do
    future ← gets (λ s. Dict.get ctx s.futures_by_ctx_id)
    modify (λ s. record s { futures_by_ctx_id = Dict.remove ctx s.futures_by_ctx_id })
    pure future

  -- `future.set_result`, `future.cancel`, on a future that is not done
  abbrev pub set_status : FutureId → Status R → Exec (PendingResponses R) (Unit {0})
  set_status future status = modify (λ s. record s { futures = Dict.put future status s.futures })

  unfoldable pub resolve_future : Option FutureId → R → Exec (PendingResponses R) Bool
  resolve_future none response = pure false
  resolve_future (some future) response = do
    status ← gets (λ s. Dict.get future s.futures)
    if is_done status then pure false else (do set_status future (finished response); pure true)

  unfoldable pub resolve : ContextId → R → Exec (PendingResponses R) Bool
  unfolding pop resolve_future
  resolve ctx response = do future ← pop ctx; resolve_future future response

  -- `if not future.done(): future.cancel()`
  unfoldable pub cancel_future : Option FutureId → Exec (PendingResponses R) (Unit {0})
  cancel_future none = pure tt
  cancel_future (some future) = do
    status ← gets (λ s. Dict.get future s.futures)
    if is_done status then pure tt else set_status future cancelled

  unfoldable pub cancel_futures : List FutureId → Exec (PendingResponses R) (Unit {0})
  unfolding cancel_future
  cancel_futures [] = pure tt
  cancel_futures (future ∷ futures) = do cancel_future (some future); cancel_futures futures

  unfoldable pub cancel_all : Exec (PendingResponses R) (Unit {0})
  unfolding cancel_futures
  cancel_all = do
    pending_futures ← gets (λ s. Dict.values s.futures_by_ctx_id)
    modify (λ s. record s { futures_by_ctx_id = [] })
    cancel_futures pending_futures

  -- What a request does that timed out or was cancelled.
  unfoldable pub give_up : ContextId → Exec (PendingResponses R) (Unit {0})
  unfolding pop cancel_future
  give_up ctx = do future ← pop ctx; cancel_future future

  -- What the threads do with the store: requests arrive and give up, the actor responds and stops.
  unfoldable pub run : List (Step R) → PendingResponses R → PendingResponses R
  unfolding create resolve give_up cancel_all
  run [] s = s
  run (arrives ctx future ∷ steps) s = run steps (create ctx future s).1
  run (responds ctx response ∷ steps) s = run steps (resolve ctx response s).1
  run (gives_up ctx ∷ steps) s = run steps (give_up ctx s).1
  run (stops ∷ steps) s = run steps (cancel_all s).1
