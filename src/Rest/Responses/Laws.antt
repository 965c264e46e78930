-- ===== src/Rest/Responses/Laws.antt =====
-- What becomes of the answer of the graph.
use bittensor_nexus_library.Prelude.{
  ◌≡◌, ap, ◌∙◌, sym, Bool, false, none, some, List, [], ◌∷◌, All, nat_eq,
}
use bittensor_nexus_library.Prelude.Dict
use bittensor_nexus_library.Exceptions.{ok}
use bittensor_nexus_library.Exceptions.Exec.{Exec, continue, pure}
use bittensor_nexus_library.ContextStore.{ContextId}
use bittensor_nexus_library.Rest.ErrorBody.{Exceptions}
use bittensor_nexus_library.Rest.PendingResponses.{
  FutureId, Step, PendingResponses, arrives, finished, resolve, run,
}
use bittensor_nexus_library.Rest.PendingResponses.Laws.{AreNew, resolve-resolve}
use bittensor_nexus_library.Rest.PendingResponses.Answered.{IsKnown, IsOther, create-resolve}
use bittensor_nexus_library.Rest.Responses.{
  Payloads, PendingHttpResponse, build_http_response, handle_response,
}

module _ {X J E : Type 0} (view : Exceptions E) (payloads : Payloads X J E) where
  -- A request of a context that does not wait yet, with a new future, is answered: after any steps of
  -- other requests, which have new futures too, the graph's answer in its context becomes the result of
  -- its future, as the response that is built from it. A second answer is dropped and changes nothing.
  -- Neither sends an event.
  pub handle_response-handle_response :
      {M : Type 0} (ctx : ContextId) (f : FutureId) (steps : List (Step (PendingHttpResponse J)))
      (payload second : X) (s : PendingResponses (PendingHttpResponse J))
      → IsKnown s
      → Dict.get ctx s.futures_by_ctx_id ≡ none
      → AreNew (arrives ctx f ∷ steps) s
      → All (IsOther ctx) steps
      → (s' : PendingResponses (PendingHttpResponse J)) × (handle_response view payloads {M = M} ctx
            payload
            (run (arrives ctx f ∷ steps) s)
          ≡ (ok [], s'))
        × (Dict.get f s'.futures ≡ some (finished (build_http_response view payloads payload)))
        × (handle_response view payloads {M = M} ctx second s' ≡ (ok [], s'))
  unfolding handle_response
  handle_response-handle_response {M} ctx f steps payload second s known idle new others =
      let response = build_http_response view payloads payload in
      let late = build_http_response view payloads second in
      let before = run (arrives ctx f ∷ steps) s in
      let (s', done, answered) = create-resolve ctx f steps response s known idle new others in
      let again : resolve ctx late s' ≡ (ok false, s') =
        ap (λ o. resolve ctx late o.1) (sym done)
        ∙ resolve-resolve ctx response late before
        ∙ ap (λ o. (ok false, o.1)) done in
      let empty_handed : Bool → Exec (PendingResponses (PendingHttpResponse J)) (List M) =
        λ resolved. pure [] in
      (
        s',
        ap (λ o. continue o.0 empty_handed o.1) done,
        answered,
        ap (λ o. continue o.0 empty_handed o.1) again,
      )
