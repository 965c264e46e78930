-- ===== src/Rest/Requests/Laws.antt =====
-- Which requests are accepted, and what an accepted one leaves behind.
use bittensor_nexus_library.Prelude.{
  ◌+◌, ◌≡◌, refl, ap, ◌∙◌, true, Option, none, some, [], ◌∷◌, ◌++◌, ◌==◌, string_eq, nat_eq, arith,
  Bool-cases, inl, inr, ◌↔◌, beq_refl,
}
use bittensor_nexus_library.Prelude.Dict
use bittensor_nexus_library.Prelude.Dict.{get-put, get-remove}
use bittensor_nexus_library.Prelude.Int.{ℤ, pos, beq_ℤ, int_laws, pos_part, neg_part}
use bittensor_nexus_library.Exceptions.{
  Exn, Result, ok, raise, Validation, valid, validation_error, other_error,
}
use bittensor_nexus_library.Exceptions.Exec.{Exec, continue, pure, ◌>>=◌, ◌>>◌}
use bittensor_nexus_library.ContextStore.{ContextId, DeepDiff}
use bittensor_nexus_library.ContextStore.Store.{create_context, new_context}
use bittensor_nexus_library.ContextStore.Durability.{IsStore}
use bittensor_nexus_library.ContextStore.Durability.Enrolment.{enrolled}
use bittensor_nexus_library.Runtime.{Actor}
use bittensor_nexus_library.Runtime.Laws.{create_root_run}
use bittensor_nexus_library.Rest.PendingResponses.{
  FutureId, PendingResponses, pending, create, create_if, pop,
}
use bittensor_nexus_library.Rest.Requests.{
  ContentLength, absent, not_integer, integer, Request, Config, accepted, check_model, check_body,
  check_length, check_request, Server, on_responses, put_event, submit,
}

accepted_inj : {M : Type 0} {a b : M} → accepted a ≡ accepted b → a ≡ b
accepted_inj h = cc

check_model_inv :
    {M : Type 0} (v : Validation M) (model : M) → check_model v ≡ accepted model → v ≡ valid model
unfolding check_model
check_model_inv (valid m) model h = ap valid (accepted_inj h)
check_model_inv validation_error model h = absurd (ground (arith, h))
check_model_inv (other_error e) model h = absurd (ground (arith, h))

module _ {B M : Type 0} where
  -- What a request must be to start a task.
  pub record IsAcceptable (config : Config B M) (request : Request B) (model : M) : Type 0 where
    pub routed : request.path ≡ config.path
    pub posted : request.method ≡ "POST"
    pub body : B
    pub was_read : request.body ≡ ok body
    pub measured : request.content_length ≡ integer (pos (config.size body))
    pub validated : config.model_validate_json body ≡ valid model

  check_body_inv :
      (config : Config B M) (n : ℤ) (r : Result B) (model : M)
      → check_body config n r ≡ accepted model
      → (body : B) × (r ≡ ok body)
        × (n ≡ pos (config.size body))
        × (config.model_validate_json body ≡ valid model)
  unfolding check_body
  check_body_inv config n (raise e) model h = absurd (ground (arith, h))
  check_body_inv config n (ok body) model h = elim (Bool-cases (beq_ℤ n (pos (config.size body)))) [
    | inl same ↦
        let parts : pos_part n + neg_part (pos (config.size body))
            ≡ pos_part (pos (config.size body)) + neg_part n =
          ground (arith, same) in
        (
          body,
          refl,
          omega (int_laws, parts),
          check_model_inv (config.model_validate_json body) model (rw same at h),
        )
    | inr other ↦ absurd (ground (arith, rw other at h))
  ]

  check_length_inv :
      (config : Config B M) (length : ContentLength) (r : Result B) (model : M)
      → check_length config length r ≡ accepted model
      → (n : ℤ) × (length ≡ integer n) × (check_body config n r ≡ accepted model)
  unfolding check_length
  check_length_inv config absent r model h = absurd (ground (arith, h))
  check_length_inv config not_integer r model h = absurd (ground (arith, h))
  check_length_inv config (integer n) r model h = (n, refl, h)

  check_request_inv :
      (config : Config B M) (request : Request B) (model : M)
      → check_request config request ≡ accepted model
      → IsAcceptable config request model
  unfolding check_request
  check_request_inv config request model h = elim (Bool-cases (request.path == config.path)) [
    | inr elsewhere ↦ absurd (ground (arith, rw elsewhere at h))
    | inl here ↦ elim (Bool-cases (request.method == "POST")) [
      | inr other ↦ absurd (ground (arith, rw (here, other) at h))
      | inl posted ↦
          let (n, length, rest) =
            check_length_inv config request.content_length request.body model
              (rw (here, posted) at h) in
          let (body, was_read, measured, validated) =
            check_body_inv config n request.body model rest in
          record {
            routed = (string_eq.beq_iff request.path config.path).0 here;
            posted = (string_eq.beq_iff request.method "POST").0 posted;
            body = body;
            was_read = was_read;
            measured = length ∙ ap integer measured;
            validated = validated;
          }
    ]
  ]

  check_request_accepts :
      (config : Config B M) (request : Request B) (model : M)
      → IsAcceptable config request model
      → check_request config request ≡ accepted model
  unfolding check_request check_length check_body check_model
  check_request_accepts config request model h =
      let here : (request.path == config.path) ≡ true =
        (string_eq.beq_iff request.path config.path).1 h.routed in
      let posted : (request.method == "POST") ≡ true =
        (string_eq.beq_iff request.method "POST").1 h.posted in
      let same : beq_ℤ (pos (config.size h.body)) (pos (config.size h.body)) ≡ true =
        ground arith in
      rw (here, posted, h.measured, h.was_read, same, h.validated) refl

  -- A request is accepted with a model exactly when its path is the entry point's, its method is POST,
  -- its body can be read and has the length that the Content-Length header gives, and validation of
  -- this body gives the model. Every other request is rejected.
  pub check_request-accepted_iff :
      (config : Config B M) (request : Request B) (model : M)
      → (check_request config request ≡ accepted model) ↔ IsAcceptable config request model
  check_request-accepted_iff config request model =
      (check_request_inv config request model, check_request_accepts config request model)

create_run :
    {R : Type 0} (ctx : ContextId) (f : FutureId) (s : PendingResponses R)
    → Dict.get ctx s.futures_by_ctx_id ≡ none
    → create ctx f s ≡ (
      ok f,
      record {
        futures_by_ctx_id = Dict.put ctx f s.futures_by_ctx_id;
        futures = Dict.put f pending s.futures;
      },
    )
unfolding create create_if
create_run ctx f s idle = rw idle refl

module _ {R M V D : Type 0} ⦃dd : DeepDiff V D⦄ where
  -- What an accepted request leaves behind: its event on the pipe and a pending future, or neither
  -- when the pipe refuses the event.
  abbrev pub Submitted :
      ContextId
      → FutureId
      → M
      → Option Exn
      → Actor (Server R M) V D
      → Result FutureId
      → Actor (Server R M) V D
      → Type 0
  Submitted child f model none a r a' =
      (r ≡ ok f)
      × (a'.state.pipe ≡ a.state.pipe ++ record { ctx_id = child; payload = model } ∷ [])
      × (Dict.get child a'.state.responses.futures_by_ctx_id ≡ some f)
      × (Dict.get f a'.state.responses.futures ≡ some pending)
  Submitted child f model (some e) a r a' =
      (r ≡ raise e)
      × (a'.state.pipe ≡ a.state.pipe)
      × (Dict.get child a'.state.responses.futures_by_ctx_id ≡ none)

  -- The new context, and the new future.
  abbrev waiting : ContextId → FutureId → Actor (Server R M) V D → Actor (Server R M) V D
  waiting child f a = record {
    context_store = enrolled child [] (new_context dd.null child []) a.context_store;
    state = record a.state {
      responses = record {
        futures_by_ctx_id = Dict.put child f a.state.responses.futures_by_ctx_id;
        futures = Dict.put f pending a.state.responses.futures;
      };
    };
  }

  submit_put :
      (child : ContextId) (f : FutureId) (put_error : Option Exn) (model : M)
      (a : Actor (Server R M) V D)
      → create_context child [] a.context_store ≡ (
        ok (new_context dd.null child []),
        enrolled child [] (new_context dd.null child []) a.context_store,
      )
      → Dict.get child a.state.responses.futures_by_ctx_id ≡ none
      → submit child f put_error model a
        ≡ (put_event put_error child model >> pure f) (waiting child f a)
  unfolding submit
  submit_put child f put_error model a run idle =
      let root = new_context dd.null child [] in
      let a₁ : Actor (Server R M) V D = record a {
        context_store = enrolled child [] root a.context_store;
      } in
      let put : ContextId → FutureId → Exec (Actor (Server R M) V D) FutureId =
        λ ctx future. (put_event put_error ctx model >> pure future) in
      ap
        (λ o.
          continue o.0 (λ context. (on_responses (create context.id f) >>= put context.id))
            (record a { context_store = o.1 }))
        run
      ∙ ap
          (λ o. continue o.0 (put child) (record a₁ { state = record a.state { responses = o.1 } }))
          (create_run child f a.state.responses idle)

  submit_end :
      (child : ContextId) (f : FutureId) (put_error : Option Exn) (model : M)
      (a : Actor (Server R M) V D)
      → Dict.get child (waiting child f a).context_store.contexts
        ≡ some (new_context dd.null child [])
      → IsStore (waiting child f a).context_store
      → submit child f put_error model a
        ≡ (put_event put_error child model >> pure f) (waiting child f a)
      → (r : Result FutureId) × (a' : Actor (Server R M) V D) × (submit child f put_error model a
          ≡ (r, a'))
        × Submitted child f model put_error a r a'
        × (Dict.get child a'.context_store.contexts ≡ some (new_context dd.null child []))
        × IsStore a'.context_store
  unfolding put_event pop
  submit_end child f none model a made sound reached = (
    _,
    _,
    reached,
    (
      refl,
      refl,
      get-put child child f a.state.responses.futures_by_ctx_id ∙ rw (beq_refl child) refl,
      get-put f f pending a.state.responses.futures ∙ rw (beq_refl f) refl,
    ),
    made,
    sound,
  )
  submit_end child f (some e) model a made sound reached = (
    _,
    _,
    reached,
    (
      refl,
      refl,
      get-remove child child (Dict.put child f a.state.responses.futures_by_ctx_id)
          ∙ rw (beq_refl child) refl,
    ),
    made,
    sound,
  )

  -- On a sound store, an accepted request with an id that no log has and that does not wait yet gets a
  -- context of its own without parents; the store stays sound. Its event is put on the pipe once and
  -- the request waits on a pending future; when the pipe raises, the request fails with that error, and
  -- nothing stays behind on the pipe or among the waiting requests.
  pub submit-Submitted :
      (child : ContextId) (f : FutureId) (put_error : Option Exn) (model : M)
      (a : Actor (Server R M) V D)
      → IsStore a.context_store
      → Dict.get child a.context_store.persistence.logs ≡ none
      → Dict.get child a.state.responses.futures_by_ctx_id ≡ none
      → (r : Result FutureId) × (a' : Actor (Server R M) V D) × (submit child f put_error model a
          ≡ (r, a'))
        × Submitted child f model put_error a r a'
        × (Dict.get child a'.context_store.contexts ≡ some (new_context dd.null child []))
        × IsStore a'.context_store
  submit-Submitted child f put_error model a sound fresh idle =
      let (run, sound') = create_root_run child a.context_store sound fresh in
      let root = new_context dd.null child [] in
      let a' = waiting child f a in
      let made : Dict.get child a'.context_store.contexts ≡ some root =
        get-put child child root a.context_store.contexts ∙ rw (beq_refl child) refl in
      let reached = submit_put child f put_error model a run idle in
      submit_end child f put_error model a made sound' reached
