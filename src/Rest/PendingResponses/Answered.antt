-- ===== src/Rest/PendingResponses/Answered.antt =====
-- A waiting request gets the response of its context, whatever other requests do.
use bittensor_nexus_library.Prelude.{
  ◌≡◌, ◌≢◌, refl, sym, ap, ◌∙◌, true, false, Option, none, some, List, [], ◌∷◌, ◌==◌, nat_eq, arith,
  All, Bool-cases, inl, inr, beq_refl,
}
use bittensor_nexus_library.Prelude.Dict
use bittensor_nexus_library.Prelude.Dict.{Dict, get-put, get-remove}
use bittensor_nexus_library.Exceptions.{ok}
use bittensor_nexus_library.ContextStore.{ContextId}
use bittensor_nexus_library.Rest.PendingResponses.{
  FutureId, Status, pending, cancelled, finished, PendingResponses, Step, arrives, responds,
  gives_up, stops, is_done, create_if, create, pop, resolve_future, resolve, cancel_future, give_up,
  run,
}
use bittensor_nexus_library.Rest.PendingResponses.Laws.{AreNew, resolve_future_ids}

-- Every context that waits has a future that exists.
abbrev pub IsKnown : {R : Type 0} → PendingResponses R → Type 0
IsKnown s =
    (ctx : ContextId) (f : FutureId)
    → Dict.get ctx s.futures_by_ctx_id ≡ some f
    → Dict.get f s.futures ≢ none

-- A step of another request: it is not about this context, and it is not the stop.
abbrev pub IsOther : {R : Type 0} → ContextId → Step R → Type 0
IsOther ctx (arrives c f) = (c == ctx) ≡ false
IsOther ctx (responds c r) = (c == ctx) ≡ false
IsOther ctx (gives_up c) = (c == ctx) ≡ false
IsOther ctx stops = true ≡ false

some_inj : {A : Type 0} {a b : A} → some a ≡ some b → a ≡ b
some_inj h = cc

distinct :
    {R : Type 0} (g f : FutureId) (futures : Dict FutureId (Status R))
    → Dict.get g futures ≡ none
    → Dict.get f futures ≡ some pending
    → (g == f) ≡ false
distinct g f futures new open_yet = elim (Bool-cases (g == f)) [
  | inl same ↦
      absurd
        (ground (arith, new, open_yet, ap (λ i. Dict.get i futures) ((nat_eq.beq_iff g f).0 same)))
  | inr other ↦ other
]

module _ {R : Type 0} where
  -- The context waits on a pending future that no other context waits on.
  abbrev Waits : ContextId → FutureId → Dict ContextId FutureId → Dict FutureId (Status R) → Type 0
  Waits ctx f ids futures =
      (Dict.get ctx ids ≡ some f)
      × (Dict.get f futures ≡ some pending)
      × ((c : ContextId) → Dict.get c ids ≡ some f → c ≡ ctx)

  resolve_future_other :
      (o : Option FutureId) (f : FutureId) (r : R) (s : PendingResponses R)
      → o ≢ some f
      → Dict.get f (resolve_future o r s).1.futures ≡ Dict.get f s.futures
  unfolding resolve_future
  resolve_future_other none f r s apart = refl
  resolve_future_other (some g) f r s apart = elim (Bool-cases (is_done (Dict.get g s.futures))) [
    | inl done ↦ rw done refl
    | inr open_yet ↦ rw open_yet (elim (Bool-cases (g == f)) [
      | inl same ↦ absurd (apart (ap some ((nat_eq.beq_iff g f).0 same)))
      | inr other ↦ get-put g f (finished r) s.futures ∙ rw other refl
    ])
  ]

  cancel_future_other :
      (o : Option FutureId) (f : FutureId) (s : PendingResponses R)
      → o ≢ some f
      → Dict.get f (cancel_future o s).1.futures ≡ Dict.get f s.futures
  unfolding cancel_future
  cancel_future_other none f s apart = refl
  cancel_future_other (some g) f s apart = elim (Bool-cases (is_done (Dict.get g s.futures))) [
    | inl done ↦ rw done refl
    | inr open_yet ↦ rw open_yet (elim (Bool-cases (g == f)) [
      | inl same ↦ absurd (apart (ap some ((nat_eq.beq_iff g f).0 same)))
      | inr other ↦ get-put g f cancelled s.futures ∙ rw other refl
    ])
  ]

  cancel_future_ids :
      (o : Option FutureId) (s : PendingResponses R)
      → (cancel_future o s).1.futures_by_ctx_id ≡ s.futures_by_ctx_id
  unfolding cancel_future
  cancel_future_ids none s = refl
  cancel_future_ids (some f) s = elim (Bool-cases (is_done (Dict.get f s.futures))) [
    | inl done ↦ rw done refl
    | inr open_yet ↦ rw open_yet refl
  ]

  -- Removing another context, and leaving the status of the future.
  removed-Waits :
      (ctx c : ContextId) (f : FutureId) (ids ids' : Dict ContextId FutureId)
      (futures futures' : Dict FutureId (Status R))
      → (c == ctx) ≡ false
      → ids' ≡ Dict.remove c ids
      → Dict.get f futures' ≡ Dict.get f futures
      → Waits ctx f ids futures
      → Waits ctx f ids' futures'
  removed-Waits ctx c f ids ids' futures futures' other removed same (waits, open_yet, alone) = (
    ap (Dict.get ctx) removed ∙ get-remove c ctx ids ∙ rw other waits,
    same ∙ open_yet,
    λ d h. elim (Bool-cases (c == d)) [
      | inl here ↦ absurd (ground (arith, h, ap (Dict.get d) removed, get-remove c d ids, here))
      | inr there ↦ alone d (sym (ap (Dict.get d) removed ∙ get-remove c d ids ∙ rw there refl) ∙ h)
    ],
  )

  not_its_future :
      (ctx c : ContextId) (f : FutureId) (ids : Dict ContextId FutureId)
      (futures : Dict FutureId (Status R))
      → (c == ctx) ≡ false
      → Waits ctx f ids futures
      → Dict.get c ids ≢ some f
  not_its_future ctx c f ids futures other (waits, open_yet, alone) h =
      absurd (ground (arith, other, (nat_eq.beq_iff c ctx).1 (alone c h)))

  create_if-Waits :
      (ctx c : ContextId) (f g : FutureId) (o : Option FutureId) (s : PendingResponses R)
      → (c == ctx) ≡ false
      → Dict.get g s.futures ≡ none
      → Waits ctx f s.futures_by_ctx_id s.futures
      → Waits ctx f (create_if o c g s).1.futures_by_ctx_id (create_if o c g s).1.futures
  unfolding create_if
  create_if-Waits ctx c f g (some h) s other new waits = waits
  create_if-Waits ctx c f g none s other new (waits, open_yet, alone) =
      let apart : (g == f) ≡ false = distinct g f s.futures new open_yet in
      (
        get-put c ctx g s.futures_by_ctx_id ∙ rw other waits,
        get-put g f pending s.futures ∙ rw apart open_yet,
        λ d h. elim (Bool-cases (c == d)) [
          | inl here ↦
              let held : Dict.get d (Dict.put c g s.futures_by_ctx_id) ≡ some g =
                get-put c d g s.futures_by_ctx_id ∙ rw here refl in
              absurd (ground (arith, apart, (nat_eq.beq_iff g f).1 (some_inj (sym held ∙ h))))
          | inr there ↦ alone d (sym (get-put c d g s.futures_by_ctx_id ∙ rw there refl) ∙ h)
        ],
      )

  run-Waits :
      (steps : List (Step R)) (ctx : ContextId) (f : FutureId) (s : PendingResponses R)
      → AreNew steps s
      → All (IsOther ctx) steps
      → Waits ctx f s.futures_by_ctx_id s.futures
      → Waits ctx f (run steps s).futures_by_ctx_id (run steps s).futures
  unfolding run create resolve give_up pop
  run-Waits [] ctx f s new others waits = waits
  run-Waits (arrives c g ∷ steps) ctx f s (unused, new) (other, others) waits =
      run-Waits steps ctx f (create c g s).1 new others
        (create_if-Waits ctx c f g (Dict.get c s.futures_by_ctx_id) s other unused waits)
  run-Waits (responds c r ∷ steps) ctx f s new (other, others) waits =
      let o = Dict.get c s.futures_by_ctx_id in
      run-Waits steps ctx f (resolve c r s).1 new others (
        removed-Waits ctx c f s.futures_by_ctx_id _ s.futures _ other
          (resolve_future_ids o r (pop c s).1)
          (resolve_future_other o f r (pop c s).1
            (not_its_future ctx c f s.futures_by_ctx_id s.futures other waits))
          waits)
  run-Waits (gives_up c ∷ steps) ctx f s new (other, others) waits =
      let o = Dict.get c s.futures_by_ctx_id in
      run-Waits steps ctx f (give_up c s).1 new others (
        removed-Waits ctx c f s.futures_by_ctx_id _ s.futures _ other
          (cancel_future_ids o (pop c s).1)
          (cancel_future_other o f (pop c s).1
            (not_its_future ctx c f s.futures_by_ctx_id s.futures other waits))
          waits)
  run-Waits (stops ∷ steps) ctx f s new (other, others) waits = absurd (ground (arith, other))

  created-Waits :
      (ctx : ContextId) (f : FutureId) (o : Option FutureId) (s : PendingResponses R)
      → IsKnown s
      → o ≡ none
      → Dict.get f s.futures ≡ none
      → Waits ctx f (create_if o ctx f s).1.futures_by_ctx_id (create_if o ctx f s).1.futures
  unfolding create_if
  created-Waits ctx f (some g) s known idle unused = absurd (ground (arith, idle))
  created-Waits ctx f none s known idle unused = (
    get-put ctx ctx f s.futures_by_ctx_id ∙ rw (beq_refl ctx) refl,
    get-put f f pending s.futures ∙ rw (beq_refl f) refl,
    λ d h. elim (Bool-cases (ctx == d)) [
      | inl here ↦ sym ((nat_eq.beq_iff ctx d).0 here)
      | inr there ↦
          absurd (known d f (sym (get-put ctx d f s.futures_by_ctx_id ∙ rw there refl) ∙ h) unused)
    ],
  )

  resolve_run :
      (ctx : ContextId) (f : FutureId) (r : R) (s : PendingResponses R)
      → Dict.get ctx s.futures_by_ctx_id ≡ some f
      → Dict.get f s.futures ≡ some pending
      → resolve ctx r s ≡ (
        ok true,
        record {
          futures_by_ctx_id = Dict.remove ctx s.futures_by_ctx_id;
          futures = Dict.put f (finished r) s.futures;
        },
      )
  unfolding resolve pop resolve_future
  resolve_run ctx f r s waits open_yet = rw (waits, open_yet) refl

  -- A request of a context that does not wait yet, with a new future, is answered: after any steps of
  -- other requests, which have new futures too, the response of its context is accepted and becomes
  -- the result of its future.
  pub create-resolve :
      (ctx : ContextId) (f : FutureId) (steps : List (Step R)) (r : R) (s : PendingResponses R)
      → IsKnown s
      → Dict.get ctx s.futures_by_ctx_id ≡ none
      → AreNew (arrives ctx f ∷ steps) s
      → All (IsOther ctx) steps
      → (s' : PendingResponses R) × (resolve ctx r (run (arrives ctx f ∷ steps) s) ≡ (ok true, s'))
        × (Dict.get f s'.futures ≡ some (finished r))
  unfolding run create
  create-resolve ctx f steps r s known idle (unused, new) others =
      let (waits, open_yet, alone) =
        run-Waits steps ctx f (create ctx f s).1 new others
          (created-Waits ctx f (Dict.get ctx s.futures_by_ctx_id) s known idle unused) in
      let after = run steps (create ctx f s).1 in
      (
        _,
        resolve_run ctx f r after waits open_yet,
        get-put f f (finished r) after.futures ∙ rw (beq_refl f) refl,
      )
