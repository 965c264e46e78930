-- ===== src/Timestamper/Accounts.antt =====
-- No handler of a `TimestamperActor` makes an output out of nothing, whatever fails on the way.
use bittensor_nexus_library.Prelude.{
  ℕ, suc, ◌+◌, ◌≤◌, ◌≡◌, refl, ap, ◌∙◌, subst, sym, String, Bool, Option, none, some, List, [], ◌∷◌,
  ◌++◌, nat_eq, string_eq, arith, inl, inr, if◌then◌else◌,
}
use bittensor_nexus_library.Exceptions.{Result, ok, raise}
use bittensor_nexus_library.Exceptions.Exec.{Exec, continue, modify, pure, ◌>>=◌, ◌>>◌, >>=_run}
use bittensor_nexus_library.ContextStore.{ContextId, DeepDiff, Context, ContextStore}
use bittensor_nexus_library.ContextStore.Store.{get_context, set_user_data}
use bittensor_nexus_library.Chain.BlockBeat.{BlockBeat}
use bittensor_nexus_library.Runtime.{
  Actor, produced, call_handler, handle_event, loop, on_store, on_state,
}
use bittensor_nexus_library.Timestamper.{
  Moment, Values, Timestamped, started_at, stamp, QueuedOutput, Timestamper, Sent, forwarded_input,
  timestamped_output, timestamp_output, log_if_first_queued_output_too_old, output_with,
  handle_output, flush, flush_queue, handle_block_beat, handle_input,
}
use bittensor_nexus_library.Timestamper.Queries.{
  IsQuery, Result-cases, bind_inv, ok_inj, get_context-IsQuery, on_store-IsQuery, query_run,
  timestamp_output-IsQuery, flush-IsQuery,
}
use bittensor_nexus_library.Runtime.Laws.{outcome}
use bittensor_nexus_library.Timestamper.Runs.{
  Step, input, output, block_beat, received, run, sent_for, queued_for, received_for,
  sent_for-append, queued_for-append,
}
use bittensor_nexus_library.Timestamper.Shrinks.{bind-Shrinks, log-Shrinks}

-- How many outputs of the context an event brings.
abbrev brought : {I O : Type 0} → (ContextId → O → Bool) → Step I O → ℕ
brought test (input now event payload) = 0
brought test (output now event payload) = if test event payload then 1 else 0
brought test (block_beat clock event beat) = 0

received_brought :
    {I O : Type 0} (test : ContextId → O → Bool) (step : Step I O) (steps : List (Step I O))
    → received_for test (step ∷ steps) ≡ brought test step + received_for test steps
received_brought test (input now event payload) steps = omega arith
received_brought test (output now event payload) steps = omega arith
received_brought test (block_beat clock event beat) steps = omega arith

module _ {V : Type 0} (values : Values V) (key : String) where
  silent :
      {A S : Type 0} (I O : Type 0) (test : ContextId → O → Bool) (r : Result A) (s : S)
      → sent_for {I = I} {O = O} test (produced (continue r (λ x. pure []) s).0) ≡ 0
  silent I O test (ok x) s = refl
  silent I O test (raise e) s = refl

  stamp_output :
      {O D : Type 0} (now : Moment) (given : O) (started : Moment) (beat : Option BlockBeat)
      (stamped : Timestamped O) (a : Actor (Timestamper O) V D)
      → (stamp values key now given started beat a).0 ≡ ok stamped
      → stamped.executor_output ≡ given
  stamp_output now given started none stamped a h = cc
  stamp_output now given started (some beat) stamped a h =
      ap (λ t. t.executor_output) (sym (ok_inj h))

  module _ (I : Type 0) {O D : Type 0} where
    -- A stamped output is the output that was given.
    stamped_output :
        (now : Moment) (ctx : ContextId) (given : O) (stamped : Timestamped O)
        (a : Actor (Timestamper O) V D)
        → (timestamp_output values key now ctx given a).0 ≡ ok stamped
        → stamped.executor_output ≡ given
    unfolding timestamp_output
    stamped_output now ctx given stamped a h =
        let (started, at, next) = bind_inv (started_at values key ctx) _ a stamped h in
        stamp_output now given started (started_at values key ctx a).1.state.latest_block_beat
          stamped (started_at values key ctx a).1 next

    flush_count :
        (test : ContextId → O → Bool) (clock : ℕ → Moment) (queue : List (QueuedOutput O))
        (events : List (Sent I O)) (a : Actor (Timestamper O) V D)
        → (flush values key clock queue a).0 ≡ ok events
        → sent_for test events ≡ queued_for test queue
    unfolding flush
    flush_count test clock [] events a h = ap (sent_for test) (sym (ok_inj h))
    flush_count test clock (queued ∷ queue) events a h =
        let (c, at, next) = bind_inv (on_store (get_context queued.ctx_id)) _ a events h in
        let a₁ = (on_store (get_context queued.ctx_id) a).1 in
        let (stamped, made, next') =
          bind_inv (timestamp_output values key (clock 0) c.id queued.output) _ a₁ events next in
        let a₂ = (timestamp_output values key (clock 0) c.id queued.output a₁).1 in
        let (rest, done, last) =
          bind_inv (flush values key {I = I} (λ i. clock (suc i)) queue) _ a₂ events next' in
        ap (sent_for test) (sym (ok_inj last))
        ∙ ap (λ o. (if test queued.ctx_id o then 1 else 0) + sent_for test rest)
            (stamped_output (clock 0) c.id queued.output stamped a₁ made)
        ∙ ap (λ n. (if test queued.ctx_id queued.output then 1 else 0) + n)
            (flush_count test (λ i. clock (suc i)) queue rest a₂ done)

    -- What a handler may do: the outputs of a context that it sends and those that it leaves queued
    -- are at most as many as were queued, and `n`.
    abbrev Bounded :
        ℕ
        → (ContextId → O → Bool)
        → Actor (Timestamper O) V D
        → List (Sent I O) × Actor (Timestamper O) V D
        → Type 0
    Bounded n test a (events, a') =
        sent_for test events + queued_for test a'.state.queued_outputs
        ≤ queued_for test a.state.queued_outputs + n

    -- After a step that only reads, the bound is that of what follows.
    query-Bounded :
        {A : Type 0} (n : ℕ) (test : ContextId → O → Bool) (m : Exec (Actor (Timestamper O) V D) A)
        (f : A → Exec (Actor (Timestamper O) V D) (List (Sent I O))) (a : Actor (Timestamper O) V D)
        → IsQuery m
        → ((x : A) → (m a).0 ≡ ok x → Bounded n test a (outcome (f x a)))
        → Bounded n test a (outcome ((m >>= f) a))
    query-Bounded n test m f a query h = elim (Result-cases (m a).0) [
      | inl (e, failed) ↦
          let bound : Bounded n test a ([], a) = omega arith in
          subst
            (λ (o : Result (List (Sent I O)) × Actor (Timestamper O) V D).
              Bounded n test a (outcome o))
            (sym (>>=_run m f a (query_run m a query failed))) bound
      | inr (x, done) ↦
          subst
            (λ (o : Result (List (Sent I O)) × Actor (Timestamper O) V D).
              Bounded n test a (outcome o))
            (sym (>>=_run m f a (query_run m a query done))) (h x done)
    ]

    output_with-Bounded :
        (test : ContextId → O → Bool) (beat : Option BlockBeat) (now : Moment) (c : Context V)
        (event : ContextId) (payload : O) (a : Actor (Timestamper O) V D)
        → Bounded
            (if test event payload then 1 else 0)
            test
            a
            (outcome (output_with values key {I = I} beat now c event payload a))
    unfolding output_with
    output_with-Bounded test none now c event payload a =
        let new : QueuedOutput O = record { ctx_id = event; output = payload } in
        let a₁ : Actor (Timestamper O) V D = record a {
          state = record a.state { queued_outputs = a.state.queued_outputs ++ new ∷ [] };
        } in
        let none_sent : sent_for test (
              produced
                ((log_if_first_queued_output_too_old values key now >>= λ done.
                    pure {A = List (Sent I O)} [])
                  a₁).0)
            ≡ 0 =
          silent I O test (log_if_first_queued_output_too_old values key now a₁).0
            (log_if_first_queued_output_too_old values key now a₁).1 in
        let shrunk =
          bind-Shrinks values key test (log_if_first_queued_output_too_old values key now)
            (λ done. pure {A = List (Sent I O)} []) (log-Shrinks values key test now)
            (λ done a. omega arith) a₁ in
        omega (arith, none_sent, shrunk, queued_for-append test a.state.queued_outputs new)
    output_with-Bounded test (some beat) now c event payload a =
        let m : Exec (Actor (Timestamper O) V D) (Timestamped O) =
          timestamp_output values key {D = D} now c.id payload in
        let send : Timestamped O → Exec (Actor (Timestamper O) V D) (List (Sent I O)) =
          λ stamped. pure (timestamped_output event stamped ∷ []) in
        query-Bounded (if test event payload then 1 else 0) test m send a
          (timestamp_output-IsQuery values key now c.id payload)
          (λ stamped done. omega (
            arith,
            ap {B = ℕ} (λ o. if test event o then 1 else 0)
                (stamped_output now c.id payload stamped a done),
          ))

    flush_queue-Bounded :
        (test : ContextId → O → Bool) (clock : ℕ → Moment) (queue : List (QueuedOutput O))
        (a : Actor (Timestamper O) V D)
        → a.state.queued_outputs ≡ queue
        → Bounded 0 test a (outcome (flush_queue values key {I = I} clock queue a))
    unfolding flush_queue
    flush_queue-Bounded test clock [] a held = omega arith
    flush_queue-Bounded test clock (first ∷ queue) a held =
        let m : Exec (Actor (Timestamper O) V D) (List (Sent I O)) =
          flush values key {I = I} {D = D} clock (first ∷ queue) in
        let clear : List (Sent I O) → Exec (Actor (Timestamper O) V D) (List (Sent I O)) = λ events.
          (on_state (modify (λ t. record t { queued_outputs = []; warning_logged_head = none }))
            >> pure events) in
        query-Bounded 0 test m clear a (flush-IsQuery values key I clock (first ∷ queue))
          (λ events done. omega (
            arith,
            flush_count test clock (first ∷ queue) events a done,
            ap (queued_for test) held,
          ))

    call-Bounded :
        (n : ℕ) (test : ContextId → O → Bool) (event : ContextId)
        (handler : Context V → Exec (Actor (Timestamper O) V D) (List (Sent I O)))
        (a : Actor (Timestamper O) V D)
        → ((c : Context V) (a : Actor (Timestamper O) V D)
            → Bounded n test a (outcome (handler c a)))
        → Bounded n test a (handle_event (record { ctx_id = event; handler = some handler }) a)
    unfolding handle_event call_handler
    call-Bounded n test event handler a h =
        let m : Exec (Actor (Timestamper O) V D) (Context V) =
          on_store {S = Timestamper O} (get_context {V = V} {D = D} event) in
        query-Bounded n test m handler a
          (on_store-IsQuery values key (get_context event) (get_context-IsQuery event))
          (λ c done. h c a)

  module _ (I : Type 0) {O D : Type 0} ⦃dd : DeepDiff V D⦄ where
    stored-Bounded :
        (test : ContextId → O → Bool) (event : ContextId) (payload : I)
        (a : Actor (Timestamper O) V D) (r : Result (Unit {0})) (s : ContextStore V D)
        → Bounded I 0 test a (
            outcome (
              continue r
                (λ done. pure (forwarded_input event payload ∷ []))
                (record a { context_store = s })))
    stored-Bounded test event payload a (ok done) s = omega arith
    stored-Bounded test event payload a (raise e) s = omega arith

    handle_input-Bounded :
        (test : ContextId → O → Bool) (now : Moment) (c : Context V) (event : ContextId)
        (payload : I) (a : Actor (Timestamper O) V D)
        → Bounded I 0 test a (outcome (handle_input values key now c event payload a))
    unfolding handle_input
    handle_input-Bounded test now c event payload a =
        stored-Bounded test event payload a
          (set_user_data c key (values.store now) a.context_store).0
          (set_user_data c key (values.store now) a.context_store).1

    step-Bounded :
        (test : ContextId → O → Bool) (step : Step I O) (a : Actor (Timestamper O) V D)
        → Bounded I (brought test step) test a (handle_event (received values key step) a)
    unfolding received handle_output handle_block_beat
    step-Bounded test (input now event payload) a =
        call-Bounded I 0 test event (λ c. handle_input values key now c event payload) a
          (λ c a. handle_input-Bounded test now c event payload a)
    step-Bounded test (output now event payload) a =
        call-Bounded I (if test event payload then 1 else 0) test event
          (λ c. handle_output values key now c event payload) a
          (λ c a. output_with-Bounded I test a.state.latest_block_beat now c event payload a)
    step-Bounded test (block_beat clock event beat) a =
        call-Bounded I 0 test event (λ c. handle_block_beat values key clock beat) a
          (λ c a.
            flush_queue-Bounded I test clock a.state.queued_outputs
              (record a { state = record a.state { latest_block_beat = some beat } }) refl)

    -- In every sequence of events, in which handlers may fail at any point, and for every test on a
    -- context and an output: the outputs that pass it and are sent, each in its context, and those that
    -- are queued at the end are together at most as many as those that pass it and were queued at the
    -- start or received. So no output is sent twice, made up, or sent in another context.
    pub run_at_most_once :
        (test : ContextId → O → Bool) (steps : List (Step I O)) (a : Actor (Timestamper O) V D)
        → sent_for test (run values key steps a).0
            + queued_for test (run values key steps a).1.state.queued_outputs
          ≤ queued_for test a.state.queued_outputs + received_for test steps
    unfolding run loop
    run_at_most_once test [] a = omega arith
    run_at_most_once test (step ∷ steps) a =
        let o = handle_event (received values key step) a in
        omega (
          arith,
          step-Bounded test step a,
          run_at_most_once test steps o.1,
          sent_for-append test o.0 (run values key steps o.1).0,
          received_brought test step steps,
        )
