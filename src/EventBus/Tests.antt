-- ===== src/EventBus/Tests.antt =====
-- One event for a primary and a tap.
use bittensor_nexus_library.Prelude.{
  ℕ, ◌+◌, ◌≡◌, refl, some, List, [], ◌∷◌, ◌++◌, map, ◌⊎◌, nat_eq, contains, arith,
}
use bittensor_nexus_library.Prelude.Dict
use bittensor_nexus_library.Exceptions.{Exn, ok, raise}
use bittensor_nexus_library.Dsl.Nodes.{Sink}
use bittensor_nexus_library.Dsl.Pipes.{Pipes, get_item}
use bittensor_nexus_library.ContextStore.{ContextId}
use bittensor_nexus_library.ContextStore.Examples.{numbers, begun}
use bittensor_nexus_library.EventBus.{SendEvent, EventBus, pass_message_downstream}
use bittensor_nexus_library.EventBus.Laws.{
  AreHandled, Children, FailsAt, to_primary, received, pass_message_downstream_delivers,
}

abbrev pipes : Pipes
pipes = (1, record { primary = some 10; taps = 20 ∷ [] }) ∷ []

abbrev event : SendEvent ℕ
event = record { ctx_id = 7; payload = 5; source = 1; source_id = "input" }

abbrev bus : EventBus ℕ ℕ
bus = record { context_store = begun; delivered = [] }

abbrev draw : Sink → ContextId
draw tap = tap + 100

targets_handled : AreHandled (10 ∷ 20 ∷ []) (get_item 1 pipes)
unfolding get_item Dict.get contains
targets_handled = ((refl, tt), λ p e. ground (arith, e))

pass_message_downstream_delivers_example :
    (b' : EventBus ℕ ℕ) × (((e : Exn) × (pass_message_downstream ⦃dd = numbers⦄ pipes
            (10 ∷ 20 ∷ [])
            draw
            event
            bus
          ≡ (raise e, b'))
        × FailsAt ⦃dd = numbers⦄ draw 7 (get_item 1 pipes).taps begun e b'.context_store
        × (b'.delivered ≡ []))
      ⊎ ((events : List (Sink × ContextId)) × (pass_message_downstream ⦃dd = numbers⦄ pipes
              (10 ∷ 20 ∷ [])
              draw
              event
              bus
            ≡ (ok tt, b'))
          × Children ⦃dd = numbers⦄ draw 7 (get_item 1 pipes).taps begun events b'.context_store
          × (b'.delivered
              ≡ ([] ++ to_primary event (get_item 1 pipes).primary)
                ++ map (received event) events)))
pass_message_downstream_delivers_example =
    pass_message_downstream_delivers ⦃dd = numbers⦄ pipes (10 ∷ 20 ∷ []) draw event bus
      targets_handled
