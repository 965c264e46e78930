-- ===== src/Timestamper/Runs.antt =====
-- Sequences of events of a `TimestamperActor`: how often an output is sent.
use bittensor_nexus_library.Prelude.{
  ℕ, ◌+◌, ◌≡◌, String, Bool, some, List, [], ◌∷◌, ◌++◌, map, nat_eq, string_eq, arith,
  if◌then◌else◌,
}
use bittensor_nexus_library.ContextStore.{ContextId, DeepDiff}
use bittensor_nexus_library.Chain.BlockBeat.{BlockBeat}
use bittensor_nexus_library.Runtime.{Actor, Received, loop}
use bittensor_nexus_library.Timestamper.{
  Moment, Values, QueuedOutput, Timestamper, Sent, forwarded_input, timestamped_output,
  handle_output, handle_block_beat, handle_input,
}

-- An event, with the times that its handler reads.
pub data Step (I O : Type 0) : Type 0 where
  input : Moment → ContextId → I → Step I O
  output : Moment → ContextId → O → Step I O
  block_beat : (ℕ → Moment) → ContextId → BlockBeat → Step I O

module _ {V I O D : Type 0} (values : Values V) (key : String) ⦃dd : DeepDiff V D⦄ where
  -- `handlers`
  unfoldable pub received : Step I O → Received (Timestamper O) V D (Sent I O)
  unfolding handle_input handle_output handle_block_beat
  received (input now ctx payload) = record {
    ctx_id = ctx;
    handler = some (λ c. handle_input values key now c ctx payload);
  }
  received (output now ctx payload) = record {
    ctx_id = ctx;
    handler = some (λ c. handle_output values key now c ctx payload);
  }
  received (block_beat clock ctx beat) = record {
    ctx_id = ctx;
    handler = some (λ c. handle_block_beat values key clock beat);
  }

  unfoldable pub run :
      List (Step I O) → Actor (Timestamper O) V D → List (Sent I O) × Actor (Timestamper O) V D
  unfolding received loop
  run steps = loop (map received steps)

-- How many outputs are sent, queued, or received that pass a test on their context and on themselves.
abbrev pub sent_for : {I O : Type 0} → (ContextId → O → Bool) → List (Sent I O) → ℕ
sent_for test [] = 0
sent_for test (forwarded_input c payload ∷ events) = sent_for test events
sent_for test (timestamped_output c stamped ∷ events) =
    (if test c stamped.executor_output then 1 else 0) + sent_for test events

abbrev pub queued_for : {O : Type 0} → (ContextId → O → Bool) → List (QueuedOutput O) → ℕ
queued_for test [] = 0
queued_for test (queued ∷ queue) =
    (if test queued.ctx_id queued.output then 1 else 0) + queued_for test queue

abbrev pub received_for : {I O : Type 0} → (ContextId → O → Bool) → List (Step I O) → ℕ
received_for test [] = 0
received_for test (input now c payload ∷ steps) = received_for test steps
received_for test (block_beat clock c beat ∷ steps) = received_for test steps
received_for test (output now c payload ∷ steps) =
    (if test c payload then 1 else 0) + received_for test steps

pub sent_for-append :
    {I O : Type 0} (test : ContextId → O → Bool) (xs ys : List (Sent I O))
    → sent_for test (xs ++ ys) ≡ sent_for test xs + sent_for test ys
sent_for-append test [] ys = omega arith
sent_for-append test (forwarded_input c payload ∷ xs) ys = sent_for-append test xs ys
sent_for-append test (timestamped_output c stamped ∷ xs) ys =
    omega (arith, sent_for-append test xs ys)

pub queued_for-append :
    {O : Type 0} (test : ContextId → O → Bool) (xs : List (QueuedOutput O)) (last : QueuedOutput O)
    → queued_for test (xs ++ last ∷ [])
      ≡ queued_for test xs + (if test last.ctx_id last.output then 1 else 0)
queued_for-append test [] last = omega arith
queued_for-append test (x ∷ xs) last = omega (arith, queued_for-append test xs last)
