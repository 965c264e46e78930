-- ===== src/Runtime/Patterns.antt =====
-- The actors of src/nexus/_internal/core/runtime/actor_patterns.py that answer events: consumers,
-- forks and transforms. A Python value that may be `None` is an `Option`.
use bittensor_nexus_library.Prelude.{
  Option, none, some, List, [], ◌∷◌, map, ◌==◌, nat_eq, if◌then◌else◌,
}
use bittensor_nexus_library.Exceptions.{
  NexusException, Exn, Result, ok, raise, nexus, internal_framework, safe_invoke_wrapped,
}
use bittensor_nexus_library.Exceptions.Exec.{Exec, pure, throw, lift, ◌>>=◌, ◌>>◌}
use bittensor_nexus_library.ContextStore.{ContextId, Context}
use bittensor_nexus_library.Dsl.Nodes.{Sink}

pub record ReceiveEvent (P : Type 0) : Type 0 where
  pub ctx_id : ContextId
  pub target : Sink
  pub payload : P

-- What a fork sends from its left source, or from its right one.
pub data Sent (L R : Type 0) : Type 0 where
  to_left : ContextId → L → Sent L R
  to_right : ContextId → R → Sent L R

-- An exception that is no `NexusException` is wrapped.
abbrev pub wrap : Exn → NexusException
wrap (nexus e) = e
wrap _ = safe_invoke_wrapped

abbrev pub attempt : {X : Type 0} → Result (Option X) → Option X × Option NexusException
attempt (ok v) = (v, none)
attempt (raise e) = (none, some (wrap e))

unfoldable pub safe_invoke :
    {S X : Type 0} → Exec S (Option X) → Exec S (Option X × Option NexusException)
safe_invoke fn s = let (r, s') = fn s in (ok (attempt r), s')

module _ {L R : Type 0} where
  -- The branches of `_fork_handler`, on the two payloads.
  unfoldable pub fork : ContextId → Option L × Option R → Result (List (Sent L R))
  fork ctx (none, none) = raise (nexus internal_framework)
  fork ctx (some left, none) = ok (to_left ctx left ∷ [])
  fork ctx (none, some right) = ok (to_right ctx right ∷ [])
  fork ctx (some left, some right) = raise (nexus internal_framework)

module _ {S V P : Type 0} where
  -- `ConsumerActor.handle`; it sends nothing.
  unfoldable pub consume :
      {M : Type 0}
      → Sink
      → (Context V → P → Exec S (Unit {0}))
      → Context V
      → ReceiveEvent P
      → Exec S (List M)
  consume spec _consume ctx event =
      if event.target == spec
      then (do _consume ctx event.payload; pure [])
      else throw (nexus internal_framework)

  unfoldable pub fork_handler :
      {L R : Type 0}
      → (Context V → P → Exec S (Option L × Option R))
      → Context V
      → ReceiveEvent P
      → Exec S (List (Sent L R))
  unfolding fork
  fork_handler process ctx event = do
    payloads ← process ctx event.payload
    lift (fork event.ctx_id payloads)

  -- `ForkActor.handle`
  unfoldable pub handle_fork :
      {L R : Type 0}
      → Sink
      → (Context V → P → Exec S (Option L × Option R))
      → Context V
      → ReceiveEvent P
      → Exec S (List (Sent L R))
  unfolding fork_handler
  handle_fork spec process ctx event =
      if event.target == spec
      then fork_handler process ctx event
      else throw (nexus internal_framework)

  -- `TransformActor`: a fork between the result and the exception.
  unfoldable pub handle_transform :
      {X : Type 0}
      → Sink
      → (Context V → P → Exec S (Option X))
      → Context V
      → ReceiveEvent P
      → Exec S (List (Sent X NexusException))
  unfolding handle_fork safe_invoke
  handle_transform spec transform =
      handle_fork spec (λ ctx payload. safe_invoke (transform ctx payload))

-- An event for `DoubleTransformActor.handle`: the tag says which payload it has.
pub data Pipe (P Q : Type 0) : Type 0 where
  input : ReceiveEvent P → Pipe P Q
  output : ReceiveEvent Q → Pipe P Q

-- What a double transform sends, from the sources of its input spec or of its output spec.
pub data DoubleSent (A B : Type 0) : Type 0 where
  from_input : Sent A NexusException → DoubleSent A B
  from_output : Sent B NexusException → DoubleSent A B

-- `DoubleTransformActor.handle`
unfoldable pub handle_double :
    {S V P Q A B : Type 0}
    → Sink
    → Sink
    → (Context V → P → Exec S (Option A))
    → (Context V → Q → Exec S (Option B))
    → Context V
    → Pipe P Q
    → Exec S (List (DoubleSent A B))
unfolding handle_transform
handle_double input_sink output_sink transform_input transform_output ctx (input event) = do
  sent ← handle_transform input_sink transform_input ctx event
  pure (map from_input sent)
handle_double input_sink output_sink transform_input transform_output ctx (output event) = do
  sent ← handle_transform output_sink transform_output ctx event
  pure (map from_output sent)
