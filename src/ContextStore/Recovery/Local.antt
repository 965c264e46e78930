-- ===== src/ContextStore/Recovery/Local.antt =====
-- Recovery seen from one context: what the loop knows of a context depends on that context's own
-- entries only.
use bittensor_nexus_library.Prelude.{
  ◌≡◌, refl, Bool, true, false, not, Option, none, some, List, [], ◌∷◌, contains, ◌==◌, nat_eq,
  string_eq, if◌then◌else◌, arith, Option-cases, inl, inr,
}
use bittensor_nexus_library.Prelude.Dict
use bittensor_nexus_library.Prelude.Dict.{Dict, get-put, get-remove}
use bittensor_nexus_library.Exceptions.{Result, ok, ◌>>=◌}
use bittensor_nexus_library.ContextStore.{
  ContextId, StepIdx, DeepDiff, LogEntry, LogEntryData, MessageSent, Context, message_sent,
  user_data_change, user_note, context_data_initialized, child_context_created, context_created,
  context_completed,
}
use bittensor_nexus_library.ContextStore.Recovery.{
  Recovering, start, corrupted, follows, or_corrupted, blank, put_context, create_blank,
  add_user_data, replay_entry, recover_entry,
}

-- What the loop knows of one context.
pub record Local (V D : Type 0) : Type 0 where
  pub context : Option (Context V)
  pub last_message : Option (MessageSent D)
  pub completed : Bool
  pub step : Option StepIdx

module _ {V D : Type 0} where
  unfoldable pub nothing : Local V D
  nothing = record { context = none; last_message = none; completed = false; step = none }

  unfoldable pub view : Recovering V D → ContextId → Local V D
  view r ctx = record {
    context = Dict.get ctx r.contexts;
    last_message = Dict.get ctx r.last_messages;
    completed = contains ctx r.completed_contexts;
    step = Dict.get ctx r.steps;
  }

  pub view-start : (ctx : ContextId) → view start ctx ≡ nothing
  unfolding view start nothing Dict.get contains
  view-start ctx = refl

module _ {V D : Type 0} ⦃dd : DeepDiff V D⦄ where
  abbrev with_context : (Context V → Local V D) → Option (Context V) → Result (Local V D)
  with_context f none = corrupted
  with_context f (some c) = ok (f c)

  unfoldable pub local_entry : ContextId → LogEntryData V D → Local V D → Result (Local V D)
  local_entry ctx (context_created parents) l = elim l.context [
    | none ↦ ok (record l { context = some (blank dd.null ctx) })
    | some c ↦ corrupted
  ]
  local_entry ctx (context_data_initialized payload user_data parents) l =
      with_context
        (λ c. record l {
          context =
              some
                (record c { payload = payload; user_data = user_data; parent_contexts = parents });
        })
        l.context
  local_entry ctx (child_context_created child) l = ok l
  local_entry ctx (message_sent message) l =
      with_context
        (λ c. record l {
          context = some (record c { payload = dd.apply c.payload message.payload_delta });
          last_message = some message;
        })
        l.context
  local_entry ctx (user_note note) l = ok l
  local_entry ctx (user_data_change key value_delta) l =
      with_context (λ c. record l { context = some (add_user_data key value_delta c) }) l.context
  local_entry ctx context_completed l =
      with_context (λ c. record l { context = none; last_message = none; completed = true })
        l.context

  unfoldable pub local_step : LogEntry V D → Local V D → Result (Local V D)
  unfolding local_entry follows
  local_step e l =
      if not (follows l.step e.step_idx)
      then corrupted
      else if l.completed
      then corrupted
      else local_entry e.ctx e.entry (record l { step = some e.step_idx })

  unfoldable pub local_steps : List (LogEntry V D) → Local V D → Result (Local V D)
  unfolding local_step
  local_steps [] l = ok l
  local_steps (e ∷ es) l = do l' ← local_step e l; local_steps es l'

  -- `r'` differs from `r` at one context, where it is `l`.
  abbrev pub Updates : ContextId → Local V D → Recovering V D → Recovering V D → Type 0
  Updates ctx l r r' = (j : ContextId) → view r' j ≡ (if ctx == j then l else view r j)

  replay_entry-view :
      (ctx : ContextId) (entry : LogEntryData V D) (r : Recovering V D) (l : Local V D)
      → local_entry ctx entry (view r ctx) ≡ ok l
      → (r' : Recovering V D) × (replay_entry ctx entry r ≡ ok r') × Updates ctx l r r'
  unfolding local_entry replay_entry view contains
  replay_entry-view ctx (context_created parents) r l h =
      elim (Option-cases (Dict.get ctx r.contexts)) [
        | inl e ↦
            let c = blank dd.null ctx in
            (
              put_context c ctx r,
              rw (e, create_blank),
              λ j. ground (arith, h, e, get-put ctx j c r.contexts),
            )
        | inr (c, e) ↦ absurd (ground (arith, h, e))
      ]
  replay_entry-view ctx (context_data_initialized payload user_data parents) r l h =
      elim (Option-cases (Dict.get ctx r.contexts)) [
        | inl e ↦ absurd (ground (arith, h, e))
        | inr (c, e) ↦
            let c' = record c {
              payload = payload;
              user_data = user_data;
              parent_contexts = parents;
            } in
            (
              put_context c' ctx r,
              rw (e, or_corrupted),
              λ j. ground (arith, h, e, get-put ctx j c' r.contexts),
            )
      ]
  replay_entry-view ctx (child_context_created child) r l h = (r, refl, λ j. ground arith)
  replay_entry-view ctx (message_sent message) r l h =
      elim (Option-cases (Dict.get ctx r.contexts)) [
        | inl e ↦ absurd (ground (arith, h, e))
        | inr (c, e) ↦
            let c' = record c { payload = dd.apply c.payload message.payload_delta } in
            (
              record r {
                contexts = Dict.put ctx c' r.contexts;
                last_messages = Dict.put ctx message r.last_messages;
              },
              rw (e, or_corrupted),
              λ j.
                  ground (
                    arith,
                    h,
                    e,
                    get-put ctx j c' r.contexts,
                    get-put ctx j message r.last_messages,
                  ),
            )
      ]
  replay_entry-view ctx (user_note note) r l h = (r, refl, λ j. ground arith)
  replay_entry-view ctx (user_data_change key value_delta) r l h =
      elim (Option-cases (Dict.get ctx r.contexts)) [
        | inl e ↦ absurd (ground (arith, h, e))
        | inr (c, e) ↦
            let c' = add_user_data key value_delta c in
            (
              put_context c' ctx r,
              rw (e, or_corrupted),
              λ j. ground (arith, h, e, get-put ctx j c' r.contexts),
            )
      ]
  replay_entry-view ctx context_completed r l h = elim (Option-cases (Dict.get ctx r.contexts)) [
    | inl e ↦ absurd (ground (arith, h, e))
    | inr (c, e) ↦ (
      record r {
        contexts = Dict.remove ctx r.contexts;
        completed_contexts = ctx ∷ r.completed_contexts;
        last_messages = Dict.remove ctx r.last_messages;
      },
      rw (e, or_corrupted),
      λ j. ground (arith, h, e, get-remove ctx j r.contexts, get-remove ctx j r.last_messages),
    )
  ]

  -- One round of the loop changes what is known of the entry's context, as its own replay does.
  pub recover_entry-view :
      (e : LogEntry V D) (r : Recovering V D) (l : Local V D)
      → local_step e (view r e.ctx) ≡ ok l
      → (r' : Recovering V D) × (recover_entry e r ≡ ok r') × Updates e.ctx l r r'
  unfolding local_step recover_entry view
  recover_entry-view e r l h =
      let r₁ = record r { steps = Dict.put e.ctx e.step_idx r.steps } in
      let seen : view r₁ e.ctx ≡ record (view r e.ctx) { step = some e.step_idx } =
        ground (arith, get-put e.ctx e.ctx e.step_idx r.steps) in
      let (r', done, updates) = replay_entry-view e.ctx e.entry r₁ l (ground (arith, h, seen)) in
      (
        r',
        ground (arith, h, done),
        λ j. ground (arith, updates j, get-put e.ctx j e.step_idx r.steps),
      )
