-- ===== src/TaskResults/Laws.antt =====
-- The results that a store hands out, against the list of what was added to it.
use bittensor_nexus_library.Prelude.{
  ℕ, ◌+◌, ◌≡◌, refl, sym, ap, ◌∙◌, subst, String, true, Option, none, some, List, [], ◌∷◌, ◌++◌,
  map, keep_if, count, nat_eq, string_eq, ◌==◌, beq_refl, if◌then◌else◌, arith, Bool-cases, inl,
  inr,
}
use bittensor_nexus_library.Prelude.Dict
use bittensor_nexus_library.Prelude.Dict.{Dict, get-put}
use bittensor_nexus_library.Prelude.Int.{pos}
use bittensor_nexus_library.Prelude.Sort
use bittensor_nexus_library.Prelude.Sort.{Ascending, sort_by-Ascending}
use bittensor_nexus_library.Exceptions.{Result, ok}
use bittensor_nexus_library.Chain.Epoch.{Epoch, contains}
use bittensor_nexus_library.TaskResults.{
  TaskResultId, TaskResult, value, successful, TaskResultStore, empty, add_success,
  add_successful_task_result, get_task_result, of_epoch, of_task, get_successful_tasks_for_epoch,
  get_executor_failures_for_epoch, counter, one_more, count_successful_by_hotkey_for_epoch,
}
use bittensor_nexus_library.TaskResults.Adds.{
  list_of, IsTaskResultStore, KeepsOthers, add_success_adds,
}

pub of_task-list_of :
    {O : Type 0} (epoch : Epoch) (o : Option (List (TaskResult O)))
    → of_task epoch o ≡ of_epoch epoch (list_of o)
unfolding of_epoch keep_if Sort.sort_by
of_task-list_of epoch none = refl
of_task-list_of epoch (some results) = refl

of_epoch-Ascending :
    {O : Type 0} (epoch : Epoch) (results : List (TaskResult O))
    → Ascending (λ r. r.block_number) (of_epoch epoch results)
unfolding of_epoch
of_epoch-Ascending epoch results =
    sort_by-Ascending (λ r. r.block_number)
      (keep_if (λ r. contains epoch (pos r.block_number)) results)

pub empty-IsTaskResultStore : (O : Type 0) → IsTaskResultStore {O = O} empty
unfolding empty Dict.get
empty-IsTaskResultStore O name = (refl, refl)

module _ {O : Type 0} where
  -- A success that is added, whether or not its context note can be written: afterwards the results
  -- of its task in an epoch are those of before and it, filtered by the epoch and stably sorted by
  -- block, in ascending order; the results of other tasks and all failures stay; its id leads to it,
  -- and every other id leads to what it led to before.
  pub add_successful_task_result-get :
      (note : Result (Unit {0})) (name : String) (id : TaskResultId) (block : ℕ) (hotkey : String)
      (output : O) (s : TaskResultStore O)
      → IsTaskResultStore s
      → (s' : TaskResultStore O) × ((add_successful_task_result note name id block hotkey
            (value output)
            true
            s).1
          ≡ s')
        × IsTaskResultStore s'
        × (get_task_result name id s'
            ≡ ok (
                successful
                  (record { id = id; block_number = block; hotkey = hotkey; output = output })))
        × KeepsOthers name id s s'
        × ((n : String) (epoch : Epoch)
            → (get_successful_tasks_for_epoch n epoch s'
                ≡ of_epoch epoch (
                    if name == n
                    then list_of (Dict.get n s.successful_store)
                      ++ record { id = id; block_number = block; hotkey = hotkey; output = output }
                        ∷ []
                    else list_of (Dict.get n s.successful_store)))
              × Ascending (λ r. r.block_number) (get_successful_tasks_for_epoch n epoch s')
              × (get_executor_failures_for_epoch n epoch s'
                  ≡ get_executor_failures_for_epoch n epoch s))
  unfolding add_successful_task_result get_successful_tasks_for_epoch
      get_executor_failures_for_epoch
  add_successful_task_result-get note name id block hotkey output s sound =
      let entry : TaskResult O = record {
        id = id;
        block_number = block;
        hotkey = hotkey;
        output = output;
      } in
      let s' = (add_success note name entry s).1 in
      let (adds, kept, back, others) = add_success_adds note name entry s sound in
      (
        s',
        refl,
        kept,
        back,
        others,
        λ n epoch. (
          of_task-list_of epoch (Dict.get n s'.successful_store) ∙ ap (of_epoch epoch) (adds n).0,
          subst (Ascending (λ r. r.block_number))
              (sym (of_task-list_of epoch (Dict.get n s'.successful_store)))
              (of_epoch-Ascending epoch (list_of (Dict.get n s'.successful_store))),
          of_task-list_of epoch (Dict.get n s'.executor_failure_store)
              ∙ ap (of_epoch epoch) (adds n).1
              ∙ sym (of_task-list_of epoch (Dict.get n s.executor_failure_store)),
        ),
      )

abbrev pub or_zero : Option ℕ → ℕ
or_zero none = 0
or_zero (some n) = n

or_zero-one_more : (o : Option ℕ) → or_zero (some (one_more o)) ≡ or_zero o + 1
or_zero-one_more none = omega arith
or_zero-one_more (some n) = refl

count-counter :
    (x : String) (xs : List String) (d : Dict String ℕ)
    → or_zero (Dict.get x (counter xs d)) ≡ or_zero (Dict.get x d) + count x xs
unfolding counter count
count-counter x [] d = omega arith
count-counter x (y ∷ ys) d =
    let d' = Dict.put y (one_more (Dict.get y d)) d in
    let ih = count-counter x ys d' in
    elim (Bool-cases (y == x)) [
      | inl e ↦
          let eq : y ≡ x = (string_eq.beq_iff y x).0 e in
          let here : or_zero (Dict.get x d') ≡ or_zero (Dict.get x d) + 1 =
            subst (λ z. or_zero (Dict.get z d') ≡ or_zero (Dict.get z d) + 1) eq
              (ap or_zero (get-put y y (one_more (Dict.get y d)) d)
                ∙ rw (beq_refl y) (or_zero-one_more (Dict.get y d))) in
          rw e (omega (arith, ih, here))
      | inr e ↦
          let there : or_zero (Dict.get x d') ≡ or_zero (Dict.get x d) =
            ap or_zero (get-put y x (one_more (Dict.get y d)) d) ∙ rw e refl in
          rw e (omega (arith, ih, there))
    ]

-- The count of a hotkey is the number of the epoch's successes from it; a hotkey without one is not
-- in the mapping, which Python's `Counter` reads as zero.
pub count_successful-count :
    {O : Type 0} (hotkey name : String) (epoch : Epoch) (s : TaskResultStore O)
    → or_zero (Dict.get hotkey (count_successful_by_hotkey_for_epoch name epoch s))
      ≡ count hotkey (map (λ r. r.hotkey) (get_successful_tasks_for_epoch name epoch s))
unfolding count_successful_by_hotkey_for_epoch Dict.get
count_successful-count hotkey name epoch s = omega (
  arith,
  count-counter hotkey (map (λ r. r.hotkey) (get_successful_tasks_for_epoch name epoch s)) [],
)
