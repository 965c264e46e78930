-- ===== src/TaskResults/Counts.antt =====
-- How the counts by hotkey of `InMemoryTaskResultStore` follow what is added to it.
use bittensor_nexus_library.Prelude.{
  ℕ, ◌+◌, ◌≡◌, refl, ap, ◌∙◌, String, Bool, true, List, [], ◌∷◌, ◌++◌, map, keep_if, count, nat_eq,
  string_eq, ◌==◌, ◌&&◌, if◌then◌else◌, arith, Bool-cases, inl, inr, leb,
}
use bittensor_nexus_library.Prelude.Dict
use bittensor_nexus_library.Prelude.Int.{pos}
use bittensor_nexus_library.Prelude.Sort.{insert_by, sort_by}
use bittensor_nexus_library.Exceptions.{Result}
use bittensor_nexus_library.Chain.Epoch.{Epoch, contains}
use bittensor_nexus_library.TaskResults.{
  TaskResultId, TaskResult, value, TaskResultStore, add_successful_task_result, of_epoch, counter,
  get_successful_tasks_for_epoch, count_successful_by_hotkey_for_epoch,
  count_executor_failures_by_hotkey_for_epoch,
}
use bittensor_nexus_library.TaskResults.Adds.{list_of, IsTaskResultStore}
use bittensor_nexus_library.TaskResults.Laws.{
  or_zero, of_task-list_of, count_successful-count, add_successful_task_result-get,
}

module _ {A : Type 0} (key : A → ℕ) (name : A → String) (x : String) where
  count-insert_by :
      (a : A) (xs : List A)
      → count x (map name (insert_by key a xs))
        ≡ count x (map name xs) + (if name a == x then 1 else 0)
  unfolding insert_by count
  count-insert_by a [] = omega arith
  count-insert_by a (y ∷ ys) = elim (Bool-cases (leb (key a) (key y))) [
    | inl low ↦ rw low (omega arith)
    | inr high ↦ rw high (omega (arith, count-insert_by a ys))
  ]

  -- A sort changes no count.
  count-sort_by : (xs : List A) → count x (map name (sort_by key xs)) ≡ count x (map name xs)
  unfolding sort_by count
  count-sort_by [] = refl
  count-sort_by (a ∷ xs) = omega (arith, count-insert_by a (sort_by key xs), count-sort_by xs)

  count-keep_if :
      (p : A → Bool) (xs : List A) (last : A)
      → count x (map name (keep_if p (xs ++ last ∷ [])))
        ≡ count x (map name (keep_if p xs)) + (if p last && name last == x then 1 else 0)
  unfolding keep_if count
  count-keep_if p [] last = elim (Bool-cases (p last)) [
    | inl kept ↦ rw kept (omega arith)
    | inr dropped ↦ rw dropped refl
  ]
  count-keep_if p (a ∷ xs) last = elim (Bool-cases (p a)) [
    | inl kept ↦ rw kept (omega (arith, count-keep_if p xs last))
    | inr dropped ↦ rw dropped (count-keep_if p xs last)
  ]

module _ {O : Type 0} where
  -- A result more in the list of a task.
  count-of_epoch :
      (x : String) (epoch : Epoch) (results : List (TaskResult O)) (last : TaskResult O)
      → count x (map (λ r. r.hotkey) (of_epoch epoch (results ++ last ∷ [])))
        ≡ count x (map (λ r. r.hotkey) (of_epoch epoch results))
          + (if contains epoch (pos last.block_number) && last.hotkey == x then 1 else 0)
  unfolding of_epoch
  count-of_epoch x epoch results last =
      let block = λ (r : TaskResult O). r.block_number in
      let name = λ (r : TaskResult O). r.hotkey in
      let here = λ (r : TaskResult O). contains epoch (pos r.block_number) in
      omega (
        arith,
        count-sort_by block name x (keep_if here (results ++ last ∷ [])),
        count-sort_by block name x (keep_if here results),
        count-keep_if block name x here results last,
      )

  -- A success that is added to a task raises by one, for every epoch that contains its block, the count
  -- of its hotkey, and changes no other count of successes and no count of failures, whether or not its
  -- context note can be written.
  pub add_successful_task_result-count :
      (note : Result (Unit {0})) (name : String) (id : TaskResultId) (block : ℕ) (hotkey : String)
      (output : O) (s : TaskResultStore O) (n x : String) (epoch : Epoch)
      → IsTaskResultStore s
      → (s' : TaskResultStore O) × ((add_successful_task_result note name id block hotkey
            (value output)
            true
            s).1
          ≡ s')
        × (or_zero (Dict.get x (count_successful_by_hotkey_for_epoch n epoch s'))
            ≡ or_zero (Dict.get x (count_successful_by_hotkey_for_epoch n epoch s))
              + (if (name == n) && (contains epoch (pos block) && hotkey == x) then 1 else 0))
        × (count_executor_failures_by_hotkey_for_epoch n epoch s'
            ≡ count_executor_failures_by_hotkey_for_epoch n epoch s)
  unfolding count_executor_failures_by_hotkey_for_epoch get_successful_tasks_for_epoch
  add_successful_task_result-count note name id block hotkey output s n x epoch sound =
      let last : TaskResult O = record {
        id = id;
        block_number = block;
        hotkey = hotkey;
        output = output;
      } in
      let (s', done, _, _, _, queries) =
        add_successful_task_result-get note name id block hotkey output s sound in
      let (lists, _, failures) = queries n epoch in
      let before = list_of (Dict.get n s.successful_store) in
      let counted : or_zero (Dict.get x (count_successful_by_hotkey_for_epoch n epoch s'))
          ≡ or_zero (Dict.get x (count_successful_by_hotkey_for_epoch n epoch s))
            + (if (name == n) && (contains epoch (pos block) && hotkey == x) then 1 else 0) =
        count_successful-count x n epoch s'
        ∙ ap (λ rs. count x (map (λ r. r.hotkey) rs)) lists
        ∙ elim (Bool-cases (name == n)) [
          | inl same ↦ rw same (
              omega (
                arith,
                count-of_epoch x epoch before last,
                count_successful-count x n epoch s,
                ap (λ rs. count x (map (λ r. r.hotkey) rs))
                    (of_task-list_of epoch (Dict.get n s.successful_store)),
              ))
          | inr other ↦ rw other (
              omega (
                arith,
                count_successful-count x n epoch s,
                ap (λ rs. count x (map (λ r. r.hotkey) rs))
                    (of_task-list_of epoch (Dict.get n s.successful_store)),
              ))
        ] in
      (s', done, counted, ap (λ rs. counter (map (λ r. r.hotkey) rs) []) failures)
