-- ===== src/TaskResults/Adds.antt =====
-- What an added result changes in the three dictionaries.
use bittensor_nexus_library.Prelude.{
  ◌≡◌, refl, sym, ap, ◌∙◌, subst, String, true, false, not, Option, none, some, List, [], ◌∷◌, ◌++◌,
  nat_eq, string_eq, ◌==◌, beq_refl, if◌then◌else◌, ◌&&◌, arith, Bool-cases, Option-cases, inl, inr,
}
use bittensor_nexus_library.Prelude.Dict
use bittensor_nexus_library.Prelude.Dict.{Dict, get-put}
use bittensor_nexus_library.Exceptions.{NexusException, Result, ok, raise}
use bittensor_nexus_library.ContextStore.Persistence.{absent}
use bittensor_nexus_library.TaskResults.{
  TaskResultId, TaskResult, AnyTaskResult, successful, TaskResultStore, with_task, write_success,
  add_success, found, found_in, get_task_result,
}

abbrev pub list_of {ℓ} : {A : Type ℓ} → Option (List A) → List A
list_of none = []
list_of (some xs) = xs

present {ℓ} : {A : Type ℓ} (o : Option A) → absent o ≡ false → (a : A) × (o ≡ some a)
present none h = absurd (ground (arith, h))
present (some a) h = (a, refl)

missing {ℓ} : {A : Type ℓ} (o : Option A) → absent o ≡ true → o ≡ none
missing none h = refl
missing (some a) h = absurd (ground (arith, h))

module _ {A : Type 0} (name : String) (xs : List A) (d : Dict String (List A)) where
  pub get-put_here : Dict.get name (Dict.put name xs d) ≡ some xs
  get-put_here = get-put name name xs d ∙ rw (beq_refl name) refl

  pub absent-put :
      (n : String)
      → absent (Dict.get n (Dict.put name xs d))
        ≡ (if name == n then false else absent (Dict.get n d))
  absent-put n =
      ap absent (get-put name n xs d)
      ∙ elim (Bool-cases (name == n)) [ inl e ↦ rw e refl | inr e ↦ rw e refl ]

  pub list_put :
      (n : String)
      → list_of (Dict.get n (Dict.put name xs d))
        ≡ (if name == n then xs else list_of (Dict.get n d))
  list_put n =
      ap list_of (get-put name n xs d)
      ∙ elim (Bool-cases (name == n)) [ inl e ↦ rw e refl | inr e ↦ rw e refl ]

same_list :
    {A : Type 0} (name n : String) (xs : List A) (d : Dict String (List A))
    → list_of (Dict.get name d) ≡ xs
    → (if name == n then xs else list_of (Dict.get n d)) ≡ list_of (Dict.get n d)
same_list name n xs d h = elim (Bool-cases (name == n)) [
  | inl e ↦
      let eq : name ≡ n = (string_eq.beq_iff name n).0 e in
      rw e (sym (subst (λ i. list_of (Dict.get i d) ≡ xs) eq h))
  | inr e ↦ rw e refl
]

pub still :
    {A : Type 0} (name n : String) (d : Dict String (List A))
    → absent (Dict.get name d) ≡ false
    → absent (Dict.get n d) ≡ (if name == n then false else absent (Dict.get n d))
still name n d h = elim (Bool-cases (name == n)) [
  | inl e ↦
      let eq : name ≡ n = (string_eq.beq_iff name n).0 e in
      rw e (subst (λ i. absent (Dict.get i d) ≡ false) eq h)
  | inr e ↦ rw e refl
]

pub grown :
    {A : Type 0} (name n : String) (xs : List A) (x : A) (d d' : Dict String (List A))
    → xs ≡ list_of (Dict.get name d')
    → list_of (Dict.get n d) ≡ list_of (Dict.get n d')
    → (if name == n then xs ++ x ∷ [] else list_of (Dict.get n d))
      ≡ (if name == n then list_of (Dict.get n d') ++ x ∷ [] else list_of (Dict.get n d'))
grown name n xs x d d' own same = elim (Bool-cases (name == n)) [
  | inl e ↦
      let eq : name ≡ n = (string_eq.beq_iff name n).0 e in
      rw e (ap (λ l. l ++ x ∷ []) (subst (λ i. xs ≡ list_of (Dict.get i d')) eq own))
  | inr e ↦ rw e same
]

module _ {O : Type 0} where
  -- A task is known to all three dictionaries, or to none.
  abbrev pub IsTaskResultStore : TaskResultStore O → Type 0
  IsTaskResultStore s =
      (name : String)
      → (absent (Dict.get name s.executor_failure_store)
          ≡ absent (Dict.get name s.successful_store))
        × (absent (Dict.get name s.by_id) ≡ absent (Dict.get name s.successful_store))

  -- Every id of a task other than this one leads to what it led to before.
  abbrev pub KeepsOthers : String → TaskResultId → TaskResultStore O → TaskResultStore O → Type 0
  KeepsOthers name id s s' =
      (n : String) (j : TaskResultId)
      → ((name == n) && (id == j)) ≡ false
      → get_task_result n j s' ≡ get_task_result n j s

  -- An entry more under a task that is known.
  pub get_task_result-put :
      (name n : String) (id j : TaskResultId) (entry : AnyTaskResult O)
      (ids : Dict TaskResultId (AnyTaskResult O))
      (d : Dict String (Dict TaskResultId (AnyTaskResult O)))
      → Dict.get name d ≡ some ids
      → ((name == n) && (id == j)) ≡ false
      → found_in j (Dict.get n (Dict.put name (Dict.put id entry ids) d))
        ≡ found_in j (Dict.get n d)
  get_task_result-put name n id j entry ids d known other =
      ap (found_in j) (get-put name n (Dict.put id entry ids) d) ∙ elim (Bool-cases (name == n)) [
        | inl same ↦
            let eq : name ≡ n = (string_eq.beq_iff name n).0 same in
            let apart : (id == j) ≡ false = ground (arith, other, same) in
            rw same (
              ap found (get-put id j entry ids ∙ rw apart refl)
              ∙ ap (found_in j) (sym (subst (λ i. Dict.get i d ≡ some ids) eq known)))
        | inr apart ↦ rw apart refl
      ]

  -- An empty task more leads to nothing either.
  get_task_result_empty :
      (name n : String) (j : TaskResultId) (d : Dict String (Dict TaskResultId (AnyTaskResult O)))
      → Dict.get name d ≡ none
      → found_in j (Dict.get n (Dict.put name [] d)) ≡ found_in j (Dict.get n d)
  unfolding Dict.get
  get_task_result_empty name n j d unknown =
      ap (found_in j) (get-put name n [] d) ∙ elim (Bool-cases (name == n)) [
        | inl same ↦
            let eq : name ≡ n = (string_eq.beq_iff name n).0 same in
            rw same (ap (found_in j) (sym (subst (λ i. Dict.get i d ≡ none) eq unknown)))
        | inr apart ↦ rw apart refl
      ]

  -- What an added success changes, seen by the queries.
  abbrev pub AddsSuccess : String → TaskResult O → TaskResultStore O → TaskResultStore O → Type 0
  AddsSuccess name entry s s' =
      (n : String)
      → (list_of (Dict.get n s'.successful_store) ≡ (
          if name == n
          then list_of (Dict.get n s.successful_store) ++ entry ∷ []
          else list_of (Dict.get n s.successful_store)))
        × (list_of (Dict.get n s'.executor_failure_store)
            ≡ list_of (Dict.get n s.executor_failure_store))

  -- What the first writes to a task ensure.
  abbrev pub Known : String → TaskResultStore O → TaskResultStore O → Type 0
  Known name s s' =
      (results : List (TaskResult O)) × (Dict.get name s'.successful_store ≡ some results)
      × (failures : List (TaskResult NexusException)) × (Dict.get name s'.executor_failure_store
          ≡ some failures)
      × (ids : Dict TaskResultId (AnyTaskResult O)) × (Dict.get name s'.by_id ≡ some ids)
      × IsTaskResultStore s'
      × ((n : String) (j : TaskResultId) → get_task_result n j s' ≡ get_task_result n j s)
      × ((n : String)
          → (list_of (Dict.get n s'.successful_store) ≡ list_of (Dict.get n s.successful_store))
            × (list_of (Dict.get n s'.executor_failure_store)
                ≡ list_of (Dict.get n s.executor_failure_store)))

  pub with_task-Known :
      (name : String) (s : TaskResultStore O)
      → IsTaskResultStore s
      → Known name s (with_task (not (absent (Dict.get name s.successful_store))) name s)
  unfolding get_task_result
  with_task-Known name s sound = elim (Option-cases (Dict.get name s.successful_store)) [
    | inl e ↦
        let f = missing (Dict.get name s.executor_failure_store) ((sound name).0 ∙ ap absent e) in
        rw e (
          [],
          get-put_here name [] s.successful_store,
          [],
          get-put_here name [] s.executor_failure_store,
          [],
          get-put_here name [] s.by_id,
          λ n. (
            absent-put name [] s.executor_failure_store n
                ∙ ap (λ b. if name == n then false else b) (sound n).0
                ∙ sym (absent-put name [] s.successful_store n),
            absent-put name [] s.by_id n
                ∙ ap (λ b. if name == n then false else b) (sound n).1
                ∙ sym (absent-put name [] s.successful_store n),
          ),
          λ n j.
              get_task_result_empty name n j s.by_id
                (missing (Dict.get name s.by_id) ((sound name).1 ∙ ap absent e)),
          λ n. (
            list_put name [] s.successful_store n
                ∙ same_list name n [] s.successful_store (ap list_of e),
            list_put name [] s.executor_failure_store n
                ∙ same_list name n [] s.executor_failure_store (ap list_of f),
          ),
        )
    | inr (results, e) ↦
        let (failures, f) =
          present (Dict.get name s.executor_failure_store) ((sound name).0 ∙ ap absent e) in
        let (ids, i) = present (Dict.get name s.by_id) ((sound name).1 ∙ ap absent e) in
        rw e (results, e, failures, f, ids, i, sound, λ n j. refl, λ n. (refl, refl))
  ]

  write_success_run :
      (note : Result (Unit {0})) (name : String) (entry : TaskResult O) (s : TaskResultStore O)
      (results : List (TaskResult O)) (ids : Dict TaskResultId (AnyTaskResult O))
      → Dict.get name s.successful_store ≡ some results
      → Dict.get name s.by_id ≡ some ids
      → (write_success note name entry s).1 ≡ record s {
        successful_store = Dict.put name (results ++ entry ∷ []) s.successful_store;
        by_id = Dict.put name (Dict.put entry.id (successful entry) ids) s.by_id;
      }
  unfolding write_success
  write_success_run (ok _) name entry s results ids h₁ h₂ = rw (h₁, h₂) refl
  write_success_run (raise e) name entry s results ids h₁ h₂ = rw (h₁, h₂) refl

  -- Adding a success changes the list of its task only, and keeps the dictionaries together.
  pub add_success_adds :
      (note : Result (Unit {0})) (name : String) (entry : TaskResult O) (s : TaskResultStore O)
      → IsTaskResultStore s
      → AddsSuccess name entry s (add_success note name entry s).1
        × IsTaskResultStore (add_success note name entry s).1
        × (get_task_result name entry.id (add_success note name entry s).1 ≡ ok (successful entry))
        × KeepsOthers name entry.id s (add_success note name entry s).1
  unfolding add_success get_task_result
  add_success_adds note name entry s sound =
      let s₁ = with_task (not (absent (Dict.get name s.successful_store))) name s in
      let (results, known, failures, f, ids, i, sound₁, ids_kept, same) =
        with_task-Known name s sound in
      let run = write_success_run note name entry s₁ results ids known i in
      let results' = results ++ entry ∷ [] in
      let ids' = Dict.put entry.id (successful entry) ids in
      let own : results ≡ list_of (Dict.get name s.successful_store) =
        ap list_of (sym known) ∙ (same name).0 in
      let back : Dict.get entry.id ids' ≡ some (successful entry) =
        get-put entry.id entry.id (successful entry) ids ∙ rw (beq_refl entry.id) refl in
      rw run (
        λ n. (
          list_put name results' s₁.successful_store n
              ∙ grown name n results entry s₁.successful_store s.successful_store own (same n).0,
          (same n).1,
        ),
        λ n. (
          (sound₁ n).0
              ∙ still name n s₁.successful_store (ap absent known)
              ∙ sym (absent-put name results' s₁.successful_store n),
          absent-put name ids' s₁.by_id n
              ∙ ap (λ b. if name == n then false else b) (sound₁ n).1
              ∙ sym (absent-put name results' s₁.successful_store n),
        ),
        ap (found_in entry.id) (get-put_here name ids' s₁.by_id) ∙ ap found back,
        λ n j other.
            get_task_result-put name n entry.id j (successful entry) ids s₁.by_id i other
            ∙ ids_kept n j,
      )
