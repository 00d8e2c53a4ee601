-- ===== src/Routes/Tasks/Guards.antt =====
-- Who may act on a task: the guards of the four requests.
use kids_chores_api.Web.Notifications.{notify_new_excuse}
use kids_chores_api.Routes.Tasks.Work.{excuse_work, complete_work}
use kids_chores_api.Schemas.{
  CancelTaskRequest, ReviewRequest, ExcuseTaskRequest, CompleteTaskRequest, TaskInstanceResponse,
}
use kids_chores_api.Redis.Idempotency.{IdemKey}
use kids_chores_api.Redis.{Cache}
use kids_chores_api.Life.Routes.{with_definition-same}
use kids_chores_api.Routes.Tasks.{
  cancel_found, review_found, notifying, idempotent, excuse_found, complete_found,
  cancel_task_route, review_task, excuse_task, complete_task, get_instance_or_404,
}
use kids_chores_api.Prelude.{
  true, sym, not, subst, refl, [], inr, ==_iff, arith, inl, Bool-cases, ◌∷◌, List, ◌&&◌, ◌==◌,
  find?, some, Option, ◌≢◌, none, ◌⊎◌, ◌≡◌, All,
}
use kids_chores_api.Web.{on_session, require_parent, Web, World, ◌>>◌, or_raise, ◌>>=◌, raise_if}
use kids_chores_api.Session.{http, definition_in, err, instance_in, with_definition, Db, Result}
use kids_chores_api.Models.{
  Time, is_parent, is_teen, TaskDefinition, TaskInstance, Household, Member, RowId, MemberRole,
}

-- No task of this id is of a definition of the household.
abbrev pub IsForeign : RowId → RowId → Db → Type 0
IsForeign id household_id db =
    All
      (λ (i : TaskInstance).
        i.id ≡ id
        → All (λ (d : TaskDefinition). d.id ≡ i.definition_id → d.household_id ≢ household_id)
            db.task_definitions)
      db.task_instances

-- No task of this id is assigned to the member.
abbrev pub IsAnothers : RowId → RowId → Db → Type 0
IsAnothers id member_id db =
    All (λ (i : TaskInstance). i.id ≡ id → i.assignee_id ≢ member_id) db.task_instances

-- The task is not of the caller's household, or the caller is a teen and the task is not theirs.
abbrev pub IsBarred : RowId → Member → Household → Db → Type 0
IsBarred id member household db =
    IsForeign id household.id db ⊎ ((member.role ≡ MemberRole.teen) × IsAnothers id member.id db)

-- Refused with 404 or 403, and nothing is touched.
abbrev pub IsRefused : {S A : Type 0} → Result A × World S → World S → Type 0
IsRefused r w = (r ≡ (err (http 404), w)) ⊎ (r ≡ (err (http 403), w))

module _ (household_id : RowId) (db : Db) where
  with_definition-none :
      (i : TaskInstance)
      → All
          (λ (d : TaskDefinition). d.id ≡ i.definition_id → d.household_id ≢ household_id)
          db.task_definitions
      → with_definition household_id db i ≡ none
  unfolding with_definition definition_in
  with_definition-none i foreign = rows db.task_definitions foreign
    where
      rows :
          (ds : List TaskDefinition)
          → All (λ (d : TaskDefinition). d.id ≡ i.definition_id → d.household_id ≢ household_id) ds
          → elim (find?
                (λ (d : TaskDefinition). d.id == i.definition_id && d.household_id == household_id)
                ds)
              as (λ _. Option (TaskInstance × TaskDefinition)) [
                | none ↦ none
                | some d ↦ some (i, d)
              ]
            ≡ none
      rows [] f = refl
      rows (d ∷ ds) f =
          elim (Bool-cases (d.id == i.definition_id && d.household_id == household_id)) [
            | inl here ↦ absurd (ground (arith, f.0, here))
            | inr there ↦ rw there (rows ds f.1)
          ]

  instance_in-none :
      (id : RowId) → IsForeign id household_id db → instance_in id household_id db ≡ none
  unfolding instance_in
  instance_in-none id foreign = rows db.task_instances foreign
    where
      rows :
          (is : List TaskInstance)
          → All
              (λ (i : TaskInstance).
                i.id ≡ id
                → All
                    (λ (d : TaskDefinition). d.id ≡ i.definition_id → d.household_id ≢ household_id)
                    db.task_definitions)
              is
          → elim (find? (λ (i : TaskInstance). i.id == id) is)
              as (λ _. Option (TaskInstance × TaskDefinition)) [
                | none ↦ none
                | some i ↦ with_definition household_id db i
              ]
            ≡ none
      rows [] f = refl
      rows (i ∷ is) f = elim (Bool-cases (i.id == id)) [
        | inl here ↦ rw here (with_definition-none i (f.0 ((==_iff i.id id).0 here)))
        | inr there ↦ rw there (rows is f.1)
      ]

  -- The instance that is found is a row of that id.
  instance_in-All :
      (P : TaskInstance → Type 0) (id : RowId)
      → All (λ (i : TaskInstance). i.id ≡ id → P i) db.task_instances
      → {i : TaskInstance} {d : TaskDefinition} → instance_in id household_id db ≡ some (i, d)
      → P i
  unfolding instance_in
  instance_in-All P id all {i} {d} = rows db.task_instances all
    where
      rows :
          (is : List TaskInstance)
          → All (λ (x : TaskInstance). x.id ≡ id → P x) is
          → elim (find? (λ (x : TaskInstance). x.id == id) is)
              as (λ _. Option (TaskInstance × TaskDefinition)) [
                | none ↦ none
                | some x ↦ with_definition household_id db x
              ]
            ≡ some (i, d)
          → P i
      rows [] f found = cc
      rows (x ∷ is) f found = elim (Bool-cases (x.id == id)) [
        | inl here ↦
            subst P (with_definition-same household_id db x (rw here at found))
              (f.0 ((==_iff x.id id).0 here))
        | inr there ↦ rows is f.1 (rw there at found)
      ]

module _ {S A : Type 0} (id : RowId) (household : Household) (w : World S) where
  -- Nothing is run after a task that is not found.
  not_found :
      (rest : TaskInstance × TaskDefinition → Web S A)
      → instance_in id household.id w.session.current ≡ none
      → (get_instance_or_404 id household >>= rest) w ≡ (err (http 404), w)
  unfolding get_instance_or_404
  not_found rest absent =
      subst
        (λ (o : Option (TaskInstance × TaskDefinition)).
          (or_raise o (http 404) >>= rest) w ≡ (err (http 404), w))
        (sym absent) refl

  -- The guard of the requests that a teen may make.
  guarded :
      Member → (TaskInstance × TaskDefinition → Web S A) → TaskInstance × TaskDefinition → Web S A
  guarded member rest found =
      raise_if (is_teen member.role && not (found.0.assignee_id == member.id)) (http 403)
      >> rest found

  guarded-IsRefused :
      (member : Member) (rest : TaskInstance × TaskDefinition → Web S A)
      → IsBarred id member household w.session.current
      → IsRefused ((get_instance_or_404 id household >>= guarded member rest) w) w
  unfolding get_instance_or_404 guarded
  guarded-IsRefused member rest (inl foreign) =
      inl (
        not_found (guarded member rest)
          (instance_in-none household.id w.session.current id foreign))
  guarded-IsRefused member rest (inr (role, other)) =
      go (instance_in id household.id w.session.current) refl
    where
      go :
          (o : Option (TaskInstance × TaskDefinition))
          → instance_in id household.id w.session.current ≡ o
          → IsRefused ((get_instance_or_404 id household >>= guarded member rest) w) w
      go none absent = inl (not_found (guarded member rest) absent)
      go (some (i, d)) found =
          let theirs : i.assignee_id ≢ member.id =
            instance_in-All household.id w.session.current
              (λ (x : TaskInstance). x.assignee_id ≢ member.id) id other found in
          let guard : (is_teen member.role && not (i.assignee_id == member.id)) ≡ true =
            rw role (ground (arith, theirs)) in
          inr (
            subst
              (λ (o : Option (TaskInstance × TaskDefinition)).
                (or_raise o (http 404) >>= guarded member rest) w ≡ (err (http 403), w))
              (sym found) (rw guard refl))

  -- The guard of the requests that only a parent may make.
  parents-IsRefused :
      (member : Member) (rest : Member → TaskInstance × TaskDefinition → Web S A)
      → IsBarred id member household w.session.current
      → IsRefused ((require_parent member >>= λ p. get_instance_or_404 id household >>= rest p) w) w
  unfolding require_parent
  parents-IsRefused member rest barred = elim (Bool-cases (is_parent member.role)) [
    | inl parent_role ↦ rw parent_role (go barred parent_role)
    | inr teen_role ↦ rw teen_role (inr refl)
  ]
    where
      go :
          IsBarred id member household w.session.current
          → is_parent member.role ≡ true
          → IsRefused ((get_instance_or_404 id household >>= rest member) w) w
      go (inl foreign) p =
          inl (not_found (rest member) (instance_in-none household.id w.session.current id foreign))
      go (inr (role, other)) p = cc (rw role at p)

module _ {J : Type 0} (C : Cache IdemKey J) (serialize : TaskInstanceResponse → J)
    (deserialize : J → TaskInstanceResponse) (id : RowId) (member : Member) (household : Household)
    (now : Time) (w : World C.Store) where
  -- Nobody can act on a task whose definition is of another household, and no teen on a task that is
  -- assigned to another: whatever the body, each of the four requests on a task (complete, excuse,
  -- review, cancel) is then refused with 404 or 403, and the database, the cache and the pushes stay
  -- as they were.
  pub task_routes-IsRefused :
      IsBarred id member household w.session.current
      → ((body : CompleteTaskRequest)
          → IsRefused (complete_task C serialize deserialize id body member household now w) w)
        × ((body : ExcuseTaskRequest)
            → IsRefused (excuse_task C serialize deserialize id body member household now w) w)
        × ((body : ReviewRequest)
            → IsRefused (review_task C serialize deserialize id body member household now w) w)
        × ((body : CancelTaskRequest)
            → IsRefused
                (cancel_task_route C serialize deserialize id body member household now w)
                w)
  unfolding complete_task excuse_task review_task cancel_task_route complete_found excuse_found
      guarded
  task_routes-IsRefused barred = (
    λ body.
        guarded-IsRefused id household w member
          (λ found.
            idempotent C serialize deserialize member body.idempotency_key
              (on_session (complete_work found.0 found.1 member household body.note now)) now)
          barred,
    λ body.
        guarded-IsRefused id household w member
          (λ found.
            idempotent C serialize deserialize member body.idempotency_key
              (notifying (on_session (excuse_work found.0 member body.excuse_text now))
                (λ _. notify_new_excuse household.id member.display_name found.1.title))
              now)
          barred,
    λ body.
        parents-IsRefused id household w member
          (λ parent. review_found C serialize deserialize body parent household now) barred,
    λ body.
        parents-IsRefused id household w member
          (λ parent. cancel_found C serialize deserialize body parent now) barred,
  )
