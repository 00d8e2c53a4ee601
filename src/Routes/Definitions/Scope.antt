-- ===== src/Routes/Definitions/Scope.antt =====
-- Whom a task definition may be assigned to.
use kids_chores_api.Generation.Upsert.{should_generate-Reads}
use kids_chores_api.Routes.Definitions.{
  put_definition, definition_of, changed_definition, get_definition_or_404, first_day,
  insert_and_generate, archive_definition, update_definition, create_definition,
}
use kids_chores_api.Schemas.{TaskDefinitionUpdate, TaskDefinitionCreate}
use kids_chores_api.Generation.{
  new_instance, taken, should_generate_for_date, insert_new, upsert_due, Date,
  upsert_instance_for_date, Calendar,
}
use kids_chores_api.Prelude.{
  find?-All, suc, is_none, false, sym, true, ap, if◌then◌else◌, [], ◌≢◌, subst, refl, inr, ◌∙◌,
  ◌&&◌, none, Text, inl, ◌==◌, Bool-cases, some, ◌∷◌, find?, ◌≡◌, Bool, All, Option, List,
}
use kids_chores_api.Models.{
  ScheduleType, TaskInstance, Household, Time, Member, TaskDefinition, RowId,
}
use kids_chores_api.Session.{
  http, raise_if, ◌>>◌, modify, member_in, definition_in, uuid, value_error, pure, err, ok, Result,
  or_raise, Error, Session, ◌>>=◌, update_row, Action, Db,
}

abbrev pub IsAssigned : List Member → TaskDefinition → Type 0
IsAssigned members d =
    find? (λ (m : Member). m.id == d.assignee_id && m.household_id == d.household_id) members ≢ none

-- Every definition is assigned to a member of its own household.
abbrev pub AllAssigned : Db → Type 0
AllAssigned db = All (IsAssigned db.members) db.task_definitions

module _ {ℓ} {A : Type ℓ} (id : A → RowId) (P : A → Type 0) where
  All-update_row : (r : A) (rows : List A) → P r → All P rows → All P (update_row id r rows)
  unfolding update_row
  All-update_row r [] new all = tt
  All-update_row r (x ∷ rows) new all = elim (Bool-cases (id x == id r)) [
    | inl here ↦ rw here (new, all.1)
    | inr there ↦ rw there (all.0, All-update_row r rows new all.1)
  ]

-- An action that leaves the definitions and the members alone.
abbrev Keeps : {A : Type 0} → Action A → Type 0
Keeps m =
    (s : Session)
    → ((m s).1.current.task_definitions ≡ s.current.task_definitions)
      × ((m s).1.current.members ≡ s.current.members)

module _ {A B : Type 0} (m : Action A) (f : A → Action B) where
  bind-Keeps : Keeps m → ((a : A) → Keeps (f a)) → Keeps (m >>= f)
  bind-Keeps h k s = go (m s) (h s)
    where
      go :
          (r : Result A × Session)
          → (r.1.current.task_definitions ≡ s.current.task_definitions)
            × (r.1.current.members ≡ s.current.members)
          → let t = (((λ (u : Session). r) >>= f) s).1 in
            (t.current.task_definitions ≡ s.current.task_definitions)
            × (t.current.members ≡ s.current.members)
      go (ok a, t) (d, e) = ((k a t).0 ∙ d, (k a t).1 ∙ e)
      go (err e', t) h' = h'

or_raise-Keeps : {A : Type 0} (o : Option A) (e : Error) → Keeps (or_raise o e)
or_raise-Keeps none e s = (refl, refl)
or_raise-Keeps (some a) e s = (refl, refl)

insert_new-Keeps : (i : TaskInstance) → Keeps (insert_new i)
unfolding insert_new
insert_new-Keeps i s = elim (Bool-cases (taken i.definition_id i.due_at s.current.task_instances)) [
  | inl there ↦ rw there (refl, refl)
  | inr free ↦ rw free (refl, refl)
]

module _ (calendar : Calendar) (defn : TaskDefinition) where
  upsert_due-Keeps :
      (day : Date) (timezone : Text) (now : Time)
      → Keeps (upsert_due calendar defn day timezone now)
  unfolding upsert_due
  upsert_due-Keeps day timezone now =
      bind-Keeps (or_raise (calendar.due_at timezone day defn.due_time) value_error)
        (λ due. uuid >>= λ id. insert_new (new_instance defn due now id))
        (or_raise-Keeps (calendar.due_at timezone day defn.due_time) value_error)
        (λ due.
          bind-Keeps uuid (λ id. insert_new (new_instance defn due now id)) (λ s. (refl, refl))
            (λ id. insert_new-Keeps (new_instance defn due now id)))

  upsert-Keeps :
      (day : Date) (timezone : Text) (now : Time)
      → Keeps (upsert_instance_for_date calendar defn day timezone now)
  unfolding upsert_instance_for_date
  upsert-Keeps day timezone now =
      bind-Keeps (should_generate_for_date calendar defn day)
        (λ due. if due then upsert_due calendar defn day timezone now else pure tt)
        (λ s. (
          ap (λ (r : Result Bool × Session). r.1.current.task_definitions)
              (should_generate-Reads calendar defn day s s),
          ap (λ (r : Result Bool × Session). r.1.current.members)
              (should_generate-Reads calendar defn day s s),
        ))
        go
    where
      go : (due : Bool) → Keeps (if due then upsert_due calendar defn day timezone now else pure tt)
      go true = upsert_due-Keeps day timezone now
      go false = λ s. (refl, refl)

pub data Change : Type 0 where
  creating : TaskDefinitionCreate → Member → Change
  updating : RowId → TaskDefinitionUpdate → Change
  archiving : RowId → Change

module _ (calendar : Calendar) (household : Household) (now : Time) where
  abbrev pub change : Change → Session → Session
  change (creating body parent) s = (create_definition calendar body parent household now s).1
  change (updating id body) s = (update_definition id body household s).1
  change (archiving id) s = (archive_definition id household now s).1

  first_day-Keeps :
      (t : ScheduleType) (start : Text) → Keeps (first_day calendar t start household now)
  unfolding first_day
  first_day-Keeps ScheduleType.one_time start =
      or_raise-Keeps (calendar.parse_date start) value_error
  first_day-Keeps ScheduleType.daily start = λ s. (refl, refl)
  first_day-Keeps ScheduleType.weekdays start = λ s. (refl, refl)
  first_day-Keeps ScheduleType.weekly start = λ s. (refl, refl)

  generated-Keeps :
      (d : TaskDefinition)
      → Keeps (do
        target_date ← first_day calendar d.schedule_type d.start_date household now
        upsert_instance_for_date calendar d target_date household.timezone now
        pure d)
  generated-Keeps d =
      bind-Keeps (first_day calendar d.schedule_type d.start_date household now)
        (λ day. upsert_instance_for_date calendar d day household.timezone now >>= λ _. pure d)
        (first_day-Keeps d.schedule_type d.start_date)
        (λ day.
          bind-Keeps (upsert_instance_for_date calendar d day household.timezone now) (λ _. pure d)
            (upsert-Keeps calendar d day household.timezone now) (λ _ s. (refl, refl)))

  transfer :
      {ds : List TaskDefinition} {ms : List Member} (t : Session)
      → (t.current.task_definitions ≡ ds) × (t.current.members ≡ ms)
      → All (IsAssigned ms) ds
      → AllAssigned t.current
  transfer {ds} {ms} t (d, e) all =
      subst (λ x. All (IsAssigned t.current.members) x) (sym d)
        (subst (λ x. All (IsAssigned x) ds) (sym e) all)

  some_not_none : {A : Type 0} {o : Option A} {a : A} → o ≡ some a → o ≢ none
  some_not_none e h = cc

  inserted-AllAssigned :
      (body : TaskDefinitionCreate) (parent m : Member) (s : Session)
      → member_in body.assignee_id household.id s.current ≡ some m
      → AllAssigned s.current
      → AllAssigned (insert_and_generate calendar body parent household now s).1.current
  unfolding insert_and_generate member_in
  inserted-AllAssigned body parent m s found all =
      let d = definition_of body parent household (s.uuids s.drawn) s.tx_time in
      let s2 : Session = record s {
        current = record s.current { task_definitions = d ∷ s.current.task_definitions };
        drawn = suc s.drawn;
      } in
      transfer (insert_and_generate calendar body parent household now s).1 (generated-Keeps d s2)
        (some_not_none found, all)

  create-AllAssigned :
      (body : TaskDefinitionCreate) (parent : Member) (s : Session)
      → AllAssigned s.current
      → AllAssigned (create_definition calendar body parent household now s).1.current
  unfolding create_definition
  create-AllAssigned body parent s all = go (member_in body.assignee_id household.id s.current) refl
    where
      go :
          (o : Option Member)
          → member_in body.assignee_id household.id s.current ≡ o
          → AllAssigned
              ((raise_if (is_none o) (http 422)
                  >> insert_and_generate calendar body parent household now)
                s).1.current
      go none e = all
      go (some m) e = inserted-AllAssigned body parent m s e all

  -- A definition that is found in the household and put back with its assignee is assigned as it was.
  put-AllAssigned :
      (id : RowId) (d e : TaskDefinition) (s : Session)
      → definition_in id household.id s.current ≡ some d
      → e.assignee_id ≡ d.assignee_id
      → e.household_id ≡ d.household_id
      → AllAssigned s.current
      → AllAssigned (modify (put_definition e) s).1.current
  unfolding definition_in
  put-AllAssigned id d e s found same_assignee same_household all =
      All-update_row (λ (r : TaskDefinition). r.id) (IsAssigned s.current.members) e
        s.current.task_definitions
        (rw (same_assignee, same_household)
          (find?-All (IsAssigned s.current.members) _ s.current.task_definitions all found))
        all

  -- Whatever a parent creates, changes or archives, and whether it succeeds or is refused: when every
  -- definition is assigned to a member of its own household, every definition still is.
  pub change-AllAssigned :
      (c : Change) (s : Session) → AllAssigned s.current → AllAssigned (change c s).current
  unfolding update_definition archive_definition get_definition_or_404 changed_definition
  change-AllAssigned (creating body parent) s all = create-AllAssigned body parent s all
  change-AllAssigned (updating id body) s all = go (definition_in id household.id s.current) refl
    where
      go :
          (o : Option TaskDefinition)
          → definition_in id household.id s.current ≡ o
          → AllAssigned
              ((or_raise o (http 404) >>= λ d.
                  modify (put_definition (changed_definition body d))
                  >> pure (changed_definition body d))
                s).1.current
      go none e = all
      go (some d) e = put-AllAssigned id d (changed_definition body d) s e refl refl all
  change-AllAssigned (archiving id) s all = go (definition_in id household.id s.current) refl
    where
      go :
          (o : Option TaskDefinition)
          → definition_in id household.id s.current ≡ o
          → AllAssigned
              ((or_raise o (http 404) >>= λ d.
                  modify (put_definition (record d { archived_at = some now })))
                s).1.current
      go none e = all
      go (some d) e = put-AllAssigned id d (record d { archived_at = some now }) s e refl refl all
