-- ===== src/Generation/Presence.antt =====
-- An instance that is there stays, whatever else a night makes.
use kids_chores_api.Session.{ok, pure, Session}
use kids_chores_api.Prelude.{
  ◌&&◌, refl, ◌==◌, ◌||◌, false, arith, [], zero, inr, if◌then◌else◌, ◌∷◌, inl, true, suc,
  Option-cases, Bool, List, ℕ, Bool-cases, ◌≡◌, Text,
}
use kids_chores_api.Models.{TaskDefinition, TaskInstance, Time, RowId}
use kids_chores_api.Generation.{
  new_instance, should_generate_for_date, generation_horizon_days, Date, generate_days,
  generate_definitions, upsert_due, upsert_instance_for_date, taken, Calendar, insert_new,
}
use kids_chores_api.Session.Binds.{bind_keeps}
use kids_chores_api.Generation.Upsert.{should_generate-Reads}

-- An instance of a definition at a time is there.
abbrev pub Has : RowId → Time → Session → Type 0
Has k t s = taken k t s.current.task_instances ≡ true

or_true : (b : Bool) → (b || true) ≡ true
or_true true = refl
or_true false = refl

insert_new-Has :
    (i : TaskInstance) (k : RowId) (t : Time) (s : Session) → Has k t s → Has k t (insert_new i s).1
unfolding insert_new taken
insert_new-Has i k t s there =
    elim (Bool-cases (taken i.definition_id i.due_at s.current.task_instances)) [
      | inl known ↦ rw known there
      | inr free ↦ rw free (rw there (or_true (i.definition_id == k && i.due_at == t)))
    ]

pub insert_new-makes :
    (i : TaskInstance) (s : Session) → Has i.definition_id i.due_at (insert_new i s).1
unfolding insert_new taken
insert_new-makes i s = elim (Bool-cases (taken i.definition_id i.due_at s.current.task_instances)) [
  | inl known ↦ rw known known
  | inr free ↦ rw free (ground arith)
]

pub insert_new_returns : (i : TaskInstance) (s : Session) → (insert_new i s).0 ≡ ok tt
unfolding insert_new
insert_new_returns i s = refl

module _ (calendar : Calendar) (zone : Text) (now : Time) where
  module _ (k : RowId) (t : Time) where
    upsert_due-Has :
        (d : TaskDefinition) (day : Date) (s : Session)
        → Has k t s
        → Has k t (upsert_due calendar d day zone now s).1
    unfolding upsert_due
    upsert_due-Has d day s there = elim (Option-cases (calendar.due_at zone day d.due_time)) [
      | inl unread ↦ rw unread there
      | inr (due, read) ↦ rw read (
          insert_new-Has (new_instance d due now (s.uuids s.drawn)) k t
            (record s { drawn = suc s.drawn }) there)
    ]

    pub upsert-Has :
        (d : TaskDefinition) (day : Date) (s : Session)
        → Has k t s
        → Has k t (upsert_instance_for_date calendar d day zone now s).1
    unfolding upsert_instance_for_date
    upsert-Has d day s there =
        bind_keeps (Has k t) s (should_generate_for_date calendar d day)
          (λ due. if due then upsert_due calendar d day zone now else pure tt)
          (rw (should_generate-Reads calendar d day s s) there) if_due
      where
        if_due :
            (due : Bool) (u : Session)
            → Has k t u
            → Has k t ((if due then upsert_due calendar d day zone now else pure tt) u).1
        if_due true u h = upsert_due-Has d day u h
        if_due false u h = h

    pub days-Has :
        (d : TaskDefinition) (left : ℕ) (day : Date) (s : Session)
        → Has k t s
        → Has k t (generate_days calendar d left day zone now s).1
    unfolding generate_days
    days-Has d zero day s there = there
    days-Has d (suc left) day s there =
        bind_keeps (Has k t) s (upsert_instance_for_date calendar d day zone now)
          (λ _. generate_days calendar d left (suc day) zone now) (upsert-Has d day s there)
          (λ _ u h. days-Has d left (suc day) u h)

    pub definitions-Has :
        (ds : List TaskDefinition) (today : Date) (s : Session)
        → Has k t s
        → Has k t (generate_definitions calendar ds today zone now s).1
    unfolding generate_definitions
    definitions-Has [] today s there = there
    definitions-Has (d ∷ ds) today s there =
        bind_keeps (Has k t) s (generate_days calendar d generation_horizon_days today zone now)
          (λ _. generate_definitions calendar ds today zone now)
          (days-Has d generation_horizon_days today s there) (λ _ u h. definitions-Has ds today u h)
