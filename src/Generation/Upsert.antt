-- ===== src/Generation/Upsert.antt =====
-- Making the instance of a day again changes nothing.
use kids_chores_api.Generation.{
  new_instance, upsert_due, upsert_instance_for_date, scheduled, insert_new, taken, from_start,
  Calendar, Date, should_generate_for_date, within_end,
}
use kids_chores_api.Session.{
  uuid, ◌>>=◌, err, Action, ok, pure, or_raise, Session, Result, value_error,
}
use kids_chores_api.Session.Reads.{or_raise-Reads, bind-Reads, Reads}
use kids_chores_api.Models.{Time, TaskInstance, TaskDefinition}
use kids_chores_api.Prelude.{
  suc, false, sym, if◌then◌else◌, subst, arith, true, ◌≡◌, ◌∷◌, List, ◌&&◌, ltb, Bool, refl, inl,
  inr, Option, none, some, leb, Text, is_missing, Bool-cases,
}

module _ (calendar : Calendar) where
  -- The schedule is read off the definition alone.
  due_on : TaskDefinition → Date → Session → Result Bool
  due_on defn day s = (should_generate_for_date calendar defn day s).0

  within_end-Reads :
      (end_date : Option Text) (day : Date) → Reads (within_end calendar end_date day)
  unfolding within_end
  within_end-Reads none day = λ s t. refl
  within_end-Reads (some text) day = elim (Bool-cases (is_missing (some text))) [
    | inl blank ↦ rw blank (λ s t. refl)
    | inr said ↦ rw said (
        bind-Reads (or_raise (calendar.parse_date text) value_error) (λ end. pure (leb day end))
          (or_raise-Reads (calendar.parse_date text) value_error) (λ end s t. refl))
  ]

  from_start-Reads :
      (defn : TaskDefinition) (day start : Date) → Reads (from_start calendar defn day start)
  unfolding from_start
  from_start-Reads defn day start = elim (Bool-cases (ltb day start)) [
    | inl early ↦ rw early (λ s t. refl)
    | inr open_yet ↦ rw open_yet (
        bind-Reads (within_end calendar defn.end_date day)
          (λ b. pure (b && scheduled defn.schedule_type defn.weekday_mask start day))
          (within_end-Reads defn.end_date day) (λ b s t. refl))
  ]

  pub should_generate-Reads :
      (defn : TaskDefinition) (day : Date) → Reads (should_generate_for_date calendar defn day)
  unfolding should_generate_for_date
  should_generate-Reads defn day =
      bind-Reads (or_raise (calendar.parse_date defn.start_date) value_error)
        (from_start calendar defn day)
        (or_raise-Reads (calendar.parse_date defn.start_date) value_error)
        (from_start-Reads defn day)

  taken_self :
      (i : TaskInstance) (rows : List TaskInstance)
      → taken i.definition_id i.due_at (i ∷ rows) ≡ true
  unfolding taken
  taken_self i rows = ground arith

  -- A second insertion for the same day of the same definition does nothing.
  insert_again :
      (i j : TaskInstance) (s : Session)
      → j.definition_id ≡ i.definition_id
      → j.due_at ≡ i.due_at
      → let after = (insert_new i s).1 in (insert_new j after).1.current ≡ after.current
  unfolding insert_new
  insert_again i j s same_definition same_time =
      rw (same_definition, same_time)
        (elim (Bool-cases (taken i.definition_id i.due_at s.current.task_instances)) [
          | inl there ↦ rw there (rw there refl)
          | inr free ↦ rw free (rw (taken_self i s.current.task_instances) refl)
        ])

  upsert_due_again :
      (defn : TaskDefinition) (day : Date) (timezone : Text) (now later : Time) (s : Session)
      → (upsert_due calendar defn day timezone now s).0 ≡ ok tt
      → let after = (upsert_due calendar defn day timezone now s).1 in
        (upsert_due calendar defn day timezone later after).1.current ≡ after.current
  unfolding upsert_due
  upsert_due_again defn day timezone now later s done =
      go (calendar.due_at timezone day defn.due_time) done
    where
      upsert : Option Time → Time → Action Unit
      upsert o t = or_raise o value_error >>= λ due_utc.
          uuid >>= λ id. insert_new (new_instance defn due_utc t id)

      go :
          (o : Option Time)
          → (upsert o now s).0 ≡ ok tt
          → (upsert o later (upsert o now s).1).1.current ≡ (upsert o now s).1.current
      go none e = cc
      go (some due) e =
          insert_again (new_instance defn due now (s.uuids s.drawn))
            (new_instance defn due later (s.uuids (suc s.drawn))) (record s { drawn = suc s.drawn })
            refl refl

  module _ (defn : TaskDefinition) (day : Date) (timezone : Text) (now later : Time) where
    abbrev upsert_if : Time → Result Bool × Session → Result Unit × Session
    upsert_if t r = elim r.0 as (λ _. Result Unit × Session) [
      | ok due ↦ (if due then upsert_due calendar defn day timezone t else pure tt) r.1
      | err e ↦ (err e, r.1)
    ]

    upsert_if_again :
        (r : Result Bool) (s : Session)
        → (upsert_if now (r, s)).0 ≡ ok tt
        → let after = (upsert_if now (r, s)).1 in
          (upsert_if later (r, after)).1.current ≡ after.current
    upsert_if_again (ok true) s done = upsert_due_again defn day timezone now later s done
    upsert_if_again (ok false) s done = refl
    upsert_if_again (err e) s done = cc

    -- Once the instance of a day has been made, making it again, at any time, changes no table.
    pub upsert_again :
        (s : Session)
        → (upsert_instance_for_date calendar defn day timezone now s).0 ≡ ok tt
        → let after = (upsert_instance_for_date calendar defn day timezone now s).1 in
          (upsert_instance_for_date calendar defn day timezone later after).1.current
          ≡ after.current
    unfolding upsert_instance_for_date due_on
    upsert_again s =
        subst
          (λ (x : Result Bool × Session).
            (upsert_if now x).0 ≡ ok tt
            → (upsert_if later
                (should_generate_for_date calendar defn day (upsert_if now x).1)).1.current
              ≡ (upsert_if now x).1.current)
          (sym (should_generate-Reads defn day s s))
          (λ done.
            subst
              (λ (y : Result Bool × Session).
                (upsert_if later y).1.current ≡ (upsert_if now (due_on defn day s, s)).1.current)
              (sym (should_generate-Reads defn day (upsert_if now (due_on defn day s, s)).1 s))
              (upsert_if_again (due_on defn day s) s done))
