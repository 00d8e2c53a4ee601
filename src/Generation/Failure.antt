-- ===== src/Generation/Failure.antt =====
-- What a definition whose end date cannot be read does to the nightly job.
use kids_chores_api.Session.Request.{get_db}
use kids_chores_api.Generation.Upsert.{should_generate-Reads}
use kids_chores_api.Generation.{
  scheduled, sweep, generate_all_households, within_end, from_start, live_definitions,
  generate_household_body, generate_for_household, Calendar, Date, should_generate_for_date,
  upsert_due, upsert_instance_for_date, generate_days, generate_definitions,
  generation_horizon_days, insert_new, new_instance,
}
use kids_chores_api.Session.{
  ◌>>◌, modify, uuid, Session, Result, ok, err, Error, Action, or_raise, pure, ◌>>=◌, value_error,
}
use kids_chores_api.Models.{Household, Time, TaskDefinition}
use kids_chores_api.Prelude.{
  ◌&&◌, sym, subst, ◌++◌, if◌then◌else◌, ℕ, zero, suc, ◌≡◌, refl, ap, ◌∙◌, Bool, true, false,
  Option, none, some, List, [], ◌∷◌, Text, ltb, is_empty,
}

-- A run that does not return.
abbrev pub Raises : {A : Type 0} → Result A × Session → Type 0
Raises (ok a, s) = ⊥
Raises (err e, s) = Unit

-- A run that leaves alone what is committed.
abbrev Uncommitted : {A : Type 0} → Action A → Type 0
Uncommitted m = (s : Session) → (m s).1.committed ≡ s.committed

module _ {A B : Type 0} (m : Action A) (f : A → Action B) where
  bind-Raises : (s : Session) → Raises (m s) → Raises ((m >>= f) s)
  bind-Raises s h = go (m s) h
    where
      go : (r : Result A × Session) → Raises r → Raises (((λ (t : Session). r) >>= f) s)
      go (ok a, t) h = absurd h
      go (err e, t) h = tt

  bind-stops : (s : Session) → Raises (m s) → ((m >>= f) s).1 ≡ (m s).1
  bind-stops s h = go (m s) h
    where
      go : (r : Result A × Session) → Raises r → (((λ (t : Session). r) >>= f) s).1 ≡ r.1
      go (ok a, t) h = absurd h
      go (err e, t) h = refl

  rest-Raises : (s : Session) → ((a : A) (t : Session) → Raises (f a t)) → Raises ((m >>= f) s)
  rest-Raises s h = go (m s)
    where
      go : (r : Result A × Session) → Raises (((λ (t : Session). r) >>= f) s)
      go (ok a, t) = h a t
      go (err e, t) = tt

  bind-Uncommitted : Uncommitted m → ((a : A) → Uncommitted (f a)) → Uncommitted (m >>= f)
  bind-Uncommitted h k s = go (m s) (h s)
    where
      go :
          (r : Result A × Session)
          → r.1.committed ≡ s.committed
          → (((λ (t : Session). r) >>= f) s).1.committed ≡ s.committed
      go (ok a, t) e = k a t ∙ e
      go (err x, t) e = e

or_raise-Uncommitted : {A : Type 0} (o : Option A) (e : Error) → Uncommitted (or_raise o e)
or_raise-Uncommitted none e s = refl
or_raise-Uncommitted (some a) e s = refl

module _ (calendar : Calendar) where
  should_generate-Uncommitted :
      (d : TaskDefinition) (day : Date) → Uncommitted (should_generate_for_date calendar d day)
  should_generate-Uncommitted d day s =
      ap (λ (r : Result Bool × Session). r.1.committed) (should_generate-Reads calendar d day s s)

  upsert_due-Uncommitted :
      (d : TaskDefinition) (day : Date) (timezone : Text) (now : Time)
      → Uncommitted (upsert_due calendar d day timezone now)
  unfolding upsert_due insert_new
  upsert_due-Uncommitted d day timezone now =
      bind-Uncommitted (or_raise (calendar.due_at timezone day d.due_time) value_error)
        (λ due. uuid >>= λ id. insert_new (new_instance d due now id))
        (or_raise-Uncommitted (calendar.due_at timezone day d.due_time) value_error) (λ due s. refl)

  upsert-Uncommitted :
      (d : TaskDefinition) (day : Date) (timezone : Text) (now : Time)
      → Uncommitted (upsert_instance_for_date calendar d day timezone now)
  unfolding upsert_instance_for_date
  upsert-Uncommitted d day timezone now =
      bind-Uncommitted (should_generate_for_date calendar d day)
        (λ due. if due then upsert_due calendar d day timezone now else pure tt)
        (should_generate-Uncommitted d day) if_due
    where
      if_due :
          (due : Bool)
          → Uncommitted (if due then upsert_due calendar d day timezone now else pure tt)
      if_due true = upsert_due-Uncommitted d day timezone now
      if_due false = λ s. refl

  days-Uncommitted :
      (d : TaskDefinition) (left : ℕ) (day : Date) (timezone : Text) (now : Time)
      → Uncommitted (generate_days calendar d left day timezone now)
  unfolding generate_days
  days-Uncommitted d zero day timezone now s = refl
  days-Uncommitted d (suc left) day timezone now s =
      bind-Uncommitted (upsert_instance_for_date calendar d day timezone now)
        (λ _. generate_days calendar d left (suc day) timezone now)
        (upsert-Uncommitted d day timezone now)
        (λ _. days-Uncommitted d left (suc day) timezone now) s

  definitions-Uncommitted :
      (ds : List TaskDefinition) (today : Date) (timezone : Text) (now : Time)
      → Uncommitted (generate_definitions calendar ds today timezone now)
  unfolding generate_definitions
  definitions-Uncommitted [] today timezone now s = refl
  definitions-Uncommitted (d ∷ ds) today timezone now s =
      bind-Uncommitted (generate_days calendar d generation_horizon_days today timezone now)
        (λ _. generate_definitions calendar ds today timezone now)
        (days-Uncommitted d generation_horizon_days today timezone now)
        (λ _. definitions-Uncommitted ds today timezone now) s

  -- A definition that has started and whose end date is a text that is no date.
  pub record IsUnreadable (d : TaskDefinition) (today : Date) : Type 0 where
    pub start : Date
    pub text : Text
    pub starts : calendar.parse_date d.start_date ≡ some start
    pub started : ltb today start ≡ false
    pub ends : d.end_date ≡ some text
    pub not_empty : is_empty text ≡ false
    pub no_date : calendar.parse_date text ≡ none

  module _ (d : TaskDefinition) (today : Date) (bad : IsUnreadable d today) where
    end-Raises : (s : Session) → Raises (within_end calendar (some bad.text) today s)
    unfolding within_end
    end-Raises s = rw (bad.not_empty, bad.no_date) tt

    start-Raises : (s : Session) → Raises (from_start calendar d today bad.start s)
    unfolding from_start
    start-Raises s = rw bad.started (
        bind-Raises (within_end calendar d.end_date today)
          (λ b. pure (b && scheduled d.schedule_type d.weekday_mask bad.start today)) s
          (rw bad.ends (end-Raises s)))

    should_generate-Raises : (s : Session) → Raises (should_generate_for_date calendar d today s)
    unfolding should_generate_for_date
    should_generate-Raises s =
        subst
          (λ (o : Option Date). Raises ((or_raise o value_error >>= from_start calendar d today) s))
          (sym bad.starts) (start-Raises s)

    days-Raises :
        (timezone : Text) (now : Time) (s : Session)
        → Raises (generate_days calendar d generation_horizon_days today timezone now s)
    unfolding generate_days upsert_instance_for_date
    days-Raises timezone now s =
        bind-Raises (upsert_instance_for_date calendar d today timezone now)
          (λ _. generate_days calendar d 13 (suc today) timezone now) s
          (bind-Raises (should_generate_for_date calendar d today)
            (λ due. if due then upsert_due calendar d today timezone now else pure tt) s
            (should_generate-Raises s))

    -- Wherever in the list the definition stands.
    definitions-Raises :
        (before after : List TaskDefinition) (timezone : Text) (now : Time) (s : Session)
        → Raises (generate_definitions calendar (before ++ d ∷ after) today timezone now s)
    unfolding generate_definitions
    definitions-Raises [] after timezone now s =
        bind-Raises (generate_days calendar d generation_horizon_days today timezone now)
          (λ _. generate_definitions calendar after today timezone now) s
          (days-Raises timezone now s)
    definitions-Raises (x ∷ before) after timezone now s =
        rest-Raises (generate_days calendar x generation_horizon_days today timezone now)
          (λ _. generate_definitions calendar (before ++ d ∷ after) today timezone now) s
          (λ _ t. definitions-Raises before after timezone now t)

  rolled_back :
      (r : Result Unit × Session) (s : Session)
      → Raises r
      → r.1.committed ≡ s.committed
      → Raises (get_db (λ (t : Session). r) s)
        × ((get_db (λ (t : Session). r) s).1.current ≡ s.committed)
  unfolding get_db
  rolled_back (ok a, t) s h e = absurd h
  rolled_back (err x, t) s h e = (tt, e)

  module _ (h : Household) (now : Time) where
    abbrev work : List TaskDefinition → Action Unit
    work definitions =
        generate_definitions calendar definitions (calendar.local_date h.timezone now) h.timezone
          now
        >> modify (sweep definitions h.grace_period_hours now)

    work-Uncommitted : (definitions : List TaskDefinition) → Uncommitted (work definitions)
    work-Uncommitted definitions =
        bind-Uncommitted
          (generate_definitions calendar definitions (calendar.local_date h.timezone now) h.timezone
            now)
          (λ _. modify (sweep definitions h.grace_period_hours now))
          (definitions-Uncommitted definitions (calendar.local_date h.timezone now) h.timezone now)
          (λ _ s. refl)

    household-Raises :
        (d : TaskDefinition) (before after : List TaskDefinition) (s : Session)
        → IsUnreadable d (calendar.local_date h.timezone now)
        → live_definitions h.id s.current ≡ before ++ d ∷ after
        → Raises (generate_for_household calendar h now s)
          × ((generate_for_household calendar h now s).1.current ≡ s.committed)
    unfolding generate_for_household generate_household_body get_db
    household-Raises d before after s bad live =
        rolled_back (work (live_definitions h.id s.current) s) s
          (rw live (
            bind-Raises
              (generate_definitions calendar (before ++ d ∷ after)
                (calendar.local_date h.timezone now) h.timezone now)
              (λ _. modify (sweep (before ++ d ∷ after) h.grace_period_hours now)) s
              (definitions-Raises d (calendar.local_date h.timezone now) bad before after h.timezone
                now s)))
          (work-Uncommitted (live_definitions h.id s.current) s)

    -- One live definition that has started and whose end date is no date stops the whole nightly job
    -- at its household: the job raises, nothing that it did for the household is kept, and no
    -- household after it is worked on.
    pub job_stops :
        (d : TaskDefinition) (before after : List TaskDefinition) (hs : List Household)
        (s : Session)
        → IsUnreadable d (calendar.local_date h.timezone now)
        → live_definitions h.id s.current ≡ before ++ d ∷ after
        → Raises (generate_all_households calendar (h ∷ hs) now s)
          × ((generate_all_households calendar (h ∷ hs) now s).1.current ≡ s.committed)
    unfolding generate_all_households
    job_stops d before after hs s bad live =
        let (raises, back) = household-Raises d before after s bad live in
        (
          bind-Raises (generate_for_household calendar h now)
              (λ _. generate_all_households calendar hs now) s raises,
          ap (λ (t : Session). t.current)
                (bind-stops (generate_for_household calendar h now)
                  (λ _. generate_all_households calendar hs now) s raises)
              ∙ back,
        )
