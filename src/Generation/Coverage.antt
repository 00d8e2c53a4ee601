-- ===== src/Generation/Coverage.antt =====
-- The nightly job makes the instance of every day ahead that a schedule calls for.
use kids_chores_api.Generation.Presence.{Has, insert_new-makes, insert_new_returns, days-Has}
use kids_chores_api.Session.{Result, ok, pure, Session}
use kids_chores_api.Prelude.{
  subst, ==_iff, ◌+◌, ◌<◌, ◌≤◌, none, ap, leb, Option, ltb, ◌&&◌, refl, ◌∙◌, ◌==◌, false, arith,
  zero, is_missing, inr, if◌then◌else◌, some, inl, true, suc, Bool, ℕ, Bool-cases, ◌≡◌, Text,
}
use kids_chores_api.Models.{TaskDefinition, Time}
use kids_chores_api.Generation.{
  scheduled, within_end, from_start, new_instance, should_generate_for_date, Date, generate_days,
  upsert_due, upsert_instance_for_date, Calendar,
}
use kids_chores_api.Session.Binds.{after_ok, bind-ok}
use kids_chores_api.Generation.Upsert.{should_generate-Reads}

module _ (calendar : Calendar) (zone : Text) (now : Time) where
  -- The texts of a definition can be read.
  pub record IsReadable (d : TaskDefinition) : Type 0 where
    pub start : Date
    pub starts : calendar.parse_date d.start_date ≡ some start
    pub ends :
        (text : Text)
        → d.end_date ≡ some text
        → is_missing (some text) ≡ false
        → (end : Date) × (calendar.parse_date text ≡ some end)
    pub due : (day : Date) → (t : Time) × (calendar.due_at zone day d.due_time ≡ some t)

  upsert-makes :
      (d : TaskDefinition) (day : Date) (t : Time) (s : Session)
      → (should_generate_for_date calendar d day s).0 ≡ ok true
      → calendar.due_at zone day d.due_time ≡ some t
      → ((upsert_instance_for_date calendar d day zone now s).0 ≡ ok tt)
        × Has d.id t (upsert_instance_for_date calendar d day zone now s).1
  unfolding upsert_instance_for_date upsert_due
  upsert-makes d day t s due read =
      let asked : should_generate_for_date calendar d day s ≡ (ok true, s) =
        should_generate-Reads calendar d day s s ∙ (λ i. (due i, s)) in
      let made : upsert_instance_for_date calendar d day zone now s
          ≡ upsert_due calendar d day zone now s =
        bind-ok (should_generate_for_date calendar d day)
          (λ called_for. if called_for then upsert_due calendar d day zone now else pure tt) s
          asked in
      rw made (
        rw read (
          insert_new_returns (new_instance d t now (s.uuids s.drawn))
              (record s { drawn = suc s.drawn }),
          insert_new-makes (new_instance d t now (s.uuids s.drawn))
              (record s { drawn = suc s.drawn }),
        ))

  end_decides :
      (o : Option Text) (day : Date) (s : Session)
      → ((text : Text)
          → o ≡ some text
          → is_missing (some text) ≡ false
          → (end : Date) × (calendar.parse_date text ≡ some end))
      → (b : Bool) × (within_end calendar o day s ≡ (ok b, s))
  unfolding within_end
  end_decides none day s ends = (true, refl)
  end_decides (some text) day s ends = elim (Bool-cases (is_missing (some text))) [
    | inl blank ↦ (true, rw blank refl)
    | inr said ↦ let (end, read) = ends text refl said in (leb day end, rw said (rw read refl))
  ]

  -- Whether a day is due is decided.
  decides :
      (d : TaskDefinition) (day : Date) (s : Session)
      → IsReadable d
      → (b : Bool) × ((should_generate_for_date calendar d day s).0 ≡ ok b)
  unfolding should_generate_for_date from_start
  decides d day s readable = elim (Bool-cases (ltb day readable.start)) [
    | inl early ↦ (false, rw (readable.starts, early) refl)
    | inr begun ↦
        let (b, ended) = end_decides d.end_date day s readable.ends in
        (
          b && scheduled d.schedule_type d.weekday_mask readable.start day,
          rw (readable.starts, begun)
              (ap (λ (r : Result Bool × Session). r.0)
                (bind-ok (within_end calendar d.end_date day)
                  (λ going.
                    pure (going && scheduled d.schedule_type d.weekday_mask readable.start day))
                  s ended)),
        )
  ]

  upsert_returns :
      (d : TaskDefinition) (day : Date) (s : Session)
      → IsReadable d
      → (upsert_instance_for_date calendar d day zone now s).0 ≡ ok tt
  unfolding upsert_instance_for_date
  upsert_returns d day s readable = go (decides d day s readable) (readable.due day)
    where
      go :
          (b : Bool) × ((should_generate_for_date calendar d day s).0 ≡ ok b)
          → (t : Time) × (calendar.due_at zone day d.due_time ≡ some t)
          → (upsert_instance_for_date calendar d day zone now s).0 ≡ ok tt
      go (true, due) (t, read) = (upsert-makes d day t s due read).0
      go (false, rest) (t, read) =
          ap (λ (r : Result Unit × Session). r.0)
            (bind-ok (should_generate_for_date calendar d day)
              (λ called_for. if called_for then upsert_due calendar d day zone now else pure tt) s
              (should_generate-Reads calendar d day s s ∙ (λ i. (rest i, s))))

  -- The answer on a day is the same in every session.
  pub due_anywhere :
      (d : TaskDefinition) (day : Date) (s u : Session)
      → (should_generate_for_date calendar d day s).0 ≡ ok true
      → (should_generate_for_date calendar d day u).0 ≡ ok true
  due_anywhere d day s u due =
      ap (λ (r : Result Bool × Session). r.0) (should_generate-Reads calendar d day u s) ∙ due

  pub days_return :
      (d : TaskDefinition) (left : ℕ) (day : Date) (s : Session)
      → IsReadable d
      → (generate_days calendar d left day zone now s).0 ≡ ok tt
  unfolding generate_days
  days_return d zero day s readable = refl
  days_return d (suc left) day s readable =
      ap (λ (r : Result Unit × Session). r.0)
        (bind-ok (upsert_instance_for_date calendar d day zone now)
          (λ _. generate_days calendar d left (suc day) zone now) s
          (after_ok (upsert_instance_for_date calendar d day zone now) s
            (upsert_returns d day s readable)))
      ∙ days_return d left (suc day) _ readable

  pub days-make :
      (d : TaskDefinition) (left : ℕ) (day target : Date) (t : Time) (s : Session)
      → IsReadable d
      → day ≤ target
      → target < day + left
      → (should_generate_for_date calendar d target s).0 ≡ ok true
      → calendar.due_at zone target d.due_time ≡ some t
      → Has d.id t (generate_days calendar d left day zone now s).1
  unfolding generate_days
  days-make d zero day target t s readable from_day until due read = absurd (omega arith)
  days-make d (suc left) day target t s readable from_day until due read =
      let u = (upsert_instance_for_date calendar d day zone now s).1 in
      let first : generate_days calendar d (suc left) day zone now s
          ≡ generate_days calendar d left (suc day) zone now u =
        bind-ok (upsert_instance_for_date calendar d day zone now)
          (λ _. generate_days calendar d left (suc day) zone now) s
          (after_ok (upsert_instance_for_date calendar d day zone now) s
            (upsert_returns d day s readable)) in
      rw first (elim (Bool-cases (target == day)) [
        | inl here ↦
            let same : target ≡ day = (==_iff target day).0 here in
            days-Has calendar zone now d.id t d left (suc day) u
              (upsert-makes d day t s
                (subst (λ x. (should_generate_for_date calendar d x s).0 ≡ ok true) same due)
                (subst (λ x. calendar.due_at zone x d.due_time ≡ some t) same read)).1
        | inr later ↦
            days-make d left (suc day) target t u readable (ground (arith, from_day, later))
              (omega (arith, until)) (due_anywhere d target s u due) read
      ])
