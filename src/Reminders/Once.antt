-- ===== src/Reminders/Once.antt =====
-- A task is reminded of once.
use kids_chores_api.Web.Notifications.{to_token, notify_task_reminder}
use kids_chores_api.Web.{Push}
use kids_chores_api.Session.{Db}
use mathlib.Core.List.{append-nil}
use kids_chores_api.Prelude.{
  if◌then◌else◌, none, Text, some, Option, false, inr, length-append, inl, is_none, ◌≤◌, Bool-cases,
  arith, ◌∙◌, ◌+◌, refl, ap, [], length, ◌∷◌, ◌≡◌, ◌++◌, map, List,
}
use kids_chores_api.Models.{TaskInstance, Time}
use kids_chores_api.Reminders.{
  LoadedTask, reminder_push, is_due_soon, wants_reminder, reminded, reminder_pushes,
  send_task_reminders, loaded_task,
}

-- Runs of the job, each at its time and with other tables as they then are: the pushes of all of them.
-- Each run finds the tasks as the one before has left them.
unfoldable pub reminder_runs : List (Time × Db) → List TaskInstance → List Push
reminder_runs [] is = []
reminder_runs ((now, others) ∷ runs) is =
    let sent = send_task_reminders now (record others { task_instances = is }) in
    sent.0 ++ reminder_runs runs sent.1.task_instances

map-append {ℓ κ} :
    {A : Type ℓ} {B : Type κ} (f : A → B) (xs ys : List A) → map f (xs ++ ys) ≡ map f xs ++ map f ys
map-append f [] ys = refl
map-append f (x ∷ xs) ys = ap (λ zs. f x ∷ zs) (map-append f xs ys)

-- A run reads of the tables what is not a task.
reminder_pushes-others :
    (now : Time) (others : Db) (table is : List TaskInstance)
    → reminder_pushes now (record others { task_instances = table }) is
      ≡ reminder_pushes now others is
unfolding reminder_pushes wants_reminder loaded_task
reminder_pushes-others now others table [] = refl
reminder_pushes-others now others table (i ∷ is) =
    rw (reminder_pushes-others now others table is) refl

runs-step :
    (now : Time) (others : Db) (runs : List (Time × Db)) (is : List TaskInstance)
    → reminder_runs ((now, others) ∷ runs) is
      ≡ reminder_pushes now others is ++ reminder_runs runs (map (reminded now others) is)
unfolding reminder_runs send_task_reminders wants_reminder reminded loaded_task
runs-step now others runs is = rw (reminder_pushes-others now others is is) refl

reminder_pushes-cons :
    (now : Time) (db : Db) (i : TaskInstance) (is : List TaskInstance)
    → length (reminder_pushes now db (i ∷ is))
      ≡ length (reminder_pushes now db (i ∷ [])) + length (reminder_pushes now db is)
unfolding reminder_pushes
reminder_pushes-cons now db i is = elim (Bool-cases (wants_reminder now db i)) [
  | inl wanted ↦ rw wanted (
      let push = reminder_push i (loaded_task db i) in
      omega (arith, length-append push (reminder_pushes now db is), length-append push []))
  | inr silent ↦ rw silent (omega arith)
]

-- A run sends for a task what it sends when the task is alone.
reminder_pushes-insert :
    (now : Time) (db : Db) (before : List TaskInstance) (i : TaskInstance)
    (after : List TaskInstance)
    → length (reminder_pushes now db (before ++ i ∷ after))
      ≡ length (reminder_pushes now db (i ∷ [])) + length (reminder_pushes now db (before ++ after))
reminder_pushes-insert now db [] i after = reminder_pushes-cons now db i after
reminder_pushes-insert now db (j ∷ before) i after = omega (
  arith,
  reminder_pushes-cons now db j (before ++ i ∷ after),
  reminder_pushes-cons now db j (before ++ after),
  reminder_pushes-insert now db before i after,
)

runs-length :
    (now : Time) (others : Db) (runs : List (Time × Db)) (is : List TaskInstance)
    → length (reminder_runs ((now, others) ∷ runs) is)
      ≡ length (reminder_pushes now others is)
        + length (reminder_runs runs (map (reminded now others) is))
runs-length now others runs is =
    ap length (runs-step now others runs is)
    ∙ length-append (reminder_pushes now others is)
        (reminder_runs runs (map (reminded now others) is))

runs-insert :
    (runs : List (Time × Db)) (before : List TaskInstance) (i : TaskInstance)
    (after : List TaskInstance)
    → length (reminder_runs runs (before ++ i ∷ after))
      ≡ length (reminder_runs runs (i ∷ [])) + length (reminder_runs runs (before ++ after))
runs-insert [] before i after = unfold reminder_runs in refl
runs-insert ((now, others) ∷ runs) before i after =
    let marked = reminded now others in
    let next : length (reminder_runs runs (map marked (before ++ i ∷ after)))
        ≡ length (reminder_runs runs (marked i ∷ []))
          + length (reminder_runs runs (map marked (before ++ after))) =
      rw (map-append marked before (i ∷ after), map-append marked before after)
        (runs-insert runs (map marked before) (marked i) (map marked after)) in
    omega (
      arith,
      runs-length now others runs (before ++ i ∷ after),
      runs-length now others runs (i ∷ []),
      runs-length now others runs (before ++ after),
      reminder_pushes-insert now others before i after,
      next,
    )

-- Nothing more is sent for a task that carries the mark.
sent_before :
    (runs : List (Time × Db)) (i : TaskInstance)
    → is_none i.reminder_sent_at ≡ false
    → reminder_runs runs (i ∷ []) ≡ []
unfolding reminder_runs send_task_reminders reminder_pushes wants_reminder is_due_soon reminded
sent_before [] i sent = refl
sent_before ((now, others) ∷ runs) i sent = elim (Bool-cases (wants_reminder now others i)) [
  | inl again ↦ ground (arith, sent, again)
  | inr silent ↦ rw (runs-step now others runs (i ∷ [])) (rw silent (sent_before runs i sent))
]

-- What the first run sends in which the task wants a reminder, as it stands before all of them.
abbrev pub first_reminder : List (Time × Db) → TaskInstance → List Push
first_reminder [] i = []
first_reminder ((now, others) ∷ runs) i =
    let rest = first_reminder runs i in
    if wants_reminder now others i then reminder_push i (loaded_task others i) else rest

alone :
    (runs : List (Time × Db)) (i : TaskInstance)
    → reminder_runs runs (i ∷ []) ≡ first_reminder runs i
unfolding reminder_pushes reminded
alone [] i = unfold reminder_runs in refl
alone ((now, others) ∷ runs) i = elim (Bool-cases (wants_reminder now others i)) [
  | inl first ↦ rw (runs-step now others runs (i ∷ [])) (
      rw first (
        rw (sent_before runs (record i { reminder_sent_at = some now }) refl) (
          append-nil (reminder_push i (loaded_task others i) ++ [])
          ∙ append-nil (reminder_push i (loaded_task others i)))))
  | inr silent ↦ rw (runs-step now others runs (i ∷ [])) (rw silent (alone runs i))
]

reminder_push-bound : (i : TaskInstance) (o : Option LoadedTask) → length (reminder_push i o) ≤ 1
unfolding reminder_push notify_task_reminder
reminder_push-bound i none = omega arith
reminder_push-bound i (some (d, h, m)) = go m.push_token _ _
  where
    go : (token : Option Text) (title body : Text) → length (to_token token title body) ≤ 1
    go none title body = omega arith
    go (some t) title body = omega arith

first_reminder-bound :
    (runs : List (Time × Db)) (i : TaskInstance) → length (first_reminder runs i) ≤ 1
first_reminder-bound [] i = omega arith
first_reminder-bound ((now, others) ∷ runs) i = elim (Bool-cases (wants_reminder now others i)) [
  | inl first ↦ rw first (reminder_push-bound i (loaded_task others i))
  | inr silent ↦ rw silent (first_reminder-bound runs i)
]

-- Over any runs of the job, at whatever times and with whatever else in the tables at each: with any
-- other tasks beside it, a task adds to the number of pushes exactly those that are sent when it is
-- the only task; these are what the first run sends in which it is due soon and near, and they are one
-- at most. Nothing but the job changes the tasks between the runs.
pub reminders_once :
    (runs : List (Time × Db)) (before : List TaskInstance) (i : TaskInstance)
    (after : List TaskInstance)
    → (length (reminder_runs runs (before ++ i ∷ after))
        ≡ length (reminder_runs runs (i ∷ [])) + length (reminder_runs runs (before ++ after)))
      × (reminder_runs runs (i ∷ []) ≡ first_reminder runs i)
      × (length (first_reminder runs i) ≤ 1)
reminders_once runs before i after =
    (runs-insert runs before i after, alone runs i, first_reminder-bound runs i)
