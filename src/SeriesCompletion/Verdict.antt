-- ===== src/SeriesCompletion/Verdict.antt =====
-- When a series instance completes, without the lists that the code splits its tasks into.
use kids_chores_api.SeriesCompletion.{evaluate, is_empty_list, pay_series, settle_series}
use kids_chores_api.Models.{
  is_active, Time, TaskStatus, is_status, SeriesStatus, Member, TaskInstance, Series,
  SeriesInstance,
}
use kids_chores_api.Prelude.{
  inr, inl, Bool-cases, Bool, true, false, not, ◌&&◌, ◌||◌, ◌≡◌, refl, some, List, [], ◌∷◌, filter,
  any, all, is_id, if◌then◌else◌, arith,
}
use kids_chores_api.Session.{Db, Session, Action, ok, pure, add_series_instance, ◌>>◌}

abbrev pub is_complete : TaskInstance → Bool
is_complete i = is_status i.status TaskStatus.complete

abbrev pub is_excused : TaskInstance → Bool
is_excused i = is_status i.status TaskStatus.excused

abbrev pub tasks_of : SeriesInstance → Db → List TaskInstance
tasks_of r db = filter (λ (i : TaskInstance). is_id i.series_instance_id r.id) db.task_instances

-- Every task is complete or excused, and one of them is complete.
unfoldable pub all_settled : List TaskInstance → Bool
all_settled tasks = all (λ i. is_complete i || is_excused i) tasks && any is_complete tasks

abbrev pub completed_tasks : SeriesInstance → Db → List TaskInstance
completed_tasks r db = filter is_complete (tasks_of r db)

-- The payment first, and then the row.
abbrev pub pay_and_close : SeriesInstance → Series → Member → Time → List TaskInstance → Action Bool
pay_and_close r series actor now completed = do
  pay_series series.payout_mode r series actor completed
  add_series_instance (record r { status = SeriesStatus.complete; completed_at = some now })
  pure true

empty-filter :
    (p : TaskInstance → Bool) (is : List TaskInstance)
    → is_empty_list (filter p is) ≡ not (any p is)
empty-filter p [] = refl
empty-filter p (i ∷ is) = ground (arith, empty-filter p is)

other-all :
    (is : List TaskInstance)
    → any
        (λ (i : TaskInstance).
          not (is_status i.status TaskStatus.complete || is_status i.status TaskStatus.excused))
        is
      ≡ not (all (λ i. is_complete i || is_excused i) is)
other-all [] = refl
other-all (i ∷ is) = ground (arith, other-all is)

some_excused :
    (i : TaskInstance) (is : List TaskInstance)
    → all (λ i. is_complete i || is_excused i) (i ∷ is) ≡ true
    → any is_complete (i ∷ is) ≡ false
    → any is_excused (i ∷ is) ≡ true
some_excused i is a c = ground arith

-- The code's three tests come to one.
three_tests :
    (a c e : Bool) (m : Action Bool) (s : Session)
    → (a ≡ true → c ≡ false → e ≡ true)
    → (if not (not (not a)) then pure false else if not c && not (not e) then pure false else m) s
      ≡ (if a && c then m s else (ok false, s))
three_tests false c e m s h = refl
three_tests true true e m s h = refl
three_tests true false true m s h = refl
three_tests true false false m s h = cc (h refl refl)

settle-verdict :
    (is : List TaskInstance) (r : SeriesInstance) (series : Series) (actor : Member) (now : Time)
    (s : Session)
    → settle_series is r series actor now s ≡ (
        if all_settled is
        then pay_and_close r series actor now (filter is_complete is) s
        else (ok false, s))
unfolding settle_series all_settled
settle-verdict [] r series actor now s = refl
settle-verdict (i ∷ is) r series actor now s =
    rw
      (
        empty-filter is_complete (i ∷ is),
        empty-filter is_excused (i ∷ is),
        empty-filter
            (λ (i : TaskInstance).
              not (is_status i.status TaskStatus.complete || is_status i.status TaskStatus.excused))
            (i ∷ is),
        other-all (i ∷ is),
      )
      (three_tests (all (λ i. is_complete i || is_excused i) (i ∷ is)) (any is_complete (i ∷ is))
        (any is_excused (i ∷ is)) (pay_and_close r series actor now (filter is_complete (i ∷ is))) s
        (some_excused i is))

-- An instance completes exactly when it is active, every task of it is complete or excused, and at
-- least one is complete; then the payment is written and the instance is closed. Otherwise nothing
-- is written.
pub evaluate-verdict :
    (r : SeriesInstance) (series : Series) (actor : Member) (now : Time) (s : Session)
    → evaluate r series actor now s ≡ (
        if is_active r.status && all_settled (tasks_of r s.current)
        then pay_and_close r series actor now (completed_tasks r s.current) s
        else (ok false, s))
unfolding evaluate
evaluate-verdict r series actor now s = elim (Bool-cases (is_active r.status)) [
  | inl on ↦ rw on (settle-verdict (tasks_of r s.current) r series actor now s)
  | inr off ↦ rw off refl
]
