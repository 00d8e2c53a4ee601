-- ===== src/Routes/Tasks/Rewards.antt =====
-- A task that is completed without review is paid for.
use kids_chores_api.Prelude.Int.{pos, ◌+ℤ◌}
use kids_chores_api.Session.Binds.{on_error-ok, bind-ok}
use kids_chores_api.Ledger.Awards.{balance}
use kids_chores_api.StateMachine.Outcomes.{complete_paid, completed, paying}
use kids_chores_api.Ledger.Posting.{refused, entry_of, task_posting, posted}
use kids_chores_api.Ledger.{award_task_completion, sum_delta}
use kids_chores_api.Prelude.{
  refl, ltb, ap, ◌∙◌, ◌==◌, none, if◌then◌else◌, false, true, ◌≡◌, Text, Option,
}
use kids_chores_api.Routes.Tasks.Work.{refused_422, check_series, complete_work}
use kids_chores_api.Models.{
  TaskStatus, RowId, Time, Household, Member, TaskDefinition, TaskInstance,
}
use kids_chores_api.StateMachine.{is_open, complete}
use kids_chores_api.Ledger.Once.{award-eq, completions, completion}
use kids_chores_api.Session.{
  duplicate_ledger_entry, err, on_error, ok, add_instance, Session, ◌>>◌, pure,
}

module _ (j : TaskInstance) (d : TaskDefinition) (a : Member) (h : Household) (s : Session) where
  -- The session after the award and the row have been written.
  abbrev pub rewarded : Session
  rewarded = (add_instance j (posted (entry_of (completion j d a) s) s)).1

  award-free :
      completions j s ≡ 0
      → award_task_completion j d a h s
        ≡ (ok (entry_of (completion j d a) s), posted (entry_of (completion j d a) s) s)
  award-free unpaid =
      award-eq j d a h s
      ∙ ap
          (λ n.
            if ltb 0 n
            then (err duplicate_ledger_entry, refused s)
            else (ok (entry_of (completion j d a) s), posted (entry_of (completion j d a) s) s))
          unpaid

  pub paying-free :
      completions j s ≡ 0 → paying (award_task_completion j d a h) j s ≡ (ok j, rewarded)
  paying-free unpaid =
      bind-ok (award_task_completion j d a h) (λ _. add_instance j >> pure j) s (award-free unpaid)

  pub balance-rewarded :
      (m : RowId)
      → balance m rewarded
        ≡ (if j.assignee_id == m then balance m s +ℤ pos j.point_value else balance m s)
  unfolding sum_delta task_posting
  balance-rewarded m = refl

pub complete_work-free :
    (i : TaskInstance) (d : TaskDefinition) (a : Member) (h : Household) (note : Option Text)
    (now : Time) (s : Session)
    → is_open i.status ≡ true
    → d.requires_review ≡ false
    → i.series_instance_id ≡ none
    → completions i s ≡ 0
    → let done = completed i TaskStatus.complete note now in
      complete_work i d a h note now s ≡ (ok done, rewarded done d a h s)
unfolding complete_work check_series
complete_work-free i d a h note now s todo auto alone unpaid =
    let done : TaskInstance = completed i TaskStatus.complete note now in
    bind-ok (on_error refused_422 (complete i d a h note now))
      (λ (r : TaskInstance). check_series r.series_instance_id a now >> pure r) s
      (on_error-ok refused_422 (complete i d a h note now) s
        (complete_paid i d a h note now s todo auto ∙ paying-free done d a h s unpaid))
    ∙ rw alone refl
