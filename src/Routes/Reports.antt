-- ===== src/Routes/Reports.antt =====
-- backend/app/routers/reports.py: a member's weeks, with the rows that they are counted from.
use kids_chores_api.Grace.{hour}
use kids_chores_api.Generation.{weekday}
use kids_chores_api.Prelude.Int.{pos_part, pos, leb_ℤ, ℤ}
use kids_chores_api.Prelude.{
  is_none, not, ◌+◌, ◌*◌, ltb, ◌==◌, any, ◌-◌, ◌&&◌, filter, false, leb, true, Bool, ℕ, List,
}
use kids_chores_api.Session.{member_in, query, ◌>>=◌, http, raise_if, ◌>>◌, Action, Db}
use kids_chores_api.Models.{
  is_teen, TaskDefinition, Member, LedgerEntry, Household, TaskInstance, RowId, Time,
  LedgerEntryType,
}
use kids_chores_api.Reports.{ReportWeek, build_weekly_report}
use kids_chores_api.Routes.Series.{Months}

-- `_EARNED_ENTRY_TYPES`
unfoldable pub is_earned : LedgerEntryType → Bool
is_earned LedgerEntryType.task_completed = true
is_earned LedgerEntryType.series_bonus = true
is_earned LedgerEntryType.excused_partial = true
is_earned LedgerEntryType.claim_fulfilled = false
is_earned LedgerEntryType.manual_adjustment = false
is_earned LedgerEntryType.reversal = false

pub record ReportResponse : Type 0 where
  pub member_id : RowId
  pub weeks : List ReportWeek

-- From a time on and before another.
abbrev pub is_between : Time → Time → Time → Bool
is_between start end t = leb start t && ltb t end

-- The definition is joined, and its assignee is compared.
unfoldable pub assigned_to : RowId → Db → TaskInstance → Bool
assigned_to member_id db i =
    any (λ (d : TaskDefinition). d.id == i.definition_id && d.assignee_id == member_id)
      db.task_definitions

unfoldable pub report_instances : RowId → Time → Time → Db → List TaskInstance
unfolding assigned_to
report_instances member_id start end db =
    filter (λ (i : TaskInstance). assigned_to member_id db i && is_between start end i.due_at)
      db.task_instances

unfoldable pub report_entries : RowId → Time → Time → Db → List LedgerEntry
unfolding is_earned
report_entries member_id start end db =
    filter
      (λ (e : LedgerEntry).
        e.member_id == member_id && is_between start end e.created_at && is_earned e.entry_type)
      db.ledger_entries

module _ (months : Months) where
  -- The last week is the one that `now` is in.
  unfoldable pub report_of : RowId → ℕ → Household → Time → Db → ReportResponse
  unfolding report_instances report_entries
  report_of member_id weeks household now db =
      let today = months.local_date household.timezone now in
      let this_monday = today - weekday today in
      let range_start = this_monday - 7 * (weeks - 1) in
      let start = months.midnight household.timezone range_start in
      let end = months.midnight household.timezone this_monday + 7 * 24 * hour in
      record {
        member_id = member_id;
        weeks =
            build_weekly_report (months.local_date household.timezone)
              (report_instances member_id start end db) (report_entries member_id start end db)
              range_start weeks;
      }

  unfoldable pub get_report : RowId → ℤ → Member → Household → Time → Action ReportResponse
  unfolding report_of
  get_report member_id weeks member household now = do
    raise_if (is_teen member.role && not (member.id == member_id)) (http 403)
    raise_if (not (leb_ℤ (pos 1) weeks && leb_ℤ weeks (pos 52))) (http 422)
    target ← query (member_in member_id household.id)
    raise_if (is_none target) (http 404)
    query (report_of member_id (pos_part weeks) household now)
