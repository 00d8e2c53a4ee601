-- ===== src/Tests/Plans.antt =====
-- The theorems on definitions and series at concrete inputs.
use kids_chores_api.Prelude.{
  false, arith, [], ◌-◌, ◌<◌, ◌∷◌, ◌*◌, ◌≤◌, ◌+◌, none, ◌%◌, ◌≡◌, ◌/◌, codes,
}
use kids_chores_api.Generation.{weekday}
use kids_chores_api.Routes.Definitions.Scope.{change-AllAssigned, Change, change, AllAssigned}
use kids_chores_api.Routes.Series.{create_series, window_days, Months}
use kids_chores_api.Models.{SeriesWindowType, ScheduleType, SeriesPayoutMode, MemberRole, Member}
use kids_chores_api.Routes.Series.Windows.{weekly_window, create_series-elsewhere, elsewhere}
use kids_chores_api.Schemas.{SeriesCreate, TaskDefinitionCreate}
use kids_chores_api.Tests.{home, teen, empty_db, fresh}
use kids_chores_api.Tests.Nightly.{calendar}

abbrev parent : Member
parent = record teen { id = 4; role = MemberRole.parent }

abbrev vacuuming : TaskDefinitionCreate
vacuuming = record {
  assignee_id = 2;
  title = codes "Vacuuming";
  description = none;
  point_value = 10;
  schedule_type = ScheduleType.daily;
  weekday_mask = none;
  start_date = 3 ∷ [];
  end_date = none;
  due_time = codes "20:00";
  requires_review = false;
  series_id = none;
}

change-AllAssigned_example :
    AllAssigned (change calendar home 9 (Change.creating vacuuming parent) fresh).current
change-AllAssigned_example =
    change-AllAssigned calendar home 9 (Change.creating vacuuming parent) fresh (λ e. cc e, tt)

-- Months of thirty days.
abbrev months : Months
months = record {
  local_date = λ zone now. now / 86_400_000_000;
  civil = λ d. (d / 360, (d % 360) / 30 + 1);
  date_of = λ y m d. y * 360 + (m - 1) * 30 + (d - 1);
  midnight = λ zone d. d * 86_400_000_000;
}

weekly_window_example :
    (weekday 735_960 ≡ 0) × (735_960 ≤ 735_964) × (735_964 < 735_967) × (735_967 ≡ 735_960 + 7)
unfolding window_days
weekly_window_example = weekly_window months 735_964 (omega arith)

abbrev kitchen : SeriesCreate
kitchen = record {
  name = codes "Kitchen";
  assignee_id = 2;
  bonus_points = 30;
  payout_mode = SeriesPayoutMode.individual_plus_bonus;
  window_type = SeriesWindowType.weekly;
  task_definition_ids = 3 ∷ [];
}

create_series-elsewhere_example :
    elsewhere 1 (create_series months kitchen home 9 fresh).1.current ≡ elsewhere 1 empty_db
create_series-elsewhere_example = create_series-elsewhere months kitchen home 9 fresh
