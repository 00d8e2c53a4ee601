-- ===== src/Models/Enums.antt =====
-- The enumerations of backend/app/db/models.py, and `==` on those that the code compares.
use kids_chores_api.Prelude.{Bool, true, false}

pub data MemberRole : Type 0 where
  parent teen : MemberRole

pub data AuthProvider : Type 0 where
  apple email : AuthProvider

pub data ExcusedPayoutPolicy : Type 0 where
  excused_pays_nothing excused_pays_partial excused_pays_full : ExcusedPayoutPolicy

pub data ScheduleType : Type 0 where
  one_time daily weekdays weekly : ScheduleType

pub data TaskStatus : Type 0 where
  pending review_pending complete overdue excuse_pending excused missed cancelled : TaskStatus

pub data SeriesPayoutMode : Type 0 where
  individual_plus_bonus all_or_nothing : SeriesPayoutMode

pub data SeriesWindowType : Type 0 where
  weekly monthly custom : SeriesWindowType

pub data SeriesStatus : Type 0 where
  active complete expired : SeriesStatus

pub data LedgerEntryType : Type 0 where
  task_completed series_bonus excused_partial claim_fulfilled manual_adjustment reversal :
      LedgerEntryType

pub data ClaimStatus : Type 0 where
  pending fulfilled declined : ClaimStatus

abbrev pub is_status : TaskStatus → TaskStatus → Bool
is_status TaskStatus.pending TaskStatus.pending = true
is_status TaskStatus.review_pending TaskStatus.review_pending = true
is_status TaskStatus.complete TaskStatus.complete = true
is_status TaskStatus.overdue TaskStatus.overdue = true
is_status TaskStatus.excuse_pending TaskStatus.excuse_pending = true
is_status TaskStatus.excused TaskStatus.excused = true
is_status TaskStatus.missed TaskStatus.missed = true
is_status TaskStatus.cancelled TaskStatus.cancelled = true
is_status _ _ = false

abbrev pub is_entry_type : LedgerEntryType → LedgerEntryType → Bool
is_entry_type LedgerEntryType.task_completed LedgerEntryType.task_completed = true
is_entry_type LedgerEntryType.series_bonus LedgerEntryType.series_bonus = true
is_entry_type LedgerEntryType.excused_partial LedgerEntryType.excused_partial = true
is_entry_type LedgerEntryType.claim_fulfilled LedgerEntryType.claim_fulfilled = true
is_entry_type LedgerEntryType.manual_adjustment LedgerEntryType.manual_adjustment = true
is_entry_type LedgerEntryType.reversal LedgerEntryType.reversal = true
is_entry_type _ _ = false

abbrev pub is_active : SeriesStatus → Bool
is_active SeriesStatus.active = true
is_active _ = false

abbrev pub is_parent : MemberRole → Bool
is_parent parent = true
is_parent teen = false

abbrev pub is_teen : MemberRole → Bool
is_teen teen = true
is_teen parent = false
