-- ===== src/Schemas/Wallet.antt =====
-- Wallets, ledger entries, claims and savings goals.
use kids_chores_api.Models.{RowId, Time, LedgerEntryType, ClaimStatus}
use kids_chores_api.Prelude.{ℕ, Bool, Option, Text}
use kids_chores_api.Prelude.Int.{ℤ}

pub record SavingsGoalCreate : Type 0 where
  pub title : Text
  pub target_points : ℕ

pub record SavingsGoalResponse : Type 0 where
  pub id : RowId
  pub member_id : RowId
  pub title : Text
  pub target_points : ℕ
  pub created_at : Time
  pub achieved_at : Option Time

pub record WalletResponse : Type 0 where
  pub member_id : RowId
  pub balance : ℤ
  pub points_label : Text
  pub active_savings_goal : Option SavingsGoalResponse

pub record LedgerEntryResponse : Type 0 where
  pub id : RowId
  pub delta : ℤ
  pub balance_after : ℤ
  pub entry_type : LedgerEntryType
  pub reason : Text
  pub created_at : Time

pub record ClaimCreate : Type 0 where
  pub points : ℕ
  pub requested_item : Text

pub record ClaimResponse : Type 0 where
  pub id : RowId
  pub member_id : RowId
  pub member_name : Text
  pub points : ℕ
  pub requested_item : Text
  pub status : ClaimStatus
  pub parent_note : Option Text
  pub requested_at : Time
  pub resolved_at : Option Time

pub record ClaimResolveRequest : Type 0 where
  pub approve : Bool
  pub parent_note : Option Text

pub record ManualAdjustRequest : Type 0 where
  pub member_id : RowId
  pub delta : ℤ
  pub reason : Text
