-- ===== src/Schemas/Members.antt =====
-- Households, members, and how they sign in.
use kids_chores_api.Models.{RowId, Time, MemberRole, ExcusedPayoutPolicy}
use kids_chores_api.Prelude.{ℕ, Bool, Option, Text}

pub record TokenResponse : Type 0 where
  pub access_token : Text
  pub refresh_token : Text
  pub member_id : RowId
  pub household_id : RowId
  pub role : MemberRole

pub record EmailRegisterRequest : Type 0 where
  pub email : Text
  pub password : Text
  pub display_name : Text

pub record EmailLoginRequest : Type 0 where
  pub email : Text
  pub password : Text

pub record RefreshTokenRequest : Type 0 where
  pub refresh_token : Text

pub record ChangePasswordRequest : Type 0 where
  pub current_password : Text
  pub new_password : Text

pub record PushTokenUpdate : Type 0 where
  pub push_token : Option Text

-- Six digits stand for the number that they spell.
pub record LinkAccountRequest : Type 0 where
  pub code : ℕ
  pub email : Text
  pub password : Text

pub record HouseholdUpdate : Type 0 where
  pub name : Option Text
  pub timezone : Option Text
  pub points_label : Option Text
  pub excused_payout_policy : Option ExcusedPayoutPolicy
  pub grace_period_hours : Option ℕ
  pub task_reminder_minutes_before_due : Option ℕ

pub record TeenProfileCreate : Type 0 where
  pub display_name : Text
  pub birthdate : Text
  pub pin : Option Text

pub record VerifyPinRequest : Type 0 where
  pub pin : Text

pub record VerifyPinResponse : Type 0 where
  pub valid : Bool
  pub pin_set : Bool

pub record LinkCodeResponse : Type 0 where
  pub code : ℕ
  pub expires_at : Time
