-- ===== src/Schemas/Checks.antt =====
-- What a request has to meet before its route is called: the `Field` bounds, the patterns and the
-- validator of schemas.py. Lengths count code points.
use kids_chores_api.Prelude.Int.{ℤ, pos, leb_ℤ}
use kids_chores_api.Prelude.{
  false, none, is_missing, [], some, length, not, ◌&&◌, List, ◌==◌, ◌∷◌, ◌||◌, leb, true, Bool,
  Option, ℕ, Text,
}
use kids_chores_api.Schemas.{
  VerifyPinRequest, EmailLoginRequest, TeenProfileCreate, TaskDefinitionCreate,
  TaskDefinitionUpdate, EmailRegisterRequest, HouseholdUpdate, SeriesCreate, ExcuseTaskRequest,
  ManualAdjustRequest, ClaimCreate, BulkApproveRequest, ReviewRequest, SeriesUpdate,
  ChangePasswordRequest, SavingsGoalCreate, PushTokenUpdate,
}

-- `min_length` and `max_length`
abbrev pub has_length : ℕ → ℕ → Text → Bool
has_length least most t = leb least (length t) && leb (length t) most

abbrev pub is_given : (Text → Bool) → Option Text → Bool
is_given p none = true
is_given p (some t) = p t

abbrev pub is_number_in : ℕ → ℕ → Option ℕ → Bool
is_number_in least most none = true
is_number_in least most (some n) = leb least n && leb n most

-- `ge=0, le=127`
abbrev is_mask : Option ℤ → Bool
is_mask none = true
is_mask (some mask) = leb_ℤ (pos 0) mask && leb_ℤ mask (pos 127)

-- A validator of a field runs on what is sent, and not on the default of what is left out.
unfoldable pub check_review : Bool → ReviewRequest → Bool
check_review comment_sent body = not comment_sent || body.approve || not (is_missing body.comment)

unfoldable pub check_excuse : ExcuseTaskRequest → Bool
check_excuse body = leb 10 (length body.excuse_text)

unfoldable pub check_claim : ClaimCreate → Bool
check_claim body = leb 1 body.points && has_length 1 500 body.requested_item

unfoldable pub check_adjustment : ManualAdjustRequest → Bool
check_adjustment body = leb 5 (length body.reason)

unfoldable pub check_goal : SavingsGoalCreate → Bool
check_goal body = has_length 1 200 body.title && leb 1 body.target_points

unfoldable pub check_new_password : ChangePasswordRequest → Bool
check_new_password body = leb 8 (length body.new_password)

unfoldable pub check_push_token : PushTokenUpdate → Bool
check_push_token body = is_given (λ t. leb (length t) 500) body.push_token

unfoldable pub check_household : HouseholdUpdate → Bool
check_household body =
    is_number_in 1 72 body.grace_period_hours
    && is_number_in 5 1440 body.task_reminder_minutes_before_due

unfoldable pub check_batch : BulkApproveRequest → Bool
check_batch body = leb 1 (length body.items)

unfoldable pub check_series : SeriesCreate → Bool
check_series body =
    has_length 1 200 body.name && leb 1 body.bonus_points && leb 1 (length body.task_definition_ids)

abbrev is_bonus : Option ℕ → Bool
is_bonus none = true
is_bonus (some n) = leb 1 n

unfoldable pub check_series_update : SeriesUpdate → Bool
check_series_update body = is_given (has_length 1 200) body.name && is_bonus body.bonus_points

-- `is_email` is what `EmailStr` takes, `is_digit` what `\d` does.
module _ (is_email : Text → Bool) (is_digit : ℕ → Bool) where
  -- A pattern is a list of tests, one for each character.
  abbrev fits : List (ℕ → Bool) → Text → Bool
  fits [] [] = true
  fits [] (c ∷ t) = false
  fits (p ∷ ps) [] = false
  fits (p ∷ ps) (c ∷ t) = p c && fits ps t

  abbrev is_sign : ℕ → ℕ → Bool
  is_sign sign c = c == sign

  -- `^\d{4}-\d{2}-\d{2}$`
  unfoldable pub is_date_text : Text → Bool
  is_date_text = fits (
      is_digit
      ∷ is_digit
      ∷ is_digit
      ∷ is_digit
      ∷ is_sign b'-'
      ∷ is_digit
      ∷ is_digit
      ∷ is_sign b'-'
      ∷ is_digit
      ∷ is_digit
      ∷ [])

  -- `^\d{2}:\d{2}$`
  unfoldable pub is_time_text : Text → Bool
  is_time_text = fits (is_digit ∷ is_digit ∷ is_sign b':' ∷ is_digit ∷ is_digit ∷ [])

  -- `^\d{4}$`
  unfoldable pub is_pin : Text → Bool
  is_pin = fits (is_digit ∷ is_digit ∷ is_digit ∷ is_digit ∷ [])

  unfoldable pub check_verify_pin : VerifyPinRequest → Bool
  unfolding is_pin
  check_verify_pin body = is_pin body.pin

  unfoldable pub check_register : EmailRegisterRequest → Bool
  check_register body =
      is_email body.email && leb 8 (length body.password) && has_length 1 100 body.display_name

  unfoldable pub check_login : EmailLoginRequest → Bool
  check_login body = is_email body.email

  unfoldable pub check_teen : TeenProfileCreate → Bool
  unfolding is_date_text is_pin
  check_teen body =
      has_length 1 100 body.display_name && is_date_text body.birthdate && is_given is_pin body.pin

  unfoldable pub check_definition : TaskDefinitionCreate → Bool
  unfolding is_date_text is_time_text
  check_definition body =
      has_length 1 200 body.title
      && leb 1 body.point_value
      && leb body.point_value 10_000
      && is_mask body.weekday_mask
      && is_date_text body.start_date
      && is_given is_date_text body.end_date
      && is_time_text body.due_time

  -- Neither the weekday mask nor the end date is looked at.
  unfoldable pub check_definition_update : TaskDefinitionUpdate → Bool
  unfolding is_time_text
  check_definition_update body =
      is_given (has_length 1 200) body.title
      && is_number_in 1 10_000 body.point_value
      && is_given is_time_text body.due_time
