-- ===== src/Routes/Household.antt =====
-- backend/app/routers/household.py: the household, its members, link codes and PINs.
pub mod Isolation
use kids_chores_api.Session.{
  db_now, uuid, value_error, http, member_in, query, raise, Db, Action, ok, update_row, modify,
}
use kids_chores_api.Schemas.{TeenProfileCreate, HouseholdUpdate}
use kids_chores_api.Models.{email, teen, is_parent, Time, RowId, Household, Member}
use kids_chores_api.Prelude.{
  codes, ◌++◌, ltb, ◌/◌, is_missing, if◌then◌else◌, ◌-◌, Text, ℕ, Bool, ◌&&◌, ◌||◌, Option, none,
  some, List, ◌==◌, is_none, filter,
}
use kids_chores_api.Session.{pure, raise_if, or_raise, ◌>>=◌, ◌>>◌, Action}
use kids_chores_api.Accounts.{Externals, flush_new, hash_pin, put_member}
use kids_chores_api.Generation.{Date}

-- `if value is not None: setattr`
abbrev pub or_keep {ℓ} : {A : Type ℓ} → Option A → A → A
or_keep none old = old
or_keep (some new) old = new

unfoldable pub apply_update : HouseholdUpdate → Household → Household
apply_update body household = record household {
  name = or_keep body.name household.name;
  timezone = or_keep body.timezone household.timezone;
  points_label = or_keep body.points_label household.points_label;
  excused_payout_policy = or_keep body.excused_payout_policy household.excused_payout_policy;
  grace_period_hours = or_keep body.grace_period_hours household.grace_period_hours;
  task_reminder_minutes_before_due =
      or_keep body.task_reminder_minutes_before_due household.task_reminder_minutes_before_due;
}

-- The caller is a parent.
unfoldable pub update_household : HouseholdUpdate → Household → Action Household
update_household body household s =
    let changed = apply_update body household in
    (
      ok changed,
      (modify
          (λ db. record db {
            households = update_row (λ (h : Household). h.id) changed db.households;
          })
          s).1,
    )

unfoldable pub list_members : Bool → Household → Db → List Member
list_members include_archived household db =
    filter
      (λ (m : Member).
        m.household_id == household.id && (include_archived || is_none m.archived_at))
      db.members

-- Years of 365 days.
unfoldable pub age_years : Date → Date → ℕ
age_years birth_date today = (today - birth_date) / 365

abbrev pub placeholder : Externals → RowId → Text
placeholder ext household_id = codes "pending-" ++ ext.id_text household_id ++ codes "-"

hash_of : Externals → Option Text → Option Text
hash_of ext none = none
hash_of ext (some pin) = if is_missing (some pin) then none else some (hash_pin ext pin)

-- The caller is a parent; `today` is the date of the moment.
unfoldable pub create_teen_profile :
    Externals → (Text → Option Date) → TeenProfileCreate → Household → Date → Action Member
unfolding age_years hash_of
create_teen_profile ext parse_date body household today = do
  birth_date ← or_raise (parse_date body.birthdate) value_error
  raise_if (ltb (age_years birth_date today) 13) (http 422)
  id ← uuid
  created_at ← db_now
  let new : Member = record {
    id = id;
    household_id = household.id;
    role = teen;
    display_name = body.display_name;
    avatar = none;
    auth_provider = email;
    auth_subject = placeholder ext household.id ++ body.display_name;
    password_hash = none;
    pin_hash = hash_of ext body.pin;
    birthdate = some body.birthdate;
    push_token = none;
    created_at = created_at;
    archived_at = none;
  }
  flush_new new
  pure new

unfoldable pub archive : Option Member → Member → Time → Action Unit
archive none parent now = raise (http 404)
archive (some member) parent now = do
  raise_if (is_parent member.role && member.id == parent.id) (http 422)
  modify (put_member (record member { archived_at = some now }))

-- The caller is a parent.
unfoldable pub remove_member : RowId → Member → Household → Time → Action Unit
unfolding archive
remove_member member_id parent household now = do
  found ← query (member_in member_id household.id)
  archive found parent now

-- `PATCH /v1/auth/push-token`
unfoldable pub update_push_token : Option Text → Member → Action Unit
update_push_token push_token member =
    modify (put_member (record member { push_token = push_token }))
