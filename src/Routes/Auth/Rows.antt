-- ===== src/Routes/Auth/Rows.antt =====
-- backend/app/routers/auth.py: the rows that signing up makes and changes.
use kids_chores_api.Accounts.{flush_new, flush_changed}
use kids_chores_api.Session.{
  Action, Error, http, integrity_error, pure, on_error, uuid, db_now, insert_household, ◌>>=◌, ◌>>◌,
}
use kids_chores_api.Models.{
  RowId, Household, Member, parent, AuthProvider, email, excused_pays_nothing,
}
use kids_chores_api.Prelude.{Option, none, some, ◌++◌, Text, codes}

-- `Household(name=...)` with its defaults, added and flushed.
unfoldable pub new_household : Text → Action Household
new_household display_name = do
  id ← uuid
  created_at ← db_now
  let household : Household = record {
    id = id;
    name = display_name ++ codes "'s Family";
    timezone = codes "UTC";
    points_label = codes "points";
    excused_payout_policy = excused_pays_nothing;
    grace_period_hours = 24;
    task_reminder_minutes_before_due = 60;
    created_at = created_at;
  }
  insert_household household
  pure household

-- A parent of that household, not yet added.
unfoldable pub new_parent : RowId → Text → AuthProvider → Text → Option Text → Action Member
new_parent household_id display_name provider subject password_hash = do
  id ← uuid
  created_at ← db_now
  pure (record {
    id = id;
    household_id = household_id;
    role = parent;
    display_name = display_name;
    avatar = none;
    auth_provider = provider;
    auth_subject = subject;
    password_hash = password_hash;
    pin_hash = none;
    birthdate = none;
    push_token = none;
    created_at = created_at;
    archived_at = none;
  })

-- `except IntegrityError`: the address is in use.
abbrev pub in_use : Error → Error
in_use integrity_error = http 409
in_use e = e

-- A household with its first parent, whose login must be free.
unfoldable pub register_rows :
    Text → AuthProvider → Text → Option Text → Action (Household × Member)
unfolding new_household new_parent
register_rows display_name provider subject password_hash = do
  household ← new_household display_name
  member ← new_parent household.id display_name provider subject password_hash
  flush_new member
  pure (household, member)

-- A teen's profile takes over an address and a password.
abbrev pub linked_row : Member → Text → Text → Member
linked_row member address password_hash = record member {
  auth_provider = email;
  auth_subject = address;
  password_hash = some password_hash;
}

unfoldable pub link_rows : Member → Text → Text → Action Member
link_rows member address password_hash = do
  on_error in_use (flush_changed (linked_row member address password_hash))
  pure (linked_row member address password_hash)
