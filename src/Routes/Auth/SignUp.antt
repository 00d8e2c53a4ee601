-- ===== src/Routes/Auth/SignUp.antt =====
-- backend/app/routers/auth.py: the rows of a sign-up whose address is free.
use kids_chores_api.Session.Binds.{bind-ok}
use kids_chores_api.Accounts.Logins.{text_eq_refl, or-right, or-left, text_eq-sym}
use kids_chores_api.Session.{insert_member, pure, ◌>>◌, ok, Session}
use kids_chores_api.Prelude.{
  [], inr, inl, Bool-cases, arith, Bool, refl, text_eq, false, ◌==◌, ◌&&◌, some, any, find?, codes,
  none, ◌++◌, ◌≡◌, ◌∷◌, suc, List, Text,
}
use kids_chores_api.Routes.Auth.Rows.{new_parent, new_household, register_rows}
use kids_chores_api.Models.{email, excused_pays_nothing, MemberRole, Household, Member}
use kids_chores_api.Accounts.{same_login, same_provider, member_by_login, flush_new}

-- The household and the parent that a sign-up in a session makes, and the session after it.
abbrev pub home_of : Text → Session → Household
home_of display_name s = record {
  id = s.uuids s.drawn;
  name = display_name ++ codes "'s Family";
  timezone = codes "UTC";
  points_label = codes "points";
  excused_payout_policy = excused_pays_nothing;
  grace_period_hours = 24;
  task_reminder_minutes_before_due = 60;
  created_at = s.tx_time;
}

abbrev pub parent_of : Text → Text → Text → Session → Member
parent_of display_name address hash s = record {
  id = s.uuids (suc s.drawn);
  household_id = s.uuids s.drawn;
  role = MemberRole.parent;
  display_name = display_name;
  avatar = none;
  auth_provider = email;
  auth_subject = address;
  password_hash = some hash;
  pin_hash = none;
  birthdate = none;
  push_token = none;
  created_at = s.tx_time;
  archived_at = none;
}

abbrev pub signed_up : Text → Text → Text → Session → Session
signed_up display_name address hash s = record s {
  current = record s.current {
    households = home_of display_name s ∷ s.current.households;
    members = parent_of display_name address hash s ∷ s.current.members;
  };
  drawn = suc (suc s.drawn);
}

-- A row of another address and another household has another login.
free_row :
    (m n : Member)
    → m.auth_provider ≡ email
    → (same_provider n.auth_provider email && text_eq n.auth_subject m.auth_subject) ≡ false
    → (n.household_id == m.household_id) ≡ false
    → same_login m n ≡ false
free_row m n by_email free new = ground (arith, text_eq-sym m.auth_subject n.auth_subject)

free_login :
    (m : Member) (ms : List Member)
    → m.auth_provider ≡ email
    → find?
        (λ (n : Member).
          same_provider n.auth_provider email && text_eq n.auth_subject m.auth_subject)
        ms
      ≡ none
    → any (λ (n : Member). n.household_id == m.household_id) ms ≡ false
    → any (same_login m) ms ≡ false
free_login m [] by_email free new = refl
free_login m (n ∷ ms) by_email free new =
    let others : Bool = any (λ (x : Member). x.household_id == m.household_id) ms in
    elim (Bool-cases
      (same_provider n.auth_provider email && text_eq n.auth_subject m.auth_subject)) [
        | inl taken ↦ cc (rw taken at free)
        | inr open_to ↦
            rw
              (free_row m n by_email open_to
                (or-left (n.household_id == m.household_id) others new))
              (free_login m ms by_email (rw open_to at free)
                (or-right (n.household_id == m.household_id) others new))
      ]

flush_new-free :
    {A : Type 0} (m : Member) (a : A) (s : Session)
    → any (same_login m) s.current.members ≡ false
    → (flush_new m >> pure a) s ≡ (ok a, (insert_member m s).1)
unfolding flush_new
flush_new-free m a s free = bind-ok (flush_new m) (λ _. pure a) s (rw free refl)

pub register_rows-free :
    (display_name address hash : Text) (s : Session)
    → member_by_login email address s.current ≡ none
    → any (λ (n : Member). n.household_id == s.uuids s.drawn) s.current.members ≡ false
    → register_rows display_name email address (some hash) s ≡ (
      ok (home_of display_name s, parent_of display_name address hash s),
      signed_up display_name address hash s,
    )
unfolding register_rows new_household new_parent member_by_login
register_rows-free display_name address hash s free new =
    flush_new-free _ _ _
      (free_login (parent_of display_name address hash s) s.current.members refl free new)

-- The login of the new parent is found.
pub signed_up-known :
    (display_name address hash : Text) (s : Session)
    → member_by_login email address (signed_up display_name address hash s).current
      ≡ some (parent_of display_name address hash s)
unfolding member_by_login
signed_up-known display_name address hash s = rw (text_eq_refl address) refl
