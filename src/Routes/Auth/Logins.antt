-- ===== src/Routes/Auth/Logins.antt =====
-- The routes of backend/app/routers/auth.py and household.py that write members, one after another.
use kids_chores_api.Routes.Auth.Orderly.{
  IsOrderly, drawing, new_row, put_member-IsOrderly, flush_changed-IsOrderly, get_db-IsOrderly,
}
use kids_chores_api.Routes.Household.{
  age_years, archive, update_push_token, remove_member, create_teen_profile,
}
use kids_chores_api.Routes.Auth.Rows.{
  linked_row, new_parent, in_use, new_household, link_rows, register_rows,
}
use kids_chores_api.Accounts.Logins.{found-free, in_use_by}
use kids_chores_api.Generation.{Date}
use kids_chores_api.Schemas.{TeenProfileCreate}
use kids_chores_api.Models.{is_parent, Time, Household, AuthProvider, Member, RowId}
use kids_chores_api.Prelude.{
  none, ◌&&◌, suc, some, ltb, find?, Bool, Option-cases, inr, inl, refl, Bool-cases, [], ◌==◌,
  arith, ◌∷◌, ◌≡◌, Option, List, Text,
}
use kids_chores_api.Accounts.{put_member, flush_changed, Externals}
use kids_chores_api.Session.Binds.{on_error_keeps, bind_keeps}
use kids_chores_api.Session.Request.{get_db}
use kids_chores_api.Session.{
  member_in, on_error, pure, find_row, Action, Session, ◌>>=◌, or_raise, query, http,
}

-- A sign-up, a new teen's profile, a profile that takes over a login, a removal, and a push token. The
-- member that is linked or signed in is loaded by its id.
pub data AccountStep : Type 0 where
  registering : Text → AuthProvider → Text → Option Text → AccountStep
  adding : TeenProfileCreate → Household → Date → AccountStep
  linking : RowId → Text → Text → AccountStep
  removing : RowId → Member → Household → Time → AccountStep
  telling : Option Text → RowId → AccountStep

abbrev loaded : RowId → Action Member
loaded id =
    query (λ db. find_row (λ (m : Member). m.id) id db.members) >>= λ (found : Option Member).
    or_raise found (http 401)

-- Each is a request, which commits or rolls back.
unfoldable pub account : Externals → (Text → Option Date) → AccountStep → Session → Session
account ext parse_date (registering name provider subject hash) s =
    (get_db (register_rows name provider subject hash) s).1
account ext parse_date (adding body household today) s =
    (get_db (create_teen_profile ext parse_date body household today) s).1
account ext parse_date (linking id address hash) s =
    (get_db (loaded id >>= λ (m : Member). link_rows m address hash) s).1
account ext parse_date (removing id parent household now) s =
    (get_db (remove_member id parent household now) s).1
account ext parse_date (telling push_token id) s =
    (get_db (loaded id >>= update_push_token push_token) s).1

unfoldable pub accounts : Externals → (Text → Option Date) → List AccountStep → Session → Session
accounts ext parse_date [] s = s
accounts ext parse_date (c ∷ cs) s = accounts ext parse_date cs (account ext parse_date c s)

module _ (s : Session) (orderly : IsOrderly s) where
  register_rows-IsOrderly :
      (name : Text) (provider : AuthProvider) (subject : Text) (hash : Option Text)
      → IsOrderly (register_rows name provider subject hash s).1
  unfolding register_rows new_household new_parent
  register_rows-IsOrderly name provider subject hash =
      new_row _ _ (suc s.drawn) _ refl (omega arith) (orderly.now.ahead (suc s.drawn) (omega arith))
        (record {
          distinct = orderly.distinct;
          now =
              drawing s.uuids s.drawn (suc (suc s.drawn)) s.current.members (omega arith)
                orderly.now;
          saved =
              drawing s.uuids s.drawn (suc (suc s.drawn)) s.committed.members (omega arith)
                orderly.saved;
        })

  create_teen_profile-IsOrderly :
      (ext : Externals) (parse_date : Text → Option Date) (body : TeenProfileCreate)
      (household : Household) (today : Date)
      → IsOrderly (create_teen_profile ext parse_date body household today s).1
  unfolding create_teen_profile
  create_teen_profile-IsOrderly ext parse_date body household today =
      elim (Option-cases (parse_date body.birthdate)) [
        | inl unread ↦ rw unread orderly
        | inr (born, read) ↦ elim (Bool-cases (ltb (age_years born today) 13)) [
          | inl young ↦ rw (read, young) orderly
          | inr grown ↦
              rw (read, grown)
                (new_row _ _ s.drawn _ refl (omega arith) (orderly.now.ahead s.drawn (omega arith))
                  (record {
                    distinct = orderly.distinct;
                    now =
                        drawing s.uuids s.drawn (suc s.drawn) s.current.members (omega arith)
                          orderly.now;
                    saved =
                        drawing s.uuids s.drawn (suc s.drawn) s.committed.members (omega arith)
                          orderly.saved;
                  }))
        ]
      ]

  link_rows-IsOrderly :
      (m : Member) (address hash : Text) → IsOrderly (link_rows m address hash s).1
  unfolding link_rows
  link_rows-IsOrderly m address hash =
      bind_keeps IsOrderly s (on_error in_use (flush_changed (linked_row m address hash)))
        (λ _. pure (linked_row m address hash))
        (on_error_keeps IsOrderly s in_use (flush_changed (linked_row m address hash))
          (flush_changed-IsOrderly (linked_row m address hash) s orderly))
        (λ _ t h. h)

  loaded-IsOrderly :
      {A : Type 0} (id : RowId) (f : Member → Action A)
      → ((m : Member)
          → find_row (λ (n : Member). n.id) id s.current.members ≡ some m
          → IsOrderly (f m s).1)
      → IsOrderly ((loaded id >>= f) s).1
  loaded-IsOrderly {A} id f rest = go (find_row (λ (n : Member). n.id) id s.current.members) refl
    where
      go :
          (o : Option Member)
          → find_row (λ (n : Member). n.id) id s.current.members ≡ o
          → IsOrderly ((or_raise o (http 401) >>= f) s).1
      go none e = orderly
      go (some m) e = rest m e

  -- A member of the table is written over with its login as it was.
  same_login-IsOrderly :
      (p : Member → Bool) (m n : Member)
      → find? p s.current.members ≡ some m
      → in_use_by n ≡ in_use_by m
      → IsOrderly (record s { current = put_member n s.current })
  same_login-IsOrderly p m n found same =
      put_member-IsOrderly n s (rw same (found-free p m s.current.members orderly.now.unique found))
        orderly

  telling-IsOrderly :
      (push_token : Option Text) (id : RowId)
      → IsOrderly ((loaded id >>= update_push_token push_token) s).1
  unfolding update_push_token find_row
  telling-IsOrderly push_token id = loaded-IsOrderly id (update_push_token push_token) (λ m found.
      same_login-IsOrderly (λ (n : Member). n.id == id) m (record m { push_token = push_token })
        found refl)

  remove_member-IsOrderly :
      (id : RowId) (parent : Member) (household : Household) (now : Time)
      → IsOrderly (remove_member id parent household now s).1
  unfolding remove_member archive member_in
  remove_member-IsOrderly id parent household now =
      elim (Option-cases (member_in id household.id s.current)) [
        | inl absent ↦ rw absent orderly
        | inr (m, found) ↦ elim (Bool-cases (is_parent m.role && m.id == parent.id)) [
          | inl self ↦ rw (found, self) orderly
          | inr other ↦
              rw (found, other)
                (same_login-IsOrderly (λ (n : Member). n.id == id && n.household_id == household.id)
                  m (record m { archived_at = some now }) found refl)
        ]
      ]

module _ (ext : Externals) (parse_date : Text → Option Date) where
  account-IsOrderly :
      (c : AccountStep) (s : Session) → IsOrderly s → IsOrderly (account ext parse_date c s)
  unfolding account
  account-IsOrderly (registering name provider subject hash) s orderly =
      get_db-IsOrderly (register_rows name provider subject hash) s
        (register_rows-IsOrderly s orderly name provider subject hash)
  account-IsOrderly (adding body household today) s orderly =
      get_db-IsOrderly (create_teen_profile ext parse_date body household today) s
        (create_teen_profile-IsOrderly s orderly ext parse_date body household today)
  account-IsOrderly (linking id address hash) s orderly =
      get_db-IsOrderly (loaded id >>= λ (m : Member). link_rows m address hash) s (
        loaded-IsOrderly s orderly id (λ (m : Member). link_rows m address hash)
          (λ m found. link_rows-IsOrderly s orderly m address hash))
  account-IsOrderly (removing id parent household now) s orderly =
      get_db-IsOrderly (remove_member id parent household now) s
        (remove_member-IsOrderly s orderly id parent household now)
  account-IsOrderly (telling push_token id) s orderly =
      get_db-IsOrderly (loaded id >>= update_push_token push_token) s
        (telling-IsOrderly s orderly push_token id)

  -- Whatever sign-ups, new profiles of teens, profiles that take over a login, removals and push
  -- tokens are served, in any order and whether they succeed or are refused: when no two members
  -- have the same id or the same login, and the ids to be drawn are new and differ, no two members
  -- ever have.
  pub accounts-IsOrderly :
      (cs : List AccountStep) (s : Session) → IsOrderly s → IsOrderly (accounts ext parse_date cs s)
  unfolding accounts
  accounts-IsOrderly [] s orderly = orderly
  accounts-IsOrderly (c ∷ cs) s orderly =
      accounts-IsOrderly cs (account ext parse_date c s) (account-IsOrderly c s orderly)
