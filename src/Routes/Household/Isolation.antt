-- ===== src/Routes/Household/Isolation.antt =====
-- What a parent does to a household leaves every other household alone.
use kids_chores_api.Session.Binds.{bind_keeps}
use kids_chores_api.Routes.Household.{
  age_years, archive, apply_update, remove_member, create_teen_profile, update_household,
}
use kids_chores_api.Generation.{Date}
use kids_chores_api.Schemas.{TeenProfileCreate, HouseholdUpdate}
use kids_chores_api.Session.Request.{get_db}
use kids_chores_api.Accounts.{flush_new, same_login, Externals}
use kids_chores_api.Accounts.Logins.{clash, any-found, or-left, ==-refl, IsUnique}
use kids_chores_api.Prelude.{
  ltb, ==_iff, Option-cases, sym, any, subst, arith, false, Option, true, Text, find?-holds, Bool,
  refl, [], if◌then◌else◌, ap, inr, some, inl, ◌&&◌, ◌==◌, Bool-cases, not, find?, ◌∷◌, ◌≡◌, filter,
  List,
}
use kids_chores_api.Models.{is_parent, Time, Member, RowId, Household}
use kids_chores_api.Session.{
  pure, member_in, ◌>>◌, err, ok, Result, Session, Action, Db, update_row,
}

-- The members of the other households, and the other households.
abbrev pub elsewhere : RowId → List Member → List Member
elsewhere k ms = filter (λ (m : Member). not (m.household_id == k)) ms

abbrev pub others : RowId → List Household → List Household
others k hs = filter (λ (h : Household). not (h.id == k)) hs

others-update_row :
    (h : Household) (hs : List Household)
    → others h.id (update_row (λ (r : Household). r.id) h hs) ≡ others h.id hs
unfolding update_row
others-update_row h [] = refl
others-update_row h (x ∷ hs) = elim (Bool-cases (x.id == h.id)) [
  | inl here ↦ rw here (rw (==-refl h.id) refl)
  | inr there ↦ rw there (rw there (ap (λ rest. x ∷ rest) (others-update_row h hs)))
]

twice_there :
    (b c : Bool) (m x n : Member)
    → (b && c) ≡ true
    → (m.id == n.id) ≡ b
    → (x.id == n.id) ≡ true
    → (m.id == x.id) ≡ false
    → ⊥
twice_there true c m x n found same here apart = ground (arith, same, here, apart)
twice_there false c m x n found same here apart = cc

-- The row with an id that is found in a household is the only one with that id.
elsewhere-update_row :
    (n m : Member) (k : RowId) (ms : List Member)
    → IsUnique ms
    → find? (λ (x : Member). x.id == n.id && x.household_id == k) ms ≡ some m
    → n.household_id ≡ k
    → elsewhere k (update_row (λ (r : Member). r.id) n ms) ≡ elsewhere k ms
unfolding update_row
elsewhere-update_row n m k [] unique found home = cc
elsewhere-update_row n m k (x ∷ ms) unique found home = elim (Bool-cases (x.id == n.id)) [
  | inl here ↦ elim (Bool-cases (x.household_id == k)) [
    | inl inside ↦ rw (here, home, inside) (rw (==-refl k) refl)
    | inr outside ↦
        let rest : find? (λ (r : Member). r.id == n.id && r.household_id == k) ms ≡ some m =
          rw (here, outside) at found in
        absurd (
          twice_there (m.id == n.id) (m.household_id == k) m x n
            (find?-holds (λ (r : Member). r.id == n.id && r.household_id == k) ms rest) refl here
            (or-left (m.id == x.id) (same_login x m) (
              any-found (λ (r : Member). r.id == n.id && r.household_id == k) (clash x) ms unique.0
                rest)))
  ]
  | inr there ↦
      let rest : elsewhere k (update_row (λ (r : Member). r.id) n ms) ≡ elsewhere k ms =
        elsewhere-update_row n m k ms unique.1 (rw there at found) home in
      rw there (ap (λ xs. if not (x.household_id == k) then x ∷ xs else xs) rest)
]

-- A new name or setting of the household, a new teen's profile, and a removal.
pub data HouseholdStep : Type 0 where
  renaming : HouseholdUpdate → HouseholdStep
  welcoming : TeenProfileCreate → Date → HouseholdStep
  dismissing : RowId → Member → Time → HouseholdStep

unfoldable pub household_step :
    Externals → (Text → Option Date) → Household → HouseholdStep → Session → Session
household_step ext parse_date h (renaming body) s = (get_db (update_household body h) s).1
household_step ext parse_date h (welcoming body today) s =
    (get_db (create_teen_profile ext parse_date body h today) s).1
household_step ext parse_date h (dismissing id parent now) s =
    (get_db (remove_member id parent h now) s).1

-- What a session leaves alone outside a household.
abbrev pub Spares : RowId → Db → Db → Type 0
Spares k db db' =
    (elsewhere k db'.members ≡ elsewhere k db.members)
    × (others k db'.households ≡ others k db.households)

get_db-Spares :
    {A : Type 0} (k : RowId) (db : Db) (m : Action A) (s : Session)
    → Spares k db (m s).1.current
    → Spares k db (m s).1.committed
    → Spares k db (get_db m s).1.current
unfolding get_db
get_db-Spares {A} k db m s now saved = go (m s) now saved
  where
    go :
        (r : Result A × Session)
        → Spares k db r.1.current
        → Spares k db r.1.committed
        → Spares k db (get_db (λ (t : Session). r) s).1.current
    go (ok a, t) h saved = h
    go (err e, t) h saved = saved

-- In the session, and in what a rollback returns to.
abbrev AllSpared : RowId → Db → Session → Type 0
AllSpared k db s = Spares k db s.current × Spares k db s.committed

flush_new-AllSpared :
    (k : RowId) (db : Db) (m : Member) (s : Session)
    → m.household_id ≡ k
    → AllSpared k db s
    → AllSpared k db (flush_new m s).1
unfolding flush_new
flush_new-AllSpared k db m s home spared =
    elim (Bool-cases (any (same_login m) s.current.members)) [
      | inl taken ↦ rw taken (spared.1, spared.1)
      | inr free ↦ rw free (rw (home, ==-refl k) ((spared.0.0, spared.0.1), spared.1))
    ]

module _ (ext : Externals) (parse_date : Text → Option Date) (h : Household) (s : Session)
    (begun : s.committed ≡ s.current) where
  at_first : AllSpared h.id s.current s
  at_first = ((refl, refl), subst (λ db. Spares h.id s.current db) (sym begun) (refl, refl))

  welcoming-AllSpared :
      (body : TeenProfileCreate) (today : Date)
      → AllSpared h.id s.current (create_teen_profile ext parse_date body h today s).1
  unfolding create_teen_profile
  welcoming-AllSpared body today = elim (Option-cases (parse_date body.birthdate)) [
    | inl unread ↦ rw unread at_first
    | inr (born, read) ↦ elim (Bool-cases (ltb (age_years born today) 13)) [
      | inl young ↦ rw (read, young) at_first
      | inr grown ↦
          rw (read, grown) (welcomed _ _ _ (flush_new-AllSpared h.id s.current _ _ refl at_first))
    ]
  ]
    where
      welcomed :
          (m n : Member) (t : Session)
          → AllSpared h.id s.current (flush_new m t).1
          → AllSpared h.id s.current ((flush_new m >> pure n) t).1
      welcomed m n t kept =
          bind_keeps (AllSpared h.id s.current) t (flush_new m) (λ _. pure n) kept (λ _ u z. z)

  dismissing-AllSpared :
      (id : RowId) (parent : Member) (now : Time)
      → IsUnique s.current.members
      → AllSpared h.id s.current (remove_member id parent h now s).1
  unfolding remove_member archive member_in
  dismissing-AllSpared id parent now unique = elim (Option-cases (member_in id h.id s.current)) [
    | inl absent ↦ rw absent at_first
    | inr (m, found) ↦ elim (Bool-cases (is_parent m.role && m.id == parent.id)) [
      | inl self ↦ rw (found, self) at_first
      | inr other ↦
          let held =
            find?-holds (λ (x : Member). x.id == id && x.household_id == h.id) s.current.members
              found in
          let its_id : m.id ≡ id = (==_iff m.id id).0 (ground (arith, held)) in
          rw (found, other)
            (
              (
                elsewhere-update_row (record m { archived_at = some now }) m h.id s.current.members
                    unique
                    (subst
                      (λ j.
                        find? (λ (x : Member). x.id == j && x.household_id == h.id)
                          s.current.members
                        ≡ some m)
                      (sym its_id) found)
                    ((==_iff m.household_id h.id).0 (ground (arith, held))),
                refl,
              ),
              at_first.1,
            )
    ]
  ]

  -- Renaming or setting up a household, adding a teen's profile and removing a member leave the
  -- members of every other household and every other household as they were, whoever is named in
  -- the request and whether it succeeds or is refused, if no two members have the same id or the same
  -- login.
  pub household_step-Spares :
      (c : HouseholdStep)
      → IsUnique s.current.members
      → Spares h.id s.current (household_step ext parse_date h c s).current
  unfolding household_step update_household apply_update
  household_step-Spares (renaming body) unique =
      get_db-Spares h.id s.current (update_household body h) s
        (refl, others-update_row (apply_update body h) s.current.households) at_first.1
  household_step-Spares (welcoming body today) unique =
      let spared = welcoming-AllSpared body today in
      get_db-Spares h.id s.current (create_teen_profile ext parse_date body h today) s spared.0
        spared.1
  household_step-Spares (dismissing id parent now) unique =
      let spared = dismissing-AllSpared id parent now unique in
      get_db-Spares h.id s.current (remove_member id parent h now) s spared.0 spared.1
