-- ===== src/Accounts/Logins.antt =====
-- No two members have the same id or the same login, as `uq_member_auth` and
-- `uq_member_auth_provider_subject_global` ask: the rows that a flush admits.
use kids_chores_api.Accounts.{same_provider, member_by_login, same_login}
use kids_chores_api.Prelude.{
  sym, ◌∙◌, ==_iff, ℕ, true, inr, subst, inl, Bool-cases, refl, some, [], find?, ◌||◌, ◌&&◌, arith,
  false, ◌∷◌, text_eq, any, ◌≡◌, ◌==◌, not, Text, List, Bool,
}
use kids_chores_api.Models.{AuthProvider, Member, RowId}
use kids_chores_api.Session.{Db, find_row, update_row}

module _ {A : Type 0} where
  any-weaken :
      (p q : A → Bool)
      → ((x : A) → p x ≡ false → q x ≡ false)
      → (xs : List A) → any p xs ≡ false
      → any q xs ≡ false
  any-weaken p q h [] none_so = refl
  any-weaken p q h (x ∷ xs) none_so = ground (arith, h x, any-weaken p q h xs)

  pub any-or :
      (p q : A → Bool) (xs : List A)
      → any p xs ≡ false
      → any q xs ≡ false
      → any (λ x. p x || q x) xs ≡ false
  any-or p q [] no_p no_q = refl
  any-or p q (x ∷ xs) no_p no_q = ground (arith, any-or p q xs)

  -- What is found meets no test that nothing meets.
  pub any-found :
      (p q : A → Bool) (xs : List A) {x : A} → any q xs ≡ false → find? p xs ≡ some x → q x ≡ false
  any-found p q [] no_q h = cc
  any-found p q (y ∷ xs) {x} no_q h = elim (Bool-cases (p y)) [
    | inl here ↦
        let same : y ≡ x = cc (rw here at h) in subst (λ z. q z ≡ false) same (ground (arith, no_q))
    | inr there ↦ any-found p q xs (ground (arith, no_q)) (rw there at h)
  ]

  any-update_row :
      (id : A → RowId) (q : A → Bool) (r : A) (xs : List A)
      → q r ≡ false
      → any q xs ≡ false
      → any q (update_row id r xs) ≡ false
  unfolding update_row
  any-update_row id q r [] no_r no_q = refl
  any-update_row id q r (x ∷ xs) no_r no_q = ground (arith, any-update_row id q r xs no_r)

pub text_eq-sym : (t u : Text) → text_eq t u ≡ text_eq u t
text_eq-sym [] [] = refl
text_eq-sym [] (d ∷ u) = refl
text_eq-sym (c ∷ t) [] = refl
text_eq-sym (c ∷ t) (d ∷ u) = ground (arith, text_eq-sym t u)

same_login-sym : (m n : Member) → same_login m n ≡ same_login n m
same_login-sym m n = ground (arith, text_eq-sym m.auth_subject n.auth_subject)

-- The same row, or the same login.
abbrev pub clash : Member → Member → Bool
clash m n = n.id == m.id || same_login m n

abbrev pub IsUnique : List Member → Type 0
IsUnique [] = Unit
IsUnique (m ∷ ms) = (any (clash m) ms ≡ false) × IsUnique ms

-- Another row has the login.
abbrev pub in_use_by : Member → Member → Bool
in_use_by m n = not (n.id == m.id) && same_login m n

not_same : (m n : Member) (b : Bool) → (b || same_login m n) ≡ false → same_login m n ≡ false
not_same m n true h = cc
not_same m n false h = h

no_other :
    (m n : Member) (b : Bool)
    → b ≡ false
    → (not b && same_login m n) ≡ false
    → same_login m n ≡ false
no_other m n true e h = cc
no_other m n false e h = h

and_false : (b : Bool) → (b && false) ≡ false
and_false true = refl
and_false false = refl

pub or-left : (a b : Bool) → (a || b) ≡ false → a ≡ false
or-left true b h = cc
or-left false b h = refl

pub or-right : (a b : Bool) → (a || b) ≡ false → b ≡ false
or-right true b h = cc
or-right false b h = h

==-sym : (a b : ℕ) → (a == b) ≡ (b == a)
==-sym a b = ground arith

pub ==-refl : (a : ℕ) → (a == a) ≡ true
==-refl a = ground arith

clash-free : (m n : Member) → clash m n ≡ false → in_use_by m n ≡ false
clash-free m n h = rw (or-right (n.id == m.id) (same_login m n) h) (and_false (not (n.id == m.id)))

in_use_by-eq : (m n : Member) → same_login m n ≡ false → in_use_by m n ≡ false
in_use_by-eq m n h = rw h (and_false (not (n.id == m.id)))

-- The row that another is written over stands apart from the rest.
apart :
    (m x n : Member) → x.id ≡ m.id → clash x n ≡ false → in_use_by m n ≡ false → clash m n ≡ false
apart m x n same_id no_clash free =
    let other : (n.id == m.id) ≡ false =
      subst (λ k. (n.id == k) ≡ false) same_id (or-left (n.id == x.id) (same_login x n) no_clash) in
    rw (other, no_other m n (n.id == m.id) other free)

pub update_row-IsUnique :
    (m : Member) (ms : List Member)
    → IsUnique ms
    → any (in_use_by m) ms ≡ false
    → IsUnique (update_row (λ (r : Member). r.id) m ms)
unfolding update_row
update_row-IsUnique m [] unique free = unique
update_row-IsUnique m (x ∷ ms) unique free = elim (Bool-cases (x.id == m.id)) [
  | inl here ↦ rw here (
    any-weaken (λ n. clash x n || in_use_by m n) (clash m)
        (λ n e.
          apart m x n ((==_iff x.id m.id).0 here) (or-left (clash x n) (in_use_by m n) e)
            (or-right (clash x n) (in_use_by m n) e))
        ms
        (any-or (clash x) (in_use_by m) ms unique.0
          (or-right (in_use_by m x) (any (in_use_by m) ms) free)),
    unique.1,
  )
  | inr there ↦
      let elsewhere : any (in_use_by m) ms ≡ false =
        or-right (in_use_by m x) (any (in_use_by m) ms) free in
      let apart_from : clash x m ≡ false =
        rw (==-sym m.id x.id, there, same_login-sym x m)
          (no_other m x (x.id == m.id) there
            (or-left (in_use_by m x) (any (in_use_by m) ms) free)) in
      rw there (
        any-update_row (λ (r : Member). r.id) (clash x) m ms apart_from unique.0,
        update_row-IsUnique m ms unique.1 elsewhere,
      )
]

-- A member of the table has a login that no other row has.
pub found-free :
    (p : Member → Bool) (m : Member) (ms : List Member)
    → IsUnique ms
    → find? p ms ≡ some m
    → any (in_use_by m) ms ≡ false
found-free p m [] unique found = cc
found-free p m (x ∷ ms) unique found = elim (Bool-cases (p x)) [
  | inl here ↦
      let same : x ≡ m = cc (rw here at found) in
      subst (λ t. any (in_use_by t) (x ∷ ms) ≡ false) same
        (rw (==-refl x.id) (any-weaken (clash x) (in_use_by x) (λ n. clash-free x n) ms unique.0))
  | inr there ↦
      let rest : find? p ms ≡ some m = rw there at found in
      rw
        (in_use_by-eq m x (
          same_login-sym m x
          ∙ not_same x m (m.id == x.id) (any-found p (clash x) ms unique.0 rest)))
        (found-free p m ms unique.1 rest)
]

pub text_eq_refl : (t : Text) → text_eq t t ≡ true
text_eq_refl [] = refl
text_eq_refl (c ∷ t) = rw (==-refl c) (text_eq_refl t)

same_provider_refl : (p : AuthProvider) → same_provider p p ≡ true
same_provider_refl p = ground arith

-- The test of the query on a login.
abbrev has_login : AuthProvider → Text → Member → Bool
has_login provider subject n =
    same_provider n.auth_provider provider && text_eq n.auth_subject subject

other_login :
    (x m : Member) → same_login x m ≡ false → has_login m.auth_provider m.auth_subject x ≡ false
other_login x m h = ground (arith, h)

find_login :
    (m : Member) (ms : List Member)
    → IsUnique ms
    → find? (λ (r : Member). r.id == m.id) ms ≡ some m
    → find? (has_login m.auth_provider m.auth_subject) ms ≡ some m
find_login m [] unique found = cc
find_login m (x ∷ ms) unique found = elim (Bool-cases (x.id == m.id)) [
  | inl here ↦
      let same : m ≡ x = cc (rw here at found) in
      subst (λ t. find? (has_login t.auth_provider t.auth_subject) (x ∷ ms) ≡ some t) (sym same)
        (rw (same_provider_refl x.auth_provider, text_eq_refl x.auth_subject) refl)
  | inr there ↦
      let rest : find? (λ (r : Member). r.id == m.id) ms ≡ some m = rw there at found in
      rw
        (other_login x m (
          not_same x m (m.id == x.id)
            (any-found (λ (r : Member). r.id == m.id) (clash x) ms unique.0 rest)))
        (find_login m ms unique.1 rest)
]

-- While no two members have the same id or the same login, the query on a login finds the member
-- whose login it is, and no other.
pub member_by_login-finds :
    (db : Db) (m : Member)
    → IsUnique db.members
    → find_row (λ (r : Member). r.id) m.id db.members ≡ some m
    → member_by_login m.auth_provider m.auth_subject db ≡ some m
unfolding member_by_login find_row
member_by_login-finds db m unique found = find_login m db.members unique found
