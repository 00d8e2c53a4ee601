-- ===== src/Web.antt =====
-- What a request works on: the database session, a store of Redis, and the pushes that were sent
-- (backend/app/services/push.py, PushService.antt, hands each to the push service). The dependencies
-- of backend/app/auth/dependencies.py, which every route takes.
pub mod Notifications
use kids_chores_api.Models.{RowId, Household, Member, is_parent}
use kids_chores_api.Prelude.{
  ap, ◌≡◌, ℕ, Bool, not, Option, none, some, List, ◌++◌, Text, if◌then◌else◌,
}
use kids_chores_api.Session.{
  Session, Result, ok, err, Error, http, Action, commit, rollback, find_row, Db,
}

pub record Push : Type 0 where
  pub token : Text
  pub title : Text
  pub body : Text

pub record World (S : Type 0) : Type 0 where
  pub session : Session
  pub store : S
  pub pushed : List Push

abbrev pub Web : Type 0 → Type 0 → Type 0
Web S A = World S → Result A × World S

module _ {S A : Type 0} where
  abbrev pub pure : A → Web S A
  pure a w = (ok a, w)

  abbrev pub raise : Error → Web S A
  raise e w = (err e, w)

  abbrev pub or_raise : Option A → Error → Web S A
  or_raise none e = raise e
  or_raise (some a) e = pure a

  -- A part of the handler that works on the database session alone.
  abbrev pub on_session : Action A → Web S A
  on_session m w = let (r, s) = m w.session in (r, record w { session = s })

  abbrev pub query : (Db → A) → Web S A
  query f w = (ok (f w.session.current), w)

  -- A part that works on Redis alone.
  abbrev pub on_store : (S → A × S) → Web S A
  on_store f w = let (a, t) = f w.store in (ok a, record w { store = t })

  -- `get_db`: commits when the handler has returned, rolls back when it has raised.
  settle : Result A × World S → Result A × World S
  settle (ok a, w) = (ok a, record w { session = commit w.session })
  settle (err e, w) = (err e, record w { session = rollback w.session })

  unfoldable pub request : Web S A → Web S A
  unfolding settle
  request handler w = settle (handler w)

infixl 5 ◌>>=◌ ◌>>◌
abbrev pub ◌>>=◌ : {S A B : Type 0} → Web S A → (A → Web S B) → Web S B
◌>>=◌ m f w = let (r, w') = m w in elim r [ ok a ↦ f a w' | err e ↦ (err e, w') ]

abbrev pub ◌>>◌ : {S A B : Type 0} → Web S A → Web S B → Web S B
m >> k = m >>= λ _. k

module _ {S A B : Type 0} (m : Web S A) (f : A → Web S B) (w : World S) {v : World S} where
  pub >>=-ok : {a : A} → m w ≡ (ok a, v) → (m >>= f) w ≡ f a v
  >>=-ok h =
      ap
        (λ (r : Result A × World S). elim r.0 as (λ _. Result B × World S) [
          | ok b ↦ f b r.1
          | err e ↦ (err e, r.1)
        ])
        h

  pub >>=-err : {e : Error} → m w ≡ (err e, v) → (m >>= f) w ≡ (err e, v)
  >>=-err h =
      ap
        (λ (r : Result A × World S). elim r.0 as (λ _. Result B × World S) [
          | ok b ↦ f b r.1
          | err e ↦ (err e, r.1)
        ])
        h

-- What a handler and what follows it keep of the world, the sequence keeps.
pub steps_keep {ℓ} :
    {S A B : Type 0} (P : World S → Type ℓ) (m : Web S A) (f : A → Web S B) (w : World S)
    → P (m w).1
    → ((a : A) (v : World S) → P v → P (f a v).1)
    → P ((m >>= f) w).1
steps_keep {S} {A} {B} P m f w kept rest = go (m w) kept
  where
    go : (r : Result A × World S) → P r.1 → P (((λ (v : World S). r) >>= f) w).1
    go (ok a, v) h = rest a v h
    go (err e, v) h = h

abbrev pub raise_if : {S : Type 0} → Bool → Error → Web S (Unit {0})
raise_if c e w = (if c then err e else ok tt, w)

abbrev pub send_pushes : {S : Type 0} → List Push → Web S (Unit {0})
send_pushes ps w = (ok tt, record w { pushed = w.pushed ++ ps })

-- The claims of a token that the code writes and reads; `exp` is in Unix seconds.
pub record Claims : Type 0 where
  pub sub : Option RowId
  pub hid : Option RowId
  pub is_refresh : Bool
  pub jti : Option RowId
  pub exp : Option ℕ

member_with : Option RowId → Db → Option Member
member_with none db = none
member_with (some id) db = find_row (λ (m : Member). m.id) id db.members

module _ {S : Type 0} (decode_token : Text → Option Claims) where
  unfoldable pub get_current_member : Text → Web S Member
  unfolding member_with
  get_current_member token = do
    payload ← or_raise (decode_token token) (http 401)
    member ← query (member_with payload.sub)
    or_raise member (http 401)

module _ {S : Type 0} where
  unfoldable pub get_current_household : Member → Web S Household
  get_current_household member = do
    household ← query (λ db. find_row (λ (h : Household). h.id) member.household_id db.households)
    or_raise household (http 404)

  unfoldable pub require_parent : Member → Web S Member
  require_parent member = do raise_if (not (is_parent member.role)) (http 403); pure member
