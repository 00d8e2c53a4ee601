-- ===== src/Routes/Wallet/Scope.antt =====
-- Whose wallet a member may see.
use kids_chores_api.Routes.Wallet.{assert_wallet_access, assert_same_household}
use kids_chores_api.Session.{Session, ok, err, http, member_in, raise_if}
use kids_chores_api.Models.{RowId, Household, Member, is_teen}
use kids_chores_api.Prelude.{
  Bool, not, ◌&&◌, ◌==◌, ◌≡◌, refl, inl, inr, Option, none, some, is_none, if◌then◌else◌,
  Bool-cases,
}

-- The target is in the household, and is the caller where the caller is a teen.
unfoldable pub may_access : Member → RowId → Household → Session → Bool
may_access member target household s =
    not (is_teen member.role && not (member.id == target))
    && not (is_none (member_in target household.id s.current))

-- The check passes exactly for those, and otherwise raises 403 for another's wallet and 404 for an
-- unknown one; it changes nothing.
pub assert_wallet_access-eq :
    (member : Member) (target : RowId) (household : Household) (s : Session)
    → assert_wallet_access member target household s ≡ (
        if may_access member target household s then (ok tt, s) else (
          err (http (if is_teen member.role && not (member.id == target) then 403 else 404)),
          s,
        ))
unfolding assert_wallet_access assert_same_household may_access
assert_wallet_access-eq member target household s =
    elim (Bool-cases (is_teen member.role && not (member.id == target))) [
      | inl other ↦ rw other refl
      | inr own ↦ rw own (go (member_in target household.id s.current))
    ]
  where
    go :
        (o : Option Member)
        → (raise_if (is_none o) (http 404) s)
          ≡ (if not (is_none o) then (ok tt, s) else (err (http 404), s))
    go none = refl
    go (some m) = refl
