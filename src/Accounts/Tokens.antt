-- ===== src/Accounts/Tokens.antt =====
-- Whom a token identifies.
use kids_chores_api.Accounts.{
  access_claims, Externals, create_access_token, create_refresh_token, decode_refresh_token,
  unix_of,
}
use kids_chores_api.Redis.RefreshTokens.{of_unix, unix_epoch}
use kids_chores_api.Grace.{second}
use kids_chores_api.Web.{World, Claims, get_current_member}
use kids_chores_api.Session.{ok-injective, Session, ok, find_row}
use kids_chores_api.Models.{RowId, Time, Member}
use kids_chores_api.Prelude.{
  ℕ, ◌+◌, ◌*◌, ◌<◌, ◌≤◌, ◌≡◌, refl, sym, ap, ◌∙◌, none, some, Text, arith,
}

-- A token decodes to its claims until it expires.
abbrev pub Signs : Externals → Type 0
Signs ext =
    (c : Claims) (e : ℕ) (t : Time)
    → c.exp ≡ some e
    → t < of_unix e
    → ext.decode (ext.encode c) t ≡ some c

not_expired :
    (now later : Time) (life : ℕ)
    → unix_epoch ≤ now
    → later + second ≤ now + life * second
    → later < of_unix (unix_of (now + life * second))
not_expired now later life old h = omega arith

module _ (ext : Externals) (signs : Signs ext) {S : Type 0} (member : Member) (now later : Time)
    (since : unix_epoch ≤ now) (w : World S)
    (found : find_row (λ (m : Member). m.id) member.id w.session.current.members
      ≡ some member) where
  identified :
      (token : Text) (c : Claims)
      → ext.decode token later ≡ some c
      → c.sub ≡ some member.id
      → get_current_member (λ t. ext.decode t later) token w ≡ (ok member, w)
  unfolding get_current_member
  identified token c decoded sub = rw decoded (rw sub (rw found refl))

  -- An access token identifies the member that it was made for, for an hour less the fraction of a
  -- second, whatever has been done in between, as long as the row is there.
  pub access_token-member :
      (household_id : RowId)
      → later + second ≤ now + 60 * 60 * second
      → get_current_member
          (λ t. ext.decode t later)
          (create_access_token ext member.id household_id now)
          w
        ≡ (ok member, w)
  unfolding create_access_token
  access_token-member household_id soon =
      identified _ _ (signs _ _ later refl (not_expired now later (60 * 60) since soon)) refl

  -- A refresh token identifies its member just as an access token does, for thirty days less the
  -- fraction of a second: its type is not looked at, nor whether it has been redeemed.
  pub refresh_token_member :
      (s : Session) {token : Text}
      → later + second ≤ now + 30 * 24 * 60 * 60 * second
      → (create_refresh_token ext member.id now s).0 ≡ ok token
      → get_current_member (λ t. ext.decode t later) token w ≡ (ok member, w)
  unfolding create_refresh_token
  refresh_token_member s {token} soon made =
      identified token _
        (ap (λ t. ext.decode t later) (sym (ok-injective made))
          ∙ signs _ _ later refl (not_expired now later (30 * 24 * 60 * 60) since soon))
        refl

  -- An access token does not pass for a refresh token.
  pub access_token_no_refresh :
      (household_id : RowId)
      → later + second ≤ now + 60 * 60 * second
      → decode_refresh_token ext (create_access_token ext member.id household_id now) later ≡ none
  unfolding create_access_token decode_refresh_token
  access_token_no_refresh household_id soon =
      rw
        (signs (access_claims member.id household_id now) _ later refl
          (not_expired now later (60 * 60) since soon))
        refl
