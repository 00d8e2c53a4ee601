-- ===== src/Redis/Linking.antt =====
-- backend/app/services/linking.py: the codes by which a teen takes over a profile.
use kids_chores_api.Redis.{IsCache, Cache}
use kids_chores_api.Prelude.{refl, ◌≡◌, ◌<◌, ◌≢◌, ℕ, Option, none, some, ◌+◌, ◌*◌}
use kids_chores_api.Models.{RowId, Time}
use kids_chores_api.Grace.{second}

-- `_CODE_TTL_SECONDS`
abbrev pub code_ttl_seconds : ℕ
code_ttl_seconds = 24 * 60 * 60

-- `link_code:{code}` holds a member, `link_code_for_member:{member_id}` a code.
module _ (Codes : Cache ℕ RowId) (Members : Cache RowId ℕ) where
  abbrev pub LinkStore : Type 0
  LinkStore = Codes.Store × Members.Store

  -- `if previous_code: await redis.delete(...)`
  drop_previous : Option ℕ → Codes.Store → Codes.Store
  drop_previous none codes = codes
  drop_previous (some previous) codes = Codes.delete previous codes

  -- `code` is what `secrets.randbelow(1_000_000)` draws; its six digits say the same.
  unfoldable pub create_link_code : RowId → ℕ → Time → LinkStore → (ℕ × Time) × LinkStore
  unfolding drop_previous
  create_link_code member_id code now (codes, members) =
      let codes' = drop_previous (Members.get now member_id members) codes in
      (
        (code, now + code_ttl_seconds * second),
        (
          Codes.set now code member_id code_ttl_seconds codes',
          Members.set now member_id code code_ttl_seconds members,
        ),
      )

  consume : Option RowId → ℕ → LinkStore → Option RowId × LinkStore
  consume none code s = (none, s)
  consume (some member_id) code (codes, members) =
      (some member_id, (Codes.delete code codes, Members.delete member_id members))

  unfoldable pub redeem_link_code : ℕ → Time → LinkStore → Option RowId × LinkStore
  unfolding consume
  redeem_link_code code now (codes, members) =
      consume (Codes.get now code codes) code (codes, members)

module _ (Codes : Cache ℕ RowId) (Members : Cache RowId ℕ) (codes_lawful : IsCache Codes)
    (members_lawful : IsCache Members) where
  -- A code that a parent has just created is redeemed for that member within the day, and only once.
  pub link_once :
      (member_id : RowId) (code : ℕ) (now later again : Time) (s : LinkStore Codes Members)
      → later < now + code_ttl_seconds * second
      → let s1 = (create_link_code Codes Members member_id code now s).1 in
        let s2 = (redeem_link_code Codes Members code later s1).1 in
        ((redeem_link_code Codes Members code later s1).0 ≡ some member_id)
        × (redeem_link_code Codes Members code again s2 ≡ (none, s2))
  unfolding create_link_code redeem_link_code
  link_once member_id code now later again (codes, members) soon =
      rw
        (codes_lawful.get-set now later code member_id code_ttl_seconds
          (drop_previous Codes Members (Members.get now member_id members) codes) soon)
        (
          refl,
          rw
              (codes_lawful.get-delete again code (
                Codes.set now code member_id code_ttl_seconds
                  (drop_previous Codes Members (Members.get now member_id members) codes)))
              refl,
        )

  -- A new code for a member makes the earlier one worthless.
  pub replaced_code :
      (member_id : RowId) (old new : ℕ) (now later again : Time) (s : LinkStore Codes Members)
      → old ≢ new
      → later < now + code_ttl_seconds * second
      → let s1 = (create_link_code Codes Members member_id old now s).1 in
        let s2 = (create_link_code Codes Members member_id new later s1).1 in
        redeem_link_code Codes Members old again s2 ≡ (none, s2)
  unfolding create_link_code redeem_link_code
  replaced_code member_id old new now later again (codes, members) differ soon =
      rw (members_lawful.get-set now later member_id old code_ttl_seconds members soon) (
        rw
          (codes_lawful.get-set_ne later again old new member_id code_ttl_seconds
            (Codes.delete old _) differ)
          (rw (codes_lawful.get-delete again old _) refl))
