-- ===== src/Routes/Wallet/Debits.antt =====
-- What the approval of a claim debits.
use kids_chores_api.Prelude.Int.{int_laws, ℤ, ◌+ℤ◌, pos, ◌-ℤ◌}
use kids_chores_api.Ledger.Awards.{balance}
use kids_chores_api.Schemas.{ClaimResolveRequest}
use kids_chores_api.Routes.Wallet.{
  resolved, to_claim_response, close_claim, resolve_loaded, resolve_claim, claim_in, with_member,
}
use kids_chores_api.Ledger.{sum_delta, fulfil_claim}
use kids_chores_api.Ledger.Index.{violates-neither}
use kids_chores_api.Ledger.Posting.{
  LedgerCall, run_call, run_call-posting, perform_free, posting_of, debit_posting, entry_of, posted,
  one,
}
use kids_chores_api.Session.{
  find_row-update_row_self, update_row, ◌>>◌, ◌>>=◌, pure, when, add_claim, Session, Db, Result, ok,
  err, Action, find_row, member_in,
}
use kids_chores_api.Models.{ClaimStatus, Time, Household, RowId, Member, Claim, LedgerEntry}
use kids_chores_api.Prelude.{
  ℕ, ◌≢◌, sym, true, ◌≡◌, refl, ap, subst, ◌∙◌, Option, none, some, find?, find?-holds, ◌==◌,
  ==_iff,
}

from_one :
    (m : Action LedgerEntry) (s : Session) {e : LedgerEntry} {t : Session}
    → one m s ≡ (ok (some e), t)
    → m s ≡ (ok e, t)
from_one m s {e} {t} h = go (m s) h
  where
    go :
        (r : Result LedgerEntry × Session)
        → one (λ (u : Session). r) s ≡ (ok (some e), t)
        → r ≡ (ok e, t)
    go (ok x, u) k = cc
    go (err x, u) k = cc

-- The debit of a claim is never refused.
pub fulfil_claim-eq :
    (c : Claim) (a : Member) (s : Session)
    → fulfil_claim c a s
      ≡ (ok (entry_of (debit_posting c a) s), posted (entry_of (debit_posting c a) s) s)
unfolding run_call posting_of debit_posting
fulfil_claim-eq c a s = from_one (fulfil_claim c a) s (
    run_call-posting (LedgerCall.claim c a) s
    ∙ perform_free (debit_posting c a) s
        (violates-neither (entry_of (debit_posting c a) s) s.current.ledger_entries refl refl))

module _ (id household_id : RowId) (db : Db) where
  with_member-of :
      (c : Claim) (m : Member)
      → member_in c.member_id household_id db ≡ some m
      → with_member household_id db c ≡ some (c, m)
  unfolding with_member
  with_member-of c m f =
      ap
        (λ (o : Option Member). elim o as (λ _. Option (Claim × Member)) [
          | none ↦ none
          | some n ↦ some (c, n)
        ])
        f

  claim_in-of :
      (c : Claim) (m : Member)
      → find_row (λ (r : Claim). r.id) id db.claims ≡ some c
      → member_in c.member_id household_id db ≡ some m
      → claim_in id household_id db ≡ some (c, m)
  unfolding claim_in find_row
  claim_in-of c m e f = go (find? (λ (r : Claim). r.id == id) db.claims) e
    where
      go :
          (o : Option Claim)
          → o ≡ some c
          → elim o as (λ _. Option (Claim × Member)) [
            | none ↦ none
            | some x ↦ with_member household_id db x
          ]
            ≡ some (c, m)
      go none k = cc
      go (some x) k =
          let same : x ≡ c = cc k in
          subst (λ (y : Claim). with_member household_id db y ≡ some (c, m)) (sym same)
            (with_member-of c m f)

  with_member-parts :
      (x c : Claim) (m : Member)
      → with_member household_id db x ≡ some (c, m)
      → (x ≡ c) × (member_in x.member_id household_id db ≡ some m)
  unfolding with_member
  with_member-parts x c m h = go (member_in x.member_id household_id db) h
    where
      go :
          (o : Option Member)
          → elim o as (λ _. Option (Claim × Member)) [ none ↦ none | some n ↦ some (x, n) ]
            ≡ some (c, m)
          → (x ≡ c) × (o ≡ some m)
      go none e = cc
      go (some n) e = (
        ap (λ (o : Option (Claim × Member)). elim o as (λ _. Claim) [ none ↦ x | some p ↦ p.0 ]) e,
        ap
            (λ (o : Option (Claim × Member)). elim o as (λ _. Option Member) [
              | none ↦ none
              | some p ↦ some p.1
            ])
            e,
      )

  claim_in-parts :
      (c : Claim) (m : Member)
      → claim_in id household_id db ≡ some (c, m)
      → (find_row (λ (r : Claim). r.id) id db.claims ≡ some c)
        × (member_in c.member_id household_id db ≡ some m)
        × (c.id ≡ id)
  unfolding claim_in find_row
  claim_in-parts c m h = go (find? (λ (r : Claim). r.id == id) db.claims) refl h
    where
      go :
          (o : Option Claim)
          → find? (λ (r : Claim). r.id == id) db.claims ≡ o
          → elim o as (λ _. Option (Claim × Member)) [
            | none ↦ none
            | some x ↦ with_member household_id db x
          ]
            ≡ some (c, m)
          → (find? (λ (r : Claim). r.id == id) db.claims ≡ some c)
            × (member_in c.member_id household_id db ≡ some m)
            × (c.id ≡ id)
      go none e k = cc
      go (some x) e k =
          let (same, there) = with_member-parts x c m k in
          let hit : find? (λ (r : Claim). r.id == id) db.claims ≡ some c = e ∙ ap some same in
          (
            hit,
            subst (λ (y : Claim). member_in y.member_id household_id db ≡ some m) same there,
            (==_iff c.id id).0 (find?-holds (λ (r : Claim). r.id == id) db.claims hit),
          )

bind-ok :
    {A B : Type 0} (m : Action A) (f : A → Action B) (s : Session) {a : A} {t : Session}
    → m s ≡ (ok a, t)
    → (m >>= f) s ≡ f a t
bind-ok {A} {B} m f s h =
    ap
      (λ (x : Result A × Session). elim x.0 as (λ _. Result B × Session) [
        | ok b ↦ f b x.1
        | err e ↦ (err e, x.1)
      ])
      h

closed :
    (body : ClaimResolveRequest) (parent : Member) (now : Time) (c : Claim) (m : Member)
    (debit : Action Unit) (s t : Session)
    → debit s ≡ (ok tt, t)
    → close_claim true body parent now (c, m) debit s ≡ (
      ok (
          to_claim_response
            (resolved c ClaimStatus.fulfilled body.parent_note parent now)
            m.display_name),
      (add_claim (resolved c ClaimStatus.fulfilled body.parent_note parent now) t).1,
    )
unfolding close_claim
closed body parent now c m debit s t h =
    bind-ok debit
      (λ _. do
        add_claim (resolved c ClaimStatus.fulfilled body.parent_note parent now)
        pure (
            to_claim_response (resolved c ClaimStatus.fulfilled body.parent_note parent now)
              m.display_name))
      s h

debited :
    (c : Claim) (parent : Member) (s : Session)
    → when true (fulfil_claim c parent) s ≡ (ok tt, posted (entry_of (debit_posting c parent) s) s)
debited c parent s = bind-ok (fulfil_claim c parent) (λ _. pure tt) s (fulfil_claim-eq c parent s)

-- The approval of a claim that is found debits it and closes it, whatever its status was.
resolve_claim-approved :
    (id : RowId) (body : ClaimResolveRequest) (parent : Member) (household : Household) (now : Time)
    (s : Session) {c : Claim} {m : Member}
    → claim_in id household.id s.current ≡ some (c, m)
    → body.approve ≡ true
    → resolve_claim id body parent household now s ≡ (
      ok (
          to_claim_response
            (resolved c ClaimStatus.fulfilled body.parent_note parent now)
            m.display_name),
      (add_claim
          (resolved c ClaimStatus.fulfilled body.parent_note parent now)
          (posted (entry_of (debit_posting c parent) s) s)).1,
    )
unfolding resolve_claim resolve_loaded
resolve_claim-approved id body parent household now s {c} {m} found approving = rw found (
    rw approving (
      closed body parent now c m (when true (fulfil_claim c parent)) s
        (posted (entry_of (debit_posting c parent) s) s) (debited c parent s)))

abbrev approved : ClaimResolveRequest → Member → Time → Claim → Session → Session
approved body parent now c s =
    (add_claim (resolved c ClaimStatus.fulfilled body.parent_note parent now)
      (posted (entry_of (debit_posting c parent) s) s)).1

approved-debits :
    (body : ClaimResolveRequest) (parent : Member) (now : Time) (c : Claim) (s : Session)
    → balance c.member_id (approved body parent now c s)
      ≡ balance c.member_id s +ℤ (pos 0 -ℤ pos c.points)
unfolding sum_delta debit_posting
approved-debits body parent now c s = rw ((==_iff c.member_id c.member_id).1 refl) refl

not_none : {A : Type 0} {o : Option A} {a : A} → o ≡ some a → o ≢ none
not_none e h = cc

approved-claim_in :
    (id household_id : RowId) (body : ClaimResolveRequest) (parent : Member) (now : Time)
    (s : Session) {c : Claim} {m : Member}
    → claim_in id household_id s.current ≡ some (c, m)
    → claim_in id household_id (approved body parent now c s).current
      ≡ some (resolved c ClaimStatus.fulfilled body.parent_note parent now, m)
unfolding member_in
approved-claim_in id household_id body parent now s {c} {m} found =
    let (row, owner, same) = claim_in-parts id household_id s.current c m found in
    let closed_claim = resolved c ClaimStatus.fulfilled body.parent_note parent now in
    let row' : find_row (λ (r : Claim). r.id) closed_claim.id s.current.claims ≡ some c =
      subst (λ k. find_row (λ (r : Claim). r.id) k s.current.claims ≡ some c) (sym same) row in
    claim_in-of id household_id (approved body parent now c s).current closed_claim m
      (subst
        (λ k.
          find_row (λ (r : Claim). r.id) k
            (update_row (λ (r : Claim). r.id) closed_claim s.current.claims)
          ≡ some closed_claim)
        same
        (find_row-update_row_self (λ (r : Claim). r.id) closed_claim s.current.claims
          (not_none row')))
      owner

twice_less : (a : ℤ) (n : ℕ) → (a +ℤ (pos 0 -ℤ pos n)) +ℤ (pos 0 -ℤ pos n) ≡ (a -ℤ pos n) -ℤ pos n
twice_less a n = omega int_laws

-- Nothing stops a claim from being approved twice: the second approval debits its points once more,
-- whoever approves and whenever.
pub resolve_twice :
    (id : RowId) (body again : ClaimResolveRequest) (parent other : Member) (household : Household)
    (now later : Time) (s : Session) {c : Claim} {m : Member}
    → claim_in id household.id s.current ≡ some (c, m)
    → body.approve ≡ true
    → again.approve ≡ true
    → let first = resolve_claim id body parent household now s in
      let second_try = resolve_claim id again other household later first.1 in
      (balance c.member_id second_try.1 ≡ (balance c.member_id s -ℤ pos c.points) -ℤ pos c.points)
resolve_twice id body again parent other household now later s {c} {m} found first_yes second_yes =
    let s1 = approved body parent now c s in
    let c1 = resolved c ClaimStatus.fulfilled body.parent_note parent now in
    let once = resolve_claim-approved id body parent household now s found first_yes in
    let twice =
      resolve_claim-approved id again other household later s1
        (approved-claim_in id household.id body parent now s found) second_yes in
    rw once (
      rw twice (
        approved-debits again other later c1 s1
        ∙ ap (λ a. a +ℤ (pos 0 -ℤ pos c.points)) (approved-debits body parent now c s)
        ∙ twice_less (balance c.member_id s) c.points))
