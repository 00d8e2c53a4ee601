-- ===== src/Life/Wallet.antt =====
-- What the wallet writes names no task.
use kids_chores_api.Life.Frame.{IsSettled}
use kids_chores_api.Life.Series.{neutral-IsSettled, one-session}
use kids_chores_api.Ledger.Posting.{LedgerCall, run_call, Posting, posting_of}
use kids_chores_api.Ledger.{fulfil_claim, manual_adjustment}
use kids_chores_api.Routes.Wallet.{
  close_claim, resolve_claim, resolve_loaded, manual_adjust, submit_claim, assert_same_household,
  claim_in,
}
use kids_chores_api.Session.{
  raise_if, or_raise, Session, Result, ok, err, http, when, ◌>>=◌, ◌>>◌, member_in,
}
use kids_chores_api.Schemas.{ClaimResolveRequest, ManualAdjustRequest, ClaimCreate}
use kids_chores_api.Models.{LedgerEntry, RowId, Time, Household, Member, Claim}
use kids_chores_api.Prelude.Int.{ℤ}
use kids_chores_api.Prelude.{
  Text, ◌≡◌, Bool, true, false, Option, none, some, subst, is_none, arith,
}

claim_neutral :
    (c : Claim) (a : Member) (p : Posting)
    → posting_of (LedgerCall.claim c a) ≡ ok (some p)
    → p.task_instance_id ≡ none
unfolding posting_of
claim_neutral c a p e = cc

adjustment_neutral :
    (m : RowId) (d : ℤ) (r : Text) (a : Member) (p : Posting)
    → posting_of (LedgerCall.adjustment m d r a) ≡ ok (some p)
    → p.task_instance_id ≡ none
unfolding posting_of
adjustment_neutral m d r a p e = ground arith

fulfil_claim-IsSettled :
    (c : Claim) (a : Member) (s : Session) → IsSettled s → IsSettled (fulfil_claim c a s).1
unfolding run_call
fulfil_claim-IsSettled c a s kept =
    subst IsSettled (one-session (fulfil_claim c a) s)
      (neutral-IsSettled (LedgerCall.claim c a) s (claim_neutral c a) kept)

manual_adjustment-IsSettled :
    (m : RowId) (d : ℤ) (r : Text) (a : Member) (s : Session)
    → IsSettled s
    → IsSettled (manual_adjustment m d r a s).1
unfolding run_call
manual_adjustment-IsSettled m d r a s kept =
    subst IsSettled (one-session (manual_adjustment m d r a) s)
      (neutral-IsSettled (LedgerCall.adjustment m d r a) s (adjustment_neutral m d r a) kept)

pub manual_adjust-IsSettled :
    (member_id : RowId) (body : ManualAdjustRequest) (parent : Member) (household : Household)
    (s : Session)
    → IsSettled s
    → IsSettled (manual_adjust member_id body parent household s).1
unfolding manual_adjust assert_same_household
manual_adjust-IsSettled member_id body parent household s kept =
    go (member_in member_id household.id s.current)
  where
    go :
        (o : Option Member)
        → IsSettled
            (((λ (t : Session). raise_if (is_none o) (http 404) t)
                >> manual_adjustment member_id body.delta body.reason parent)
              s).1
    go none = kept
    go (some m) = manual_adjustment-IsSettled member_id body.delta body.reason parent s kept

pub submit_claim-IsSettled :
    (body : ClaimCreate) (member : Member) (s : Session)
    → IsSettled s
    → IsSettled (submit_claim body member s).1
unfolding submit_claim
submit_claim-IsSettled body member s kept = record { now = kept.now; saved = kept.saved }

resolve_loaded-IsSettled :
    (approve : Bool) (body : ClaimResolveRequest) (parent : Member) (now : Time) (c : Claim)
    (m : Member) (s : Session)
    → IsSettled s
    → IsSettled (resolve_loaded approve body parent now (c, m) s).1
unfolding resolve_loaded
resolve_loaded-IsSettled false body parent now c m s kept = record {
  now = kept.now;
  saved = kept.saved;
}
resolve_loaded-IsSettled true body parent now c m s kept =
    go (fulfil_claim c parent s) (fulfil_claim-IsSettled c parent s kept)
  where
    go :
        (r : Result LedgerEntry × Session)
        → IsSettled r.1
        → IsSettled (close_claim true body parent now (c, m) (when true (λ (t : Session). r)) s).1
    go (ok e, t) h = record { now = h.now; saved = h.saved }
    go (err e, t) h = h

pub resolve_claim-IsSettled :
    (claim_id : RowId) (body : ClaimResolveRequest) (parent : Member) (household : Household)
    (now : Time) (s : Session)
    → IsSettled s
    → IsSettled (resolve_claim claim_id body parent household now s).1
unfolding resolve_claim
resolve_claim-IsSettled claim_id body parent household now s kept =
    go (claim_in claim_id household.id s.current)
  where
    go :
        (o : Option (Claim × Member))
        → IsSettled
            (((λ (t : Session). or_raise o (http 404) t)
                >>= resolve_loaded body.approve body parent now)
              s).1
    go none = kept
    go (some (c, m)) = resolve_loaded-IsSettled body.approve body parent now c m s kept
