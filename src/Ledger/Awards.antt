-- ===== src/Ledger/Awards.antt =====
-- What the calls of `LedgerService` do to balances, and when an award is refused.
use kids_chores_api.Ledger.{violates_unique, sum_delta}
use kids_chores_api.Prelude.{
  sym, ap, ◌∙◌, false, true, none, Bool, strip, is_empty, refl, arith, ◌⊎◌, ◌==◌, inr,
  if◌then◌else◌, inl, Bool-cases, ◌/◌, some, Option, ℕ, ◌≡◌,
}
use kids_chores_api.Prelude.Int.{int_laws, ◌+ℤ◌, ◌-ℤ◌, pos, ℤ}
use kids_chores_api.Models.{
  Household, Member, TaskDefinition, TaskInstance, excused_pays_full, excused_pays_partial,
  excused_pays_nothing, LedgerEntry, RowId, ExcusedPayoutPolicy,
}
use kids_chores_api.Session.{Action, duplicate_ledger_entry, value_error, err, ok, Result, Session}
use kids_chores_api.Ledger.Posting.{
  one, perform_taken, perform_free, adjustment_posting, partial_posting, full_posting, Posting,
  LedgerCall, run_call, run_call-posting, posting_of, perform, entry_of,
}

-- The points that a call moves into the wallet of the member it is about.
abbrev excuse_points : ExcusedPayoutPolicy → ℕ → ℕ
excuse_points excused_pays_nothing n = 0
excuse_points excused_pays_partial n = n / 2
excuse_points excused_pays_full n = n

abbrev pub member_of : LedgerCall → RowId
member_of (LedgerCall.task_completion i d a h) = i.assignee_id
member_of (LedgerCall.excuse i d a h) = i.assignee_id
member_of (LedgerCall.bonus si s m a n) = m
member_of (LedgerCall.all_or_nothing si s m a n) = m
member_of (LedgerCall.claim c a) = c.member_id
member_of (LedgerCall.adjustment m d r a) = m
member_of (LedgerCall.reversal i a r) = i.assignee_id

abbrev pub points_of : LedgerCall → ℤ
points_of (LedgerCall.task_completion i d a h) = pos i.point_value
points_of (LedgerCall.excuse i d a h) = pos (excuse_points h.excused_payout_policy i.point_value)
points_of (LedgerCall.bonus si s m a n) = pos n
points_of (LedgerCall.all_or_nothing si s m a n) = pos n
points_of (LedgerCall.claim c a) = pos 0 -ℤ pos c.points
points_of (LedgerCall.adjustment m d r a) = d
points_of (LedgerCall.reversal i a r) = pos 0 -ℤ pos i.point_value

abbrev pub balance : RowId → Session → ℤ
balance m s = sum_delta m s.current.ledger_entries

-- What a call that began at `s` has done, by how it ended.
abbrev pub Moves : LedgerCall → Session → Result (Option LedgerEntry) × Session → Type 0
Moves c s (ok _, s') =
    (m : RowId)
    → balance m s' ≡ (if member_of c == m then balance m s +ℤ points_of c else balance m s)
Moves c s (err e, s') =
    ((e ≡ value_error) × (s' ≡ s)) ⊎ ((e ≡ duplicate_ledger_entry) × (s'.current ≡ s.committed))

unpaid :
    (policy : ExcusedPayoutPolicy) (n : ℕ) (total : ℤ) (b : Bool)
    → policy ≡ excused_pays_nothing
    → total ≡ (if b then total +ℤ pos (excuse_points policy n) else total)
unpaid policy n total true e = rw e (omega int_laws)
unpaid policy n total false e = refl

-- What one posting has done.
abbrev PostMoves : Posting → Session → Result (Option LedgerEntry) × Session → Type 0
PostMoves p s (ok _, s') =
    (m : RowId) → balance m s' ≡ (if p.member_id == m then balance m s +ℤ p.delta else balance m s)
PostMoves p s (err e, s') = (e ≡ duplicate_ledger_entry) × (s'.current ≡ s.committed)

post-PostMoves : (p : Posting) (s : Session) → PostMoves p s (perform (ok (some p)) s)
post-PostMoves p s = elim (Bool-cases (violates_unique (entry_of p s) s.current.ledger_entries)) [
  | inl taken ↦ rw (perform_taken p s taken) (refl, refl)
  | inr free ↦ rw (perform_free p s free) (λ m. unfold sum_delta in refl)
]

module _ (c : LedgerCall) (p : Posting) (s : Session) where
  Moves-of_PostMoves :
      (r : Result (Option LedgerEntry) × Session)
      → p.member_id ≡ member_of c
      → p.delta ≡ points_of c
      → PostMoves p s r
      → Moves c s r
  Moves-of_PostMoves (ok _, s') em ed h = λ m. ground (arith, h m)
  Moves-of_PostMoves (err e, s') em ed h = inr h

  call-Moves :
      posting_of c ≡ ok (some p)
      → p.member_id ≡ member_of c
      → p.delta ≡ points_of c
      → Moves c s (run_call c s)
  call-Moves e em ed =
      rw (run_call-posting c s, e)
        (Moves-of_PostMoves (perform (ok (some p)) s) em ed (post-PostMoves p s))

Moves-excuse :
    (policy : ExcusedPayoutPolicy) (i : TaskInstance) (d : TaskDefinition) (a : Member)
    (h : Household) (s : Session)
    → h.excused_payout_policy ≡ policy
    → Moves (LedgerCall.excuse i d a h) s (run_call (LedgerCall.excuse i d a h) s)
unfolding posting_of
Moves-excuse excused_pays_nothing i d a h s e =
    let same : posting_of (LedgerCall.excuse i d a h) ≡ ok none = rw e in
    rw (run_call-posting (LedgerCall.excuse i d a h) s, same)
      (unfold perform in
        λ m. unpaid h.excused_payout_policy i.point_value (balance m s) (i.assignee_id == m) e)
Moves-excuse excused_pays_partial i d a h s e =
    call-Moves (LedgerCall.excuse i d a h) (partial_posting i d a) s (rw e) refl (rw e)
Moves-excuse excused_pays_full i d a h s e =
    call-Moves (LedgerCall.excuse i d a h) (full_posting i d a) s (rw e) refl (rw e)

-- A call that succeeds moves exactly its points into the wallet of its member and leaves every other
-- balance alone; one that fails has written nothing: either a blank reason left the session as it
-- was, or the unique index refused the row and the session is back at what was committed.
pub run_call-Moves : (c : LedgerCall) (s : Session) → Moves c s (run_call c s)
unfolding posting_of perform
run_call-Moves (LedgerCall.task_completion i d a h) s =
    call-Moves (LedgerCall.task_completion i d a h) _ s refl refl refl
run_call-Moves (LedgerCall.excuse i d a h) s = Moves-excuse h.excused_payout_policy i d a h s refl
run_call-Moves (LedgerCall.bonus si sr m a n) s =
    call-Moves (LedgerCall.bonus si sr m a n) _ s refl refl refl
run_call-Moves (LedgerCall.all_or_nothing si sr m a n) s =
    call-Moves (LedgerCall.all_or_nothing si sr m a n) _ s refl refl refl
run_call-Moves (LedgerCall.claim c a) s = call-Moves (LedgerCall.claim c a) _ s refl refl refl
run_call-Moves (LedgerCall.adjustment m d r a) s = elim (Bool-cases (is_empty (strip r))) [
  | inl blank ↦ rw (run_call-posting (LedgerCall.adjustment m d r a) s, blank) (inl (refl, refl))
  | inr given ↦
      call-Moves (LedgerCall.adjustment m d r a) (adjustment_posting m d r a) s (rw given) refl refl
]
run_call-Moves (LedgerCall.reversal i a r) s =
    call-Moves (LedgerCall.reversal i a r) _ s refl refl refl

pub balance-run_call :
    (c : LedgerCall) (s : Session) {o : Option LedgerEntry}
    → (run_call c s).0 ≡ ok o
    → (m : RowId)
    → balance m (run_call c s).1
      ≡ (if member_of c == m then balance m s +ℤ points_of c else balance m s)
balance-run_call c s = go (run_call c s) (run_call-Moves c s)
  where
    go :
        (r : Result (Option LedgerEntry) × Session) {o : Option LedgerEntry}
        → Moves c s r
        → r.0 ≡ ok o
        → (m : RowId)
        → balance m r.1 ≡ (if member_of c == m then balance m s +ℤ points_of c else balance m s)
    go (ok _, s') h e = h
    go (err x, s') h e = cc

-- A method that returns its entry, seen as a call.
pub one-ok :
    (m : Action LedgerEntry) (s : Session) {e : LedgerEntry}
    → (m s).0 ≡ ok e
    → one m s ≡ (ok (some e), (m s).1)
one-ok m s = go (m s)
  where
    go :
        (r : Result LedgerEntry × Session) {e : LedgerEntry}
        → r.0 ≡ ok e
        → one (λ t. r) s ≡ (ok (some e), r.1)
    go (ok _, s') h = ground arith
    go (err x, s') h = cc

module _ (c : LedgerCall) (m : Action LedgerEntry) (s : Session) {e : LedgerEntry} where
  pub balance-one :
      run_call c s ≡ one m s
      → (m s).0 ≡ ok e
      → (k : RowId)
      → balance k (m s).1 ≡ (if member_of c == k then balance k s +ℤ points_of c else balance k s)
  balance-one same h k =
      let done : run_call c s ≡ (ok (some e), (m s).1) = same ∙ one-ok m s h in
      ap (λ (r : Result (Option LedgerEntry) × Session). balance k r.1) (sym done)
      ∙ balance-run_call c s (ap (λ (r : Result (Option LedgerEntry) × Session). r.0) done) k
