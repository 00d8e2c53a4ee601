-- ===== src/Routes/Auth/Orderly.antt =====
-- Members without a login twice, and how the rows that are written keep them so.
use kids_chores_api.Accounts.Logins.{update_row-IsUnique, in_use_by, any-or, IsUnique}
use kids_chores_api.Models.{Member, RowId}
use kids_chores_api.Prelude.{
  inr, ==_iff, ◌∙◌, sym, inl, refl, Bool-cases, [], false, ◌==◌, arith, ◌∷◌, ◌≤◌, any, ◌<◌, ◌≡◌,
  List, ℕ,
}
use kids_chores_api.Accounts.{put_member, flush_changed, same_login, flush_new}
use kids_chores_api.Session.Binds.{bind_keeps}
use kids_chores_api.Session.Request.{get_db}
use kids_chores_api.Session.{err, ok, Result, pure, ◌>>◌, Action, Session, update_row}

-- No two members have the same id or the same login, and none has an id that is still to be drawn.
pub record IsTidy (uuids : ℕ → RowId) (drawn : ℕ) (ms : List Member) : Type 0 where
  pub unique : IsUnique ms
  pub ahead : (k : ℕ) → drawn ≤ k → any (λ (n : Member). n.id == uuids k) ms ≡ false

-- So it is in the session, and in what a rollback returns to; and no id is drawn twice.
pub record IsOrderly (s : Session) : Type 0 where
  pub distinct : (j k : ℕ) → s.uuids j ≡ s.uuids k → j ≡ k
  pub now : IsTidy s.uuids s.drawn s.current.members
  pub saved : IsTidy s.uuids s.drawn s.committed.members

-- Drawing ids.
pub drawing :
    (uuids : ℕ → RowId) (n k : ℕ) (ms : List Member) → n ≤ k → IsTidy uuids n ms → IsTidy uuids k ms
drawing uuids n k ms more tidy = record {
  unique = tidy.unique;
  ahead = λ j from. tidy.ahead j (omega (arith, more, from));
}

flush_new-IsOrderly :
    (m : Member) (j : ℕ) (s : Session)
    → m.id ≡ s.uuids j
    → j < s.drawn
    → any (λ (n : Member). n.id == m.id) s.current.members ≡ false
    → IsOrderly s
    → IsOrderly (flush_new m s).1
unfolding flush_new
flush_new-IsOrderly m j s drawn_at before new orderly =
    elim (Bool-cases (any (same_login m) s.current.members)) [
      | inl taken ↦
          rw taken
            (record { distinct = orderly.distinct; now = orderly.saved; saved = orderly.saved })
      | inr free ↦ rw free (record {
        distinct = orderly.distinct;
        now = record {
          unique = (
            any-or (λ (n : Member). n.id == m.id) (same_login m) s.current.members new free,
            orderly.now.unique,
          );
          ahead = λ k from. rw (other k from) (orderly.now.ahead k from);
        };
        saved = orderly.saved;
      })
    ]
  where
    other : (k : ℕ) → s.drawn ≤ k → (m.id == s.uuids k) ≡ false
    other k from = elim (Bool-cases (m.id == s.uuids k)) [
      | inl same ↦
          let clash_of : j ≡ k =
            orderly.distinct j k (sym drawn_at ∙ (==_iff m.id (s.uuids k)).0 same) in
          absurd (omega (arith, clash_of, before, from))
      | inr apart ↦ apart
    ]

pub new_row :
    {A : Type 0} (m : Member) (a : A) (j : ℕ) (s : Session)
    → m.id ≡ s.uuids j
    → j < s.drawn
    → any (λ (n : Member). n.id == m.id) s.current.members ≡ false
    → IsOrderly s
    → IsOrderly ((flush_new m >> pure a) s).1
new_row m a j s drawn_at before new orderly =
    bind_keeps IsOrderly s (flush_new m) (λ _. pure a)
      (flush_new-IsOrderly m j s drawn_at before new orderly) (λ _ t h. h)

any-id-update_row :
    (k : RowId) (m : Member) (ms : List Member)
    → any (λ (n : Member). n.id == k) ms ≡ false
    → any (λ (n : Member). n.id == k) (update_row (λ (r : Member). r.id) m ms) ≡ false
unfolding update_row
any-id-update_row k m [] none_so = refl
any-id-update_row k m (x ∷ ms) none_so = ground (arith, none_so, any-id-update_row k m ms)

-- A row is written over with a login that no other row has.
pub put_member-IsOrderly :
    (m : Member) (s : Session)
    → any (in_use_by m) s.current.members ≡ false
    → IsOrderly s
    → IsOrderly (record s { current = put_member m s.current })
put_member-IsOrderly m s free orderly = record {
  distinct = orderly.distinct;
  now = record {
    unique = update_row-IsUnique m s.current.members orderly.now.unique free;
    ahead = λ k from. any-id-update_row (s.uuids k) m s.current.members (orderly.now.ahead k from);
  };
  saved = orderly.saved;
}

pub flush_changed-IsOrderly :
    (m : Member) (s : Session) → IsOrderly s → IsOrderly (flush_changed m s).1
unfolding flush_changed
flush_changed-IsOrderly m s orderly = elim (Bool-cases (any (in_use_by m) s.current.members)) [
  | inl taken ↦
      rw taken (record { distinct = orderly.distinct; now = orderly.saved; saved = orderly.saved })
  | inr free ↦ rw free (put_member-IsOrderly m s free orderly)
]

pub get_db-IsOrderly :
    {A : Type 0} (m : Action A) (s : Session) → IsOrderly (m s).1 → IsOrderly (get_db m s).1
unfolding get_db
get_db-IsOrderly {A} m s kept = go (m s) kept
  where
    go : (r : Result A × Session) → IsOrderly r.1 → IsOrderly (get_db (λ (t : Session). r) s).1
    go (ok a, t) h = record { distinct = h.distinct; now = h.now; saved = h.now }
    go (err e, t) h = record { distinct = h.distinct; now = h.saved; saved = h.saved }
