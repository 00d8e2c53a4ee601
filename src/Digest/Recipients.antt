-- ===== src/Digest/Recipients.antt =====
-- What a nudge counts, and how often it is sent.
use kids_chores_api.Grace.{hour}
use kids_chores_api.Digest.{
  is_waiting, notify_all, nudge_after_hours, collect, is_overlong, with_home, parents_of,
  household_of, digest_of, pending_of, distinct, pending_households, send_digests, times,
}
use kids_chores_api.Models.{Time, RowId, TaskInstance}
use kids_chores_api.Prelude.{
  arith, ◌==◌, any, none, some, inr, inl, refl, Bool-cases, ◌++◌, [], ◌*◌, Option, ltb, ap,
  if◌then◌else◌, ◌-◌, ◌∷◌, ◌≡◌, List, is_none, not, filter,
}
use kids_chores_api.Session.{Db}

-- The tasks that have been completed at some time.
abbrev pub completed_once : Db → Db
completed_once db = record db {
  task_instances = filter (λ (i : TaskInstance). not (is_none i.completed_at)) db.task_instances;
}

pending_of-completed_once :
    (cutoff : Time) (db : Db) (is : List TaskInstance)
    → pending_of cutoff
        (completed_once db)
        (filter (λ (i : TaskInstance). not (is_none i.completed_at)) is)
      ≡ pending_of cutoff db is
unfolding pending_of household_of with_home is_overlong collect
pending_of-completed_once cutoff db [] = refl
pending_of-completed_once cutoff db (i ∷ is) =
    go i.completed_at refl (pending_of-completed_once cutoff db is)
  where
    go :
        (o : Option Time)
        → i.completed_at ≡ o
        → pending_of cutoff
            (completed_once db)
            (filter (λ (j : TaskInstance). not (is_none j.completed_at)) is)
          ≡ pending_of cutoff db is
        → pending_of cutoff
            (completed_once db)
            (filter (λ (j : TaskInstance). not (is_none j.completed_at)) (i ∷ is))
          ≡ pending_of cutoff db (i ∷ is)
    go none e ih = elim (Bool-cases (is_waiting i.status)) [
      | inl waiting ↦ rw (e, waiting) ih
      | inr resting ↦ rw (e, resting) ih
    ]
    go (some t) e ih = rw e (rw ih refl)

digest_of-completed_once :
    (pending ids : List RowId) (db : Db)
    → digest_of pending ids (completed_once db) ≡ digest_of pending ids db
unfolding digest_of parents_of
digest_of-completed_once pending [] db = refl
digest_of-completed_once pending (k ∷ ids) db =
    ap (λ x. notify_all (parents_of k db) (times k pending) ++ x)
      (digest_of-completed_once pending ids db)

-- The tasks that have never been completed have no part in the digest: an excuse for a task that was
-- not done is never nudged about, however long it waits.
pub send_digests-completed_once :
    (now : Time) (db : Db) → send_digests now (completed_once db) ≡ send_digests now db
unfolding send_digests pending_households
send_digests-completed_once now db =
    let same = pending_of-completed_once (now - nudge_after_hours * hour) db db.task_instances in
    rw same (
      digest_of-completed_once (pending_of (now - nudge_after_hours * hour) db db.task_instances)
        (distinct (pending_of (now - nudge_after_hours * hour) db db.task_instances)) db)

any-times : (j : RowId) (ks : List RowId) → any (λ (i : RowId). i == j) ks ≡ ltb 0 (times j ks)
unfolding times
any-times j [] = refl
any-times j (i ∷ ks) = ground (arith, any-times j ks)

-- Each household is worked on once, if it has anything that waits.
pub times-distinct :
    (k : RowId) (ks : List RowId) → times k (distinct ks) ≡ (if ltb 0 (times k ks) then 1 else 0)
unfolding times distinct
times-distinct k [] = refl
times-distinct k (j ∷ ks) = elim (Bool-cases (any (λ (i : RowId). i == j) ks)) [
  | inl again ↦ rw again (ground (arith, any-times j ks, times-distinct k ks, again))
  | inr last ↦ rw last (ground (arith, any-times j ks, times-distinct k ks, last))
]
