-- ===== src/Generation/Sweep.antt =====
-- What the two passes over the task instances come to.
use kids_chores_api.Session.{Db}
use kids_chores_api.Generation.{sweep, to_overdue, to_missed, is_of}
use kids_chores_api.Grace.{grace_remaining}
use kids_chores_api.Models.{Time, TaskDefinition, TaskInstance, TaskStatus}
use kids_chores_api.Prelude.Int.{pos, leb_ℤ}
use kids_chores_api.Prelude.{[], ◌∷◌, map, All, arith, ℕ, ◌<◌, ◌≡◌, true, false, List}

-- No task of a live definition waits past its due time, and none is overdue past its grace period.
abbrev pub UpToDate : List TaskDefinition → ℕ → Time → TaskInstance → Type 0
UpToDate definitions hours now i =
    is_of definitions i ≡ true
    → (i.status ≡ TaskStatus.pending → now < i.due_at)
      × (i.status ≡ TaskStatus.overdue → leb_ℤ (grace_remaining i hours now) (pos 0) ≡ false)

module _ (definitions : List TaskDefinition) (hours : ℕ) (now : Time) where
  abbrev swept : TaskInstance → TaskInstance
  swept i = to_missed definitions hours now (to_overdue definitions now i)

  swept-UpToDate : (i : TaskInstance) → UpToDate definitions hours now (swept i)
  unfolding to_overdue to_missed
  swept-UpToDate i live = ground arith

  -- After the two passes no task of the given definitions is pending past its due time, and none is
  -- overdue past its grace period.
  pub sweep-UpToDate :
      (db : Db)
      → All (UpToDate definitions hours now) (sweep definitions hours now db).task_instances
  unfolding sweep
  sweep-UpToDate db = go db.task_instances
    where
      go :
          (is : List TaskInstance)
          → All
              (UpToDate definitions hours now)
              (map (to_missed definitions hours now) (map (to_overdue definitions now) is))
      go [] = tt
      go (i ∷ is) = (swept-UpToDate i, go is)
