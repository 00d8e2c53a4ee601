-- ===== src/Session/Monad.antt =====
-- A session and its actions: state that survives a raise, and errors as values.
use kids_chores_api.Prelude.{◌≡◌, ℕ, suc, Bool, Option, none, some, List, if◌then◌else◌}
use kids_chores_api.Models.{
  RowId, Time, Household, Member, TaskDefinition, TaskInstance, Series, SeriesInstance, LedgerEntry,
  Claim, SavingsGoal,
}

pub record Db : Type 0 where
  pub households : List Household
  pub members : List Member
  pub task_definitions : List TaskDefinition
  pub task_instances : List TaskInstance
  pub series : List Series
  pub series_instances : List SeriesInstance
  pub ledger_entries : List LedgerEntry
  pub claims : List Claim
  pub savings_goals : List SavingsGoal

-- `tx_time` is the database's `now()`, fixed for a transaction; `uuids` are the values that
-- `uuid.uuid4()` will return, and `drawn` how many of them have been used.
pub record Session : Type 0 where
  pub committed : Db
  pub current : Db
  pub tx_time : Time
  pub uuids : ℕ → RowId
  pub drawn : ℕ

-- The exceptions of the program; `http` has the status code.
pub data Error : Type 0 where
  invalid_transition value_error key_error duplicate_ledger_entry rate_limit_exceeded
        integrity_error assertion_error :
      Error
  http : ℕ → Error

pub data Result (A : Type 0) : Type 0 where
  ok : A → Result A
  err : Error → Result A

abbrev pub Action : Type 0 → Type 0
Action A = Session → Result A × Session

module _ {A : Type 0} where
  abbrev pub pure : A → Action A
  pure a s = (ok a, s)

  abbrev pub raise : Error → Action A
  raise e s = (err e, s)

  abbrev pub lift : Result A → Action A
  lift r s = (r, s)

  -- A query.
  abbrev pub query : (Db → A) → Action A
  query f s = (ok (f s.current), s)

  abbrev pub or_raise : Option A → Error → Action A
  or_raise none e = raise e
  or_raise (some a) e = pure a

infixl 5 ◌>>=◌ ◌>>◌
abbrev pub ◌>>=◌ : {A B : Type 0} → Action A → (A → Action B) → Action B
◌>>=◌ m f s = let (r, s') = m s in elim r [ ok a ↦ f a s' | err e ↦ (err e, s') ]

abbrev pub ◌>>◌ : {A B : Type 0} → Action A → Action B → Action B
m >> k = m >>= λ _. k

abbrev pub raise_if : Bool → Error → Action (Unit {0})
raise_if c e s = (if c then err e else ok tt, s)

-- `if c: m`
abbrev pub when : {A : Type 0} → Bool → Action A → Action (Unit {0})
when c m = if c then (m >> pure tt) else pure tt

-- `try: m except ... as exc: raise f(exc)`
abbrev pub on_error : {A : Type 0} → (Error → Error) → Action A → Action A
on_error f m s = let (r, s') = m s in elim r [ ok a ↦ (ok a, s') | err e ↦ (err (f e), s') ]

-- `try: m except ...`, with what was raised as a value.
abbrev pub attempt : {A : Type 0} → Action A → Action (Result A)
attempt m s = let (r, s') = m s in (ok r, s')

-- A column default: `_uuid()` and `server_default=func.now()`.
abbrev pub uuid : Action RowId
uuid s = (ok (s.uuids s.drawn), record s { drawn = suc s.drawn })

abbrev pub db_now : Action Time
db_now s = (ok s.tx_time, s)

abbrev pub commit : Session → Session
commit s = record s { committed = s.current }

abbrev pub rollback : Session → Session
rollback s = record s { current = s.committed }

abbrev pub modify : (Db → Db) → Action (Unit {0})
modify f s = (ok tt, record s { current = f s.current })

pub ok-injective : {A : Type 0} {a b : A} → ok a ≡ ok b → a ≡ b
ok-injective h = cc
