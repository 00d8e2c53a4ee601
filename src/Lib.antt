-- ===== src/Lib.antt =====
-- KidsChores: the backend of a family task and rewards application (backend/app).
--
-- Parents assign tasks, teens complete them, and a ledger of points that is only ever appended to
-- records what every task has paid. The state machine decides what may happen to a task; it calls
-- the ledger service where points are due; both write through one database session, which a request
-- commits when it returns and rolls back when it raises.
--
-- Files, and what they model:
--   Prelude.antt and below: shared names, integers, lists and Python text.
--   Models.antt and below: backend/app/db/models.py, a record for each mapped class, with its columns.
--   Session.antt and below: backend/app/db/database.py. An action takes a session and returns a
--     result or an error beside the session, since what was written before a raise stays pending.
--     Session/Request.antt is `get_db`.
--   Ledger.antt: `LedgerService` of backend/app/services/ledger.py, method by method, over the partial
--     unique indexes of backend/app/db/migrations/versions/0001_initial_schema.py. Ledger/Posting.antt
--     has the table of what each method posts, Ledger/Index.antt and Ledger/Audit.antt the unique
--     indexes as an invariant, Ledger/Awards.antt the balances, Ledger/Once.antt one award and its
--     reversal, Ledger/Twice.antt what may be called for after an award.
--   Grace.antt: the grace clock of backend/app/services/state_machine.py; Grace/Clock.antt its closed
--     form, Grace/Suspension.antt what a pause is worth.
--   StateMachine.antt: the transition table and the methods of `StateMachineService`. The method
--     `cancel` is `cancel_task` here, since `cancel` is a trigger. StateMachine/Outcomes.antt has each
--     method branch by branch, StateMachine/Plan.antt the decision that each call makes before it
--     writes, StateMachine/Diagram.antt the documented diagram, StateMachine/Payment.antt and below
--     what a task has been paid.
--   Web.antt: the state that a request works on, `get_db` around it, and the dependencies of
--     backend/app/auth/dependencies.py; Web/Notifications.antt is backend/app/services/notifications.py.
--   Redis.antt: the commands of Redis that the services use, as an interface with laws. Below it
--     Idempotency.antt, RateLimit.antt, RefreshTokens.antt and Linking.antt are the services of those
--     names in backend/app/services; Memory.antt and CountersMemory.antt implement the interface.
--   Schemas.antt and below: the requests and responses of backend/app/schemas/schemas.py;
--     Schemas/Checks.antt is what a request has to meet, Schemas/Responses.antt what is read off a row.
--   SeriesCompletion.antt: backend/app/services/series_completion.py; SeriesCompletion/Verdict.antt
--     says when a series instance completes, SeriesCompletion/Payout.antt what it then pays.
--   Generation.antt: backend/app/workers/generate_instances.py; Generation/Upsert.antt and
--     Generation/Sweep.antt its two halves, Generation/Horizon.antt (over Presence.antt and
--     Coverage.antt) the days that it makes instances for, Generation/Failure.antt what an unreadable
--     date does.
--   Reminders.antt: backend/app/workers/reminders.py; Reminders/Once.antt how often a task is reminded of.
--   Reports.antt: backend/app/services/reports.py; Reports/Counts.antt and Reports/Weeks.antt say what
--     each week counts.
--   Digest.antt: backend/app/workers/notify_digest.py; Digest/Recipients.antt what it counts.
--   PushService.antt: backend/app/services/push.py; PushService/Client.antt the client that is kept.
--   Accounts.antt: backend/app/auth/jwt.py and pins.py, the unique logins and the limits;
--     Accounts/Tokens.antt whom a token identifies, Accounts/Logins.antt unique logins,
--     Accounts/Apple.antt Apple's identity tokens.
--   Routes.antt: backend/app/routers. Routes/Tasks.antt (its handlers in Routes/Tasks/Work.antt),
--     Routes/Approvals.antt, Routes/Wallet.antt, Routes/Auth.antt, and Routes/Household.antt with
--     Routes/Access.antt, which has the routes of household.py that use Redis. The route `cancel_task`
--     is `cancel_task_route`, and the route `get_ledger` is `get_ledger_page`. The files below them
--     have the theorems on each. Routes/Definitions.antt, Routes/Series.antt and Routes/Reports.antt are
--     definitions.py, series.py and reports.py.
--   Life.antt: requests one after another. Life/History.antt serves a list of them; the files beside it
--     take each route, and the nightly passes, on their own.
--   Tests.antt and below: concrete inputs.
--
-- Modelling choices. Identifiers are numbers, since they are only compared. A time is a count of
-- microseconds in UTC and a `timedelta` an integer of microseconds; `int` of a sum of seconds is the
-- whole seconds, which is what the floating point gives for spans below a century. Text is a list of
-- code points. Points that request validation keeps positive are natural numbers, and amounts and
-- balances are integers; the 32-bit range of the integer columns is not modelled. A table is a list of
-- rows, newest first; a rollback goes back to the committed tables. `uuid4` and the time of the
-- transaction are given by the session. A handler reads the clock once, as the argument `now`. The
-- texts of error messages are left out. Sessions run one after another. No loop of the modelled code
-- needs fuel but the writing of a number's digits, which has one more than the number: each digit
-- divides what is left by ten.
--
-- Parameters. The store behind Redis, with the laws of its commands where a theorem needs them; each
-- prefix of keys is a map of its own. What `strptime`, `datetime` and `pytz` know of dates
-- (`Calendar`, `Months`). argon2, SHA-256, `str.lower` and the signing of tokens (`Externals`), where a
-- token decodes to its claims until it expires. The JSON in which responses are cached (`Codec`).
-- Apple's keys and the check of a signature (`AppleKeys`), Apple's push service (`Apns`). What
-- `EmailStr` takes for an address, and what is a digit.
--
-- Not modelled: configuration, the start of the application and of the workers, and migrations, which
-- are input and output; and the case of PushService.antt in which sending a push raises, in the
-- requests that send one. Requests that run at the same time are not interleaved.
pub mod Prelude
pub mod Models
pub mod Session
pub mod Ledger
pub mod Grace
pub mod StateMachine
pub mod Web
pub mod Redis
pub mod Schemas
pub mod SeriesCompletion
pub mod Generation
pub mod Accounts
pub mod Routes
pub mod Reminders
pub mod Reports
pub mod Digest
pub mod PushService
pub mod Life
mod Tests
