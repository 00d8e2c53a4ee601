-- ===== src/Tests/Summaries.antt =====
-- The theorems on reports, digests and pushes at concrete inputs.
use kids_chores_api.PushService.Client.{send_all-broken}
use kids_chores_api.Web.{Push}
use kids_chores_api.PushService.{Outcome, Delivery, PushSettings, Apns, send_all}
use kids_chores_api.Reports.Weeks.{build_weekly_report-weeks}
use kids_chores_api.Reports.Counts.{week_report}
use kids_chores_api.Digest.Recipients.{send_digests-completed_once, completed_once}
use kids_chores_api.Generation.{Date}
use kids_chores_api.Prelude.{refl, false, none, map, ◌≡◌, some, ◌/◌, codes, [], ◌∷◌}
use kids_chores_api.Models.{TaskStatus, MemberRole, Member, Time}
use kids_chores_api.Digest.{send_digests}
use kids_chores_api.Session.{Db}
use kids_chores_api.Reports.{build_weekly_report}
use kids_chores_api.Tests.{teen, empty_db, task_in, entry}

abbrev nights : Time → Date
nights t = t / 86_400_000_000

-- Two weeks, the first of which has a completed task and its points.
build_weekly_report-weeks_example :
    build_weekly_report nights (task_in TaskStatus.complete ∷ []) (entry ∷ []) 0 2
    ≡ map (week_report nights (task_in TaskStatus.complete ∷ []) (entry ∷ [])) (0 ∷ 7 ∷ [])
build_weekly_report-weeks_example =
    build_weekly_report-weeks nights (task_in TaskStatus.complete ∷ []) (entry ∷ []) 0 2

abbrev watcher : Member
watcher = record teen { id = 4; role = MemberRole.parent; push_token = some (codes "token") }

-- A completion and an excuse wait, and only the first has been completed at some time.
abbrev waiting_db : Db
waiting_db = record empty_db {
  members = watcher ∷ teen ∷ [];
  task_instances =
      record (task_in TaskStatus.review_pending) { completed_at = some 2_000_000_000 }
      ∷ record (task_in TaskStatus.excuse_pending) { id = 6 }
      ∷ [];
}

send_digests-completed_once_example :
    send_digests 200_000_000_000 (completed_once waiting_db)
    ≡ send_digests 200_000_000_000 waiting_db
send_digests-completed_once_example = send_digests-completed_once 200_000_000_000 waiting_db

-- A service that no client can be made for.
abbrev refusing : Apns
refusing = record {
  Client = Unit {0};
  connect = λ key key_id team topic sandbox. none;
  send_notification = λ client push. Delivery.successful;
}

abbrev some_settings : PushSettings
some_settings = record {
  apns_team_id = 1 ∷ [];
  apns_key_id = 2 ∷ [];
  apns_private_key = 3 ∷ [];
  apns_bundle_id = codes "com.klsingh.KidsChores";
  apns_env = codes "sandbox";
}

abbrev news : Push
news = record { token = codes "token"; title = codes "News"; body = [] }

send_all-broken_example :
    (send_all refusing some_settings
      (news ∷ news ∷ [])
      (record { client = none; client_built = false })).0
    ≡ Outcome.raising ∷ Outcome.not_configured ∷ []
send_all-broken_example = send_all-broken refusing some_settings news (news ∷ []) refl refl
