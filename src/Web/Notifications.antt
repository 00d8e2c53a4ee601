-- ===== src/Web/Notifications.antt =====
-- backend/app/services/notifications.py: who is told, and what.
use kids_chores_api.Models.{RowId, Member, is_parent}
use kids_chores_api.Prelude.{
  if◌then◌else◌, decimal, ℕ, Bool, true, false, ◌&&◌, not, Option, none, some, List, [], ◌∷◌, ◌++◌,
  Text, codes, ◌==◌, is_none, filter,
}
use kids_chores_api.Session.{Db}
use kids_chores_api.Web.{Push}

-- `if push_token is None: return`
abbrev pub to_token : Option Text → Text → Text → List Push
to_token none title body = []
to_token (some token) title body = record { token = token; title = title; body = body } ∷ []

to_all : List Member → Text → Text → List Push
to_all [] title body = []
to_all (m ∷ ms) title body = to_token m.push_token title body ++ to_all ms title body

unfoldable pub notify_new_excuse : RowId → Text → Text → Db → List Push
unfolding to_all
notify_new_excuse household_id teen_name task_title db =
    to_all
      (filter
        (λ (m : Member).
          m.household_id == household_id && is_parent m.role && not (is_none m.push_token))
        db.members)
      (codes "New excuse submitted")
      (teen_name ++ codes " submitted an excuse for \"" ++ task_title ++ codes "\".")

-- An instance's assignee and the title of its definition are loaded by the caller.
unfoldable pub notify_excuse_resolved : Member → Text → Bool → List Push
notify_excuse_resolved assignee title true =
    to_token assignee.push_token (codes "Excuse approved")
      (codes "Your excuse for \"" ++ title ++ codes "\" was approved.")
notify_excuse_resolved assignee title false =
    to_token assignee.push_token (codes "Excuse denied")
      (codes "Your excuse for \"" ++ title ++ codes "\" was denied.")

unfoldable pub notify_task_reminder : Member → Text → List Push
notify_task_reminder assignee title =
    to_token assignee.push_token (codes "Task due soon")
      (codes "\"" ++ title ++ codes "\" is due soon.")

unfoldable pub notify_series_expiring : Member → Text → List Push
notify_series_expiring assignee name =
    to_token assignee.push_token (codes "Series ending soon")
      (codes "\"" ++ name ++ codes "\" ends soon — finish up to keep the bonus.")

-- `'s' if count != 1 else ''`
plural : ℕ → Text
plural count = if count == 1 then [] else codes "s"

unfoldable pub notify_pending_approvals : Member → ℕ → List Push
unfolding plural
notify_pending_approvals parent count = to_token parent.push_token (codes "Approvals waiting") (
    codes "You have "
    ++ decimal count
    ++ codes " item"
    ++ plural count
    ++ codes " waiting for your review.")
