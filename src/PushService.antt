-- ===== src/PushService.antt =====
-- backend/app/services/push.py: pushes are handed to Apple's service if it is configured.
use kids_chores_api.Prelude.{
  false, codes, ◌&&◌, is_empty, [], text_eq, none, true, some, not, ◌∷◌, if◌then◌else◌, Option,
  List, Text, Bool,
}
use kids_chores_api.Web.{Push}
pub mod Client

-- The settings of backend/app/config.py that are read here.
pub record PushSettings : Type 0 where
  pub apns_team_id : Text
  pub apns_key_id : Text
  pub apns_private_key : Text
  pub apns_bundle_id : Text
  pub apns_env : Text

-- What the service makes of a request.
pub data Delivery : Type 0 where
  successful unsuccessful raised : Delivery

-- `aioapns`: a client is made of the settings, or making it raises; and a client sends.
pub record Apns : Type 1 where
  pub Client : Type 0
  pub connect : Text → Text → Text → Text → Bool → Option Client
  pub send_notification : Client → Push → Delivery

-- `_client` and `_client_built`
pub record PushState (A : Apns) : Type 0 where
  pub client : Option A.Client
  pub client_built : Bool

-- What is logged, or that an exception leaves the function.
pub data Outcome : Type 0 where
  not_configured sent failed rejected raising : Outcome

delivered : Delivery → Outcome
delivered successful = sent
delivered unsuccessful = rejected
delivered raised = failed

module _ (A : Apns) where
  abbrev pub is_configured : PushSettings → Bool
  is_configured settings =
      not (is_empty settings.apns_team_id)
      && not (is_empty settings.apns_key_id)
      && not (is_empty settings.apns_private_key)

  abbrev pub connect_to : PushSettings → Option A.Client
  connect_to settings =
      A.connect settings.apns_private_key settings.apns_key_id settings.apns_team_id
        settings.apns_bundle_id (text_eq settings.apns_env (codes "sandbox"))

  -- `_client_built` is set before the client is made, so it stays set when that raises.
  built : Option A.Client → Option (Option A.Client) × PushState A
  built none = (none, record { client = none; client_built = true })
  built (some client) = (some (some client), record { client = some client; client_built = true })

  -- `if _client_built: return _client`
  from_state : Bool → PushSettings → PushState A → Option (Option A.Client) × PushState A
  unfolding built
  from_state true settings s = (some s.client, s)
  from_state false settings s =
      if not (is_configured settings)
      then (some none, record { client = s.client; client_built = true })
      else built (connect_to settings)

  -- What `_get_client` returns, if it does not raise.
  unfoldable pub get_client : PushSettings → PushState A → Option (Option A.Client) × PushState A
  unfolding from_state
  get_client settings s = from_state s.client_built settings s

  unfoldable pub reset_client : PushState A → PushState A
  reset_client s = record { client = none; client_built = false }

  hand_over : Option (Option A.Client) → Push → Outcome
  unfolding delivered
  hand_over none push = raising
  hand_over (some none) push = not_configured
  hand_over (some (some client)) push = delivered (A.send_notification client push)

  unfoldable pub send_push : PushSettings → Push → PushState A → Outcome × PushState A
  unfolding hand_over
  send_push settings push s =
      let (client, s') = get_client settings s in (hand_over client push, s')

  -- The pushes of a process, one after another.
  unfoldable pub send_all : PushSettings → List Push → PushState A → List Outcome × PushState A
  send_all settings [] s = ([], s)
  send_all settings (p ∷ ps) s =
      let (outcome, s1) = send_push settings p s in
      let (rest, s2) = send_all settings ps s1 in (outcome ∷ rest, s2)
