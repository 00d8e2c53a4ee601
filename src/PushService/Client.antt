-- ===== src/PushService/Client.antt =====
-- The client is made once.
use kids_chores_api.Prelude.{some, [], refl, true, ◌∷◌, Bool, map, none, false, ◌≡◌, List}
use kids_chores_api.Web.{Push}
use kids_chores_api.PushService.{
  connect_to, send_push, send_all, is_configured, Outcome, PushState, PushSettings, get_client,
  Apns,
}

module _ (A : Apns) where
  abbrev no_client : Bool → PushState A
  no_client looked = record { client = none; client_built = looked }

  nothing_built :
      (settings : PushSettings) (looked : Bool)
      → is_configured A settings ≡ false
      → get_client A settings (no_client looked) ≡ (some none, no_client true)
  unfolding get_client
  nothing_built settings true off = refl
  nothing_built settings false off = rw off refl

  abbrev pub unsent : Push → Outcome
  unsent push = Outcome.not_configured

  -- A process that has looked for its client and has none never sends.
  never_sends :
      (settings : PushSettings) (ps : List Push)
      → (send_all A settings ps (no_client true)).0 ≡ map unsent ps
  unfolding send_all send_push get_client
  never_sends settings [] = refl
  never_sends settings (p ∷ ps) = λ i. Outcome.not_configured ∷ never_sends settings ps i

  -- Without credentials nothing is sent and nothing fails: every push is logged as not sent, in a
  -- process that has just started as in one that has looked for its client before.
  pub send_all-unconfigured :
      (settings : PushSettings) (ps : List Push) (looked : Bool)
      → is_configured A settings ≡ false
      → (send_all A settings ps (record { client = none; client_built = looked })).0 ≡ map unsent ps
  unfolding send_all send_push
  send_all-unconfigured settings [] looked off = refl
  send_all-unconfigured settings (p ∷ ps) looked off =
      rw (nothing_built settings looked off)
        (λ i. Outcome.not_configured ∷ never_sends settings ps i)

  -- With credentials of which no client can be made, the first push of a process raises, and every
  -- later one is logged as if there were no credentials.
  pub send_all-broken :
      (settings : PushSettings) (p : Push) (ps : List Push)
      → is_configured A settings ≡ true
      → connect_to A settings ≡ none
      → (send_all A settings (p ∷ ps) (record { client = none; client_built = false })).0
        ≡ Outcome.raising ∷ map unsent ps
  unfolding send_all send_push get_client
  send_all-broken settings p ps on broken =
      rw (on, broken) (λ i. Outcome.raising ∷ never_sends settings ps i)
