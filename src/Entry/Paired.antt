-- ===== src/Entry/Paired.antt =====
-- The process over any sequence of what the host does with the plugin.
use cpa_quota_alert_plugin.Base.{
  String, Bool, true, false, Option, none, some, List, [], ◌∷◌, ◌++◌, ◌≡◌, All,
}
use cpa_quota_alert_plugin.App.{App, Environment, Envelope, current}
use cpa_quota_alert_plugin.Entry.{
  HostApi, host_api_valid, Buffer, Process, init, shutdown, plugin_call,
}

module _ (Config : Type 0) where
  pub data Action : Type 0 where
    start : Option HostApi → Bool → Bool → Action
    ask : Option String → Buffer → Bool → Action
    stop : Action

  abbrev has_app : Option (App Config) → Bool
  has_app none = false
  has_app (some _) = true

  -- There is an app exactly where there is a host that can be called.
  abbrev pub IsPaired : Process Config → Type 0
  IsPaired p = has_app p.app ≡ host_api_valid p.host

  -- The app holds no configuration and gives none.
  abbrev pub IsEnded : App Config → Type 0
  IsEnded app = (app.closed ≡ true) × (current Config app ≡ none)

  module _ (env : Environment Config) (encode : Envelope → String) where
    -- An action, with the apps that it ends.
    unfoldable pub act : Process Config → Action → Process Config × List (App Config)
    unfolding init shutdown plugin_call
    act p (start host has_plugin has_handler) =
        let r = init Config p host has_plugin has_handler in (r.1, r.2)
    act p (ask method request has_response) =
        ((plugin_call Config env encode p method request has_response).2, [])
    act p stop = shutdown Config p

    unfoldable pub run : Process Config → List Action → Process Config × List (App Config)
    unfolding act
    run p [] = (p, [])
    run p (a ∷ more) =
        let next = act p a in let rest = run next.0 more in (rest.0, next.1 ++ rest.1)

    -- What holds after any actions: the process is paired, the apps that were ended hold no
    -- configuration, and without an app every call fails and changes nothing.
    pub record IsOrderly (p : Process Config) (ended : List (App Config)) : Type 0 where
      pub paired : IsPaired p
      pub all_ended : All IsEnded ended
      pub silent :
          p.app ≡ none
          → (method : Option String) (request : Buffer) (has_response : Bool)
          → ((plugin_call Config env encode p method request has_response).0 ≡ 1)
            × ((plugin_call Config env encode p method request has_response).2 ≡ p)
