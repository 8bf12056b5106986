-- ===== src/App/Lifecycle.antt =====
-- The life of the plugin: shutdown is final, and a refused configuration leaves the active one.
use cpa_quota_alert_plugin.Base.{
  String, true, none, List, [], ◌∷◌, eqb, ◌≡◌, ◌≢◌, refl, arith, if◌then◌else◌,
}
use cpa_quota_alert_plugin.App.{
  registered, failure, App, Environment, current, close, begin_management_call, end_management_call,
  install, parse_lifecycle, configure, configured, call_management, call,
}

module _ (Config : Type 0) (env : Environment Config) where
  -- The calls of `Call` in turn.
  unfoldable pub calls : App Config → List (String × String) → App Config
  calls app [] = app
  calls app ((method, request) ∷ more) = calls (call Config env app method request).2 more

  configure_closed :
      (app : App Config) (request : String)
      → app.closed ≡ true
      → (configure Config env app request).2 ≡ app
  unfolding configure configured install
  configure_closed app request h = ground arith

  call_management-app :
      (app : App Config) (method request : String)
      → (call_management Config env app method request).2 ≡ app
  unfolding call_management begin_management_call end_management_call
  call_management-app app method request = ground arith

  call-closed :
      (app : App Config) (method request : String)
      → app.closed ≡ true
      → (call Config env app method request).2.closed ≡ true
  unfolding call close
  call-closed app method request h =
      ground (arith, configure_closed app request h, call_management-app app method request)

  calls-closed :
      (app : App Config) (l : List (String × String))
      → app.closed ≡ true
      → (calls app l).closed ≡ true
  unfolding calls
  calls-closed app [] h = h
  calls-closed app ((method, request) ∷ l) h =
      calls-closed (call Config env app method request).2 l (call-closed app method request h)

  -- Once the plugin is shut down, no call in any number brings a configuration back: there is none to
  -- read, and a management request is refused with "plugin_shutdown" and return code 1.
  pub shutdown_is_final :
      (app : App Config) (request : String) (l : List (String × String)) (body : String)
      → let app' = calls (call Config env app "plugin.shutdown" request).2 l in
        (current Config app' ≡ none)
        × (call Config env app' "management.handle" body ≡ (failure "plugin_shutdown", 1, app'))
  unfolding current call close call_management begin_management_call
  shutdown_is_final app request l body =
      let h = calls-closed (close Config app) l (unfold close in refl) in
      (ground arith, ground arith)

  -- A registration that fails leaves the app as it was; one that succeeds answers with the registration
  -- and makes the configuration parsed from the request the active one.
  pub configure-current :
      (app : App Config) (request : String)
      → (if eqb (configure Config env app request).1 0
          then ((configure Config env app request).0 ≡ registered)
            × (current Config (configure Config env app request).2
                ≡ parse_lifecycle Config env request)
            × (parse_lifecycle Config env request ≢ none)
          else (configure Config env app request).2 ≡ app)
  unfolding configure configured install current
  configure-current app request = ground arith
