-- ===== src/Management/Handle/Methods.antt =====
-- What the methods of the requests may change.
use cpa_quota_alert_plugin.Base.{String, true, false, [], ◌==◌, ◌≡◌, ap, arith, ok}
use cpa_quota_alert_plugin.Runtime.{Runtime}
use cpa_quota_alert_plugin.Management.Types.{Request, Server, Dependencies}
use cpa_quota_alert_plugin.Management.Secrets.{secrets}
use cpa_quota_alert_plugin.Management.Handle.{
  Route, check_route, status_route, test_route, config_route, secrets_route, validate_route,
  ui_route, no_route, route_of, normalize_path, decode_request, serve, handle,
}

module _ (rt : Runtime) (deps : Dependencies rt) where
  compared :
      (method : String) → method ≡ "GET" → ((method == "GET") ≡ true) × ((method == "POST") ≡ false)
  compared method h = (ap (λ m. m == "GET") h, ap (λ m. m == "POST") h)

  secrets-get : (req : Request) → req.method ≡ "GET" → (secrets rt deps req).1 ≡ []
  unfolding secrets
  secrets-get req h = ground (arith, compared req.method h)

  serve-get :
      (upper : String → String) (route : Route) (req : Request) (server : Server rt)
      → req.method ≡ "GET"
      → let o = serve rt deps upper route req server in (o.effects ≡ []) × (o.server ≡ server)
  unfolding serve
  serve-get upper check_route req server h = ground (arith, compared req.method h)
  serve-get upper status_route req server h = ground (arith, compared req.method h)
  serve-get upper test_route req server h = ground (arith, compared req.method h)
  serve-get upper config_route req server h = ground (arith, compared req.method h)
  serve-get upper secrets_route req server h = ground (arith, secrets-get req h)
  serve-get upper validate_route req server h = ground (arith, compared req.method h)
  serve-get upper ui_route req server h = ground (arith, compared req.method h)
  serve-get upper no_route req server h = ground (arith, compared req.method h)

  -- A GET request, whatever its path and body, saves nothing, sends nothing, updates no secret and
  -- leaves the server as it was.
  pub handle-get :
      (upper : String → String) (raw : String) (req : Request) (server : Server rt)
      → decode_request rt deps upper raw ≡ ok req
      → req.method ≡ "GET"
      → let o = handle rt deps upper raw server in (o.effects ≡ []) × (o.server ≡ server)
  unfolding handle
  handle-get upper raw req server d h =
      rw (d, handle) (serve-get upper (route_of (normalize_path req.path)) req server h)
