-- ===== src/Management/Check/Safety.antt =====
-- What a check does at most: one at a time, nothing sent on a dry run, nothing sent that is not saved.
use cpa_quota_alert_plugin.Base.{
  ℕ, zero, suc, ◌≤◌, String, Bool, true, false, ◌||◌, none, some, List, [], ◌∷◌, ◌≡◌, refl, arith,
  inl, inr, Option-cases, if◌then◌else◌, ok, eqb,
}
use cpa_quota_alert_plugin.Runtime.{Runtime}
use cpa_quota_alert_plugin.Monitor.Types.{State}
use cpa_quota_alert_plugin.Management.Types.{Channel, Config, Server, Effect, saved, Dependencies}
use cpa_quota_alert_plugin.Management.Channels.{channel_names, configure}
use cpa_quota_alert_plugin.Management.Deliver.{Progress, deliver_pending}
use cpa_quota_alert_plugin.Management.Deliver.Order.{
  Log, broken, in_doubt, InOrder, log, start, persisted, is_broken, deliver_pending-InOrder,
  log_step,
}
use cpa_quota_alert_plugin.Management.Check.{
  Outcome, try_start, finish, decode_action_body, next_state, delivered, check_evaluated,
  check_started, check,
}

module _ (rt : Runtime) where
  -- One step of the requests that share a server: one starts a check, or one that runs a check ends it.
  pub data Turn : Type 0 where
    begin end : Turn

  -- The server and how many checks run after the turns.
  unfoldable pub turns : Server rt → ℕ → List Turn → Server rt × ℕ
  unfolding try_start finish
  turns server active [] = (server, active)
  turns server active (begin ∷ more) = elim (try_start rt server) [
    | none ↦ turns server active more
    | some started ↦ turns started (suc active) more
  ]
  turns server zero (end ∷ more) = turns server zero more
  turns server (suc active) (end ∷ more) = turns (finish rt server) active more

  abbrev pub IsSingle : Server rt → ℕ → Type 0
  IsSingle server active = (active ≤ 1) × (server.running ≡ eqb active 1)

  -- From a server on which at most one check runs and whose flag says whether one does, this stays
  -- so however the requests start and end their checks.
  pub turns-IsSingle :
      (server : Server rt) (active : ℕ) (l : List Turn)
      → IsSingle server active
      → IsSingle (turns server active l).0 (turns server active l).1
  unfolding turns try_start finish
  turns-IsSingle server active [] h = h
  turns-IsSingle server active (begin ∷ more) h = ground (
    arith,
    turns-IsSingle server active more,
    turns-IsSingle (record server { running = true }) (suc active) more,
  )
  turns-IsSingle server zero (end ∷ more) h = turns-IsSingle server zero more h
  turns-IsSingle server (suc active) (end ∷ more) h =
      turns-IsSingle (finish rt server) active more (ground arith)

module _ (rt : Runtime) (deps : Dependencies rt) where
  -- A check leaves the flag of the server as it finds it; while another check runs, it has no
  -- effect and leaves the server as it was.
  pub check-running :
      (body : String) (server : Server rt)
      → let o = check rt deps body server in
        (o.server.running ≡ server.running)
        × (server.running ≡ true → (o.effects ≡ []) × (o.server ≡ server))
  unfolding check try_start finish
  check-running body server = ground arith

  -- Nothing, or one save.
  unfoldable pub is_quiet : List (Effect rt) → Bool
  is_quiet [] = true
  is_quiet (saved s ∷ []) = true
  is_quiet (e ∷ more) = false

  check_evaluated-dry :
      (cfg : Config rt) (dry_run : Bool) (channels : List Channel) (next : State rt)
      (server : Server rt)
      → (cfg.dry_run || dry_run) ≡ true
      → is_quiet (check_evaluated rt deps cfg dry_run channels next server).effects ≡ true
  unfolding check_evaluated is_quiet
  check_evaluated-dry cfg dry_run channels next server h = ground arith

  check_started-dry :
      (cfg : Config rt) (dry_run : Bool) (server : Server rt)
      → deps.config ≡ some cfg
      → (cfg.dry_run || dry_run) ≡ true
      → is_quiet (check_started rt deps dry_run server).effects ≡ true
  unfolding check_started is_quiet
  check_started-dry cfg dry_run server c h = elim (Option-cases deps.load) [
    | inl e ↦ ground arith
    | inr (current, e) ↦ elim (Option-cases deps.channels) [
      | inl k ↦ ground arith
      | inr (given, k) ↦
          let channels = configure rt [] given in
          let next = next_state rt deps cfg current channels in
          ground (arith, check_evaluated-dry cfg dry_run channels next server h)
    ]
  ]

  -- With a configuration of dry runs, or asked for a dry run, a check sends nothing: all it does
  -- is at most one save.
  pub check-dry :
      (cfg : Config rt) (dry_run : Bool) (body : String) (server : Server rt)
      → deps.config ≡ some cfg
      → decode_action_body rt deps body ≡ ok dry_run
      → (cfg.dry_run || dry_run) ≡ true
      → is_quiet (check rt deps body server).effects ≡ true
  unfolding check try_start is_quiet
  check-dry cfg dry_run body server c d h =
      ground (arith, check_started-dry cfg dry_run (record server { running = true }) c h)

  abbrev pub is_persisted : Log rt → Bool
  is_persisted start = false
  is_persisted (persisted s) = true
  is_persisted in_doubt = false
  is_persisted broken = false

  -- The effects of an answer with 200 leave the state saved; no other answer's effects send unsaved.
  abbrev pub Logs : Outcome rt deps → Type 0
  Logs o =
      if eqb o.response.status_code 200
      then is_persisted (log rt start o.effects) ≡ true
      else is_broken rt (log rt start o.effects) ≡ false

  delivered-Logs :
      (next : State rt) (server : Server rt) (p : Progress rt deps)
      → InOrder rt deps p
      → Logs (delivered rt deps next server p)
  unfolding delivered
  delivered-Logs next server p h = ground arith

  check_evaluated-Logs :
      (cfg : Config rt) (dry_run : Bool) (channels : List Channel) (next : State rt)
      (server : Server rt)
      → Logs (check_evaluated rt deps cfg dry_run channels next server)
  unfolding check_evaluated log log_step
  check_evaluated-Logs cfg dry_run channels next server =
      let senders = channel_names channels in
      let p = deliver_pending rt deps senders next (saved next ∷ []) 1 in
      ground (
        arith,
        delivered-Logs next (record server { last_check_at = deps.now }) p
            (deliver_pending-InOrder rt deps senders next (saved next ∷ []) 1 refl),
      )

  check_started-Logs :
      (dry_run : Bool) (server : Server rt) → Logs (check_started rt deps dry_run server)
  unfolding check_started log
  check_started-Logs dry_run server = elim (Option-cases deps.config) [
    | inl c ↦ ground arith
    | inr (cfg, c) ↦ elim (Option-cases deps.load) [
      | inl e ↦ ground arith
      | inr (current, e) ↦ elim (Option-cases deps.channels) [
        | inl k ↦ ground arith
        | inr (given, k) ↦
            let channels = configure rt [] given in
            let next = next_state rt deps cfg current channels in
            ground (arith, check_evaluated-Logs cfg dry_run channels next server)
      ]
    ]
  ]

  -- A check sends no message before it has saved a state, nor two with no save between them; where it
  -- answers with 200, it has sent nothing since its last save.
  pub check-Logs : (body : String) (server : Server rt) → Logs (check rt deps body server)
  unfolding check decode_action_body try_start finish log
  check-Logs body server = ground (
    arith,
    check_started-Logs false (record server { running = true }),
    check_started-Logs true (record server { running = true }),
  )
