-- ===== src/Tests/Latches.antt =====
-- The theorem on the latches at concrete data.
use cpa_quota_alert_plugin.Monitor.Evaluate.Abstract.{view, kinds}
use cpa_quota_alert_plugin.Monitor.Trace.{run}
use cpa_quota_alert_plugin.Monitor.Refinement.{Run, all_shown, run-Run}
use cpa_quota_alert_plugin.Tests.Machine.{runtime}
use cpa_quota_alert_plugin.Tests.Alerts.{quiet_state, actions}

run-Run_example :
    Run
      (view runtime quiet_state)
      (all_shown runtime actions)
      (kinds runtime (run runtime quiet_state actions).1)
      (view runtime (run runtime quiet_state actions).0)
run-Run_example = run-Run runtime quiet_state actions
