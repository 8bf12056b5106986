-- ===== src/Notify/Texts.antt =====
-- The texts of internal/notify/template.go.
use cpa_quota_alert_plugin.Base.{String, [], ◌∷◌}
use cpa_quota_alert_plugin.Base.Dict.{Dict}

abbrev pub default_subjects : Dict String
default_subjects =
    ("low", "[CPA quota] remaining {{total}} Plus-week equivalents")
    ∷ ("low_reminder", "[CPA quota] still low: {{total}} Plus-week equivalents")
    ∷ ("recovery", "[CPA quota] recovered to {{total}} Plus-week equivalents")
    ∷ ("data_error", "[CPA quota] check incomplete {{consecutive_failures}} times")
    ∷ ("plan_changed", "[CPA quota] unrecognized plan types")
    ∷ ("test_notification", "[CPA quota] test notification")
    ∷ []

abbrev low_body : String
low_body =
    "CPA quota is below the configured low threshold.\n\nRemaining: {{total}}\nLow threshold: {{low_threshold}}\nRecovery threshold: {{recovery_threshold}}\nPartial snapshot: {{partial}}\nUnresolved accounts: {{unresolved_count}}\nOccurred at (UTC): {{occurred_at}}\n\nThis message contains aggregate totals only. It does not include account identifiers, credentials, or host names.\n"

abbrev low_reminder_body : String
low_reminder_body =
    "CPA quota is still below the configured low threshold.\n\nRemaining: {{total}}\nLow threshold: {{low_threshold}}\nRecovery threshold: {{recovery_threshold}}\nPartial snapshot: {{partial}}\nUnresolved accounts: {{unresolved_count}}\nOccurred at (UTC): {{occurred_at}}\n\nThis is a reminder, not a new incident. This message contains aggregate totals only.\n"

abbrev recovery_body : String
recovery_body =
    "CPA quota has reached the configured recovery threshold.\n\nRemaining: {{total}}\nLow threshold: {{low_threshold}}\nRecovery threshold: {{recovery_threshold}}\nPartial snapshot: {{partial}}\nUnresolved accounts: {{unresolved_count}}\nOccurred at (UTC): {{occurred_at}}\n\nThis message contains aggregate totals only.\n"

abbrev data_error_body : String
data_error_body =
    "CPA quota checks failed or returned incomplete data repeatedly, so no new complete weighted total was confirmed.\n\nConsecutive failures: {{consecutive_failures}}\nError code: {{error_code}}\nOccurred at (UTC): {{occurred_at}}\n\nThe error code is a stable classifier. This message does not include raw upstream text, account identifiers, or credentials.\n"

abbrev plan_changed_body : String
plan_changed_body =
    "CPA quota found plan types that are not mapped in the operator configuration.\n\nUnrecognized plans: {{unknown_plans}}\nOccurred at (UTC): {{occurred_at}}\n\nWeighted quota was not computed for this check. Add a local plan rule only after you confirm the intended weight.\n"

abbrev test_notification_body : String
test_notification_body =
    "This is a CPA quota alert test notification.\n\nIt confirms that the configured delivery channel can send mail. It does not report a real quota change and does not include account identifiers or credentials.\n\nOccurred at (UTC): {{occurred_at}}\n"

abbrev pub default_bodies : Dict String
default_bodies =
    ("low", low_body)
    ∷ ("low_reminder", low_reminder_body)
    ∷ ("recovery", recovery_body)
    ∷ ("data_error", data_error_body)
    ∷ ("plan_changed", plan_changed_body)
    ∷ ("test_notification", test_notification_body)
    ∷ []
