-- ===== src/Lib.antt =====
-- The verification library of cpa-quota-alert-plugin, a plugin that watches the shared quota of a pool
-- of Codex accounts and raises alerts by mail and webhook.
--
-- The program. A management request asks for a check (internal/management/handler.go). The check lists
-- the accounts of the host, asks each for its usage report (internal/codexquota/service.go), turns the
-- reports into one weighted total (internal/quota/types.go) and lets the monitor decide on alerts by
-- the old state (internal/monitor/types.go). The new state is saved (internal/state/store.go) before
-- the alerts are sent, and again after each message. internal/pluginapp/app.go takes the host's calls,
-- holds the active configuration and ends with the shutdown. The configuration is parsed and checked
-- by internal/config; alerts are rendered and sent by internal/notify; cmd/plugin is what the host loads.
--
-- The files, each under the name of what it models:
--   Base, Base/*: Boolean tests, signed 64-bit integers that wrap, lists, texts, association lists for
--     maps.
--   Runtime: what is taken from Go and its standard library, as fields of a record: float64 and its
--     operations, the JSON decoder and its values, number syntax, URLs, mail addresses, the digest of an
--     event id.
--   Quota/*: internal/quota/types.go. Types has the records, `normalize` and `findRule`; Wham is
--     `ParseWham` with its helpers; Observe is `ObserveAccount` and `observeQuota`; Aggregate is
--     `AggregateObservations` and `Aggregate`.
--   Monitor/*: internal/monitor/types.go. Types has the state, the events and the error codes; Evaluate
--     is `Evaluate`, each part of the function by its own name; Deliver is `MarkDelivered`. Trace runs
--     both in any order. Evaluate/Abstract describes them as three latches, and Refinement relates the
--     two.
--   Store/*: internal/state/store.go. Save takes what each call of the file system returns and gives
--     every disk it passes through, the last first; Load reads the state file.
--   Codex/*: internal/codexquota/service.go, and the account entry of internal/abi/client.go.
--     Credential is `ParseCredential`, Fetch is `fetchQuota` and the error codes, Check is
--     `selectCodex`, `checkOne` and `Check`.
--   Management/*: internal/management/handler.go, and in Secrets and Settings the handlers `secrets`
--     and `validateSettings` of internal/management/ui.go. A handler is a function of the answers that
--     its dependencies give (`Dependencies`), to a response, the server's fields and the list of
--     effects in order.
--   App: internal/pluginapp/app.go. The state of the app is explicit, the parser and the management
--     handler are arguments.
--   Entry/*: cmd/plugin/main_linux.go. The process holds an app and a host, or neither; a call of the
--     plugin gives its code, what becomes of the response, and the process after it.
--   Secrets/*: internal/secrets/store.go. The state is the content of the file; an update gives the new
--     content or an error.
--   Host/*: internal/abi/client.go. What the host answers, from the envelope to the result.
--   Config/*: internal/config/types.go and internal/config/yaml.go. Config itself is `parseRules`,
--     `NormalizePlan` and `claimedUpstreamPlans`; Values has the readers of single values; Channels is
--     `parseSMTP` and `parseWebhook`; Environment is `validateNotificationEnv`; Mail is `parseMail`
--     and the placeholders of a template; Plain is `findPlainSecret`; Parse is `Parse` and
--     `validateRanges`; Yaml is `DecodeYAML` and `ParseYAML`.
--   Notify/*: internal/notify. Notify itself is message.go; Texts, Format and Template are template.go;
--     Recipients is `parseRecipients` and the `recipientCount` of internal/pluginapp/runtime.go; Smtp
--     and Webhook are the senders, which give the code of their error and what they sent.
--   Wiring: internal/pluginapp/runtime.go, the factories that connect the components.
--   Tests/*: runs on concrete inputs.
--
-- Conventions. A time is the number of nanoseconds since Go's zero time, which is 0. `int` and `int64`
-- are integers that wrap at 64 bits. A map is an association list; its order is one of those in which
-- `range` may visit it. A Go error beside a zero value is `Result` or `Option`. Values are not shared,
-- so the clone functions of the source are identities.
--
-- Bounds. The loop of `fetchQuota` recurses on the attempts that are left, computed from the
-- configuration, so it needs no fuel. `writeAll` recurses on the answers of the calls of `Write`, and
-- fails where none is left; one answer for each byte is enough where each call takes a byte.
--
-- `validateYAMLNode` runs on fuel, since an alias can lead back to a node above: one unit more than the
-- document has nodes, which is enough as a node that is visited again on its own path ends the run.
--
-- Not modelled: contexts, timeouts and sleeps; the recovery from panics; the workers of `Check`,
-- which fill one slot for each account in any order; file permissions; the closing of connections.
-- internal/abi, internal/notify and internal/secrets are modelled on their own, and stand behind `Host`
-- and `Dependencies` where others call them, as `validateSettings` does. gopkg.in/yaml.v3, net/mail,
-- net/url, mime and the JSON coders are parameters. The settings page, deployment and documents have no
-- part in the model.
pub mod Base
pub mod Runtime
pub mod Quota
pub mod Monitor
pub mod Notify
pub mod Store
pub mod Codex
pub mod Management
pub mod App
pub mod Entry
pub mod Secrets
pub mod Host
pub mod Config
pub mod Tests
pub mod Wiring
