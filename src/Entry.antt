-- ===== src/Entry.antt =====
-- cmd/plugin/main_linux.go: the functions that the host calls in the plugin's process, and the call of
-- the host from there. Memory of C is the bytes it holds, and its release a flag; an allocation
-- succeeds. Init and shutdown exclude each other, so each is one step.
pub mod Paired
use cpa_quota_alert_plugin.Base.{
  ℕ, ltb, eqb, len, String, Bool, true, false, not, ◌&&◌, ◌||◌, Option, none, some, List, [], ◌∷◌,
  ◌++◌, ◌==◌, if◌then◌else◌, Result, ok, err,
}
use cpa_quota_alert_plugin.App.{App, Environment, Envelope, failure, close, call}

-- `cliproxy_host_api`, with whether its functions are there.
pub record HostApi : Type 0 where
  pub abi_version : ℕ
  pub has_call : Bool
  pub has_free : Bool

-- `host_api_valid` of a pointer.
unfoldable pub host_api_valid : Option HostApi → Bool
host_api_valid none = false
host_api_valid (some host) = eqb host.abi_version 1 && host.has_call && host.has_free

-- A pointer with a length: null, or the bytes it leads to.
pub data Buffer : Type 0 where
  null_of : ℕ → Buffer
  bytes : String → Buffer

abbrev size : Buffer → ℕ
size (null_of n) = n
size (bytes s) = len s

abbrev content : Buffer → String
content (null_of n) = ""
content (bytes s) = s

abbrev is_null : Buffer → Bool
is_null (null_of n) = true
is_null (bytes s) = false

-- What becomes of the response: there is none, it is cleared, or it gets the bytes.
pub data Written : Type 0 where
  untouched cleared : Written
  written : String → Written

-- `writeABIResponse` into a response that is there and cleared.
unfoldable pub write_abi_response : String → Written
write_abi_response raw = if raw == "" then cleared else written raw

-- `math.MaxInt32`
abbrev max_int_32 : ℕ
max_int_32 = 2147483647

module _ (Config : Type 0) where
  -- `globalApp` and the stored host.
  pub record Process : Type 0 where
    pub app : Option (App Config)
    pub host : Option HostApi

  abbrev new_app : Bool → App Config
  new_app has_handler = record {
    current = none;
    closed = false;
    calls = 0;
    has_handler = has_handler;
  }

  -- `ShutdownAndWait` of the app that is detached, which waits until the app's calls have ended.
  unfoldable pub detached : Option (App Config) → List (App Config)
  unfolding close
  detached none = []
  detached (some app) = record (close Config app) { calls = 0 } ∷ []

  -- `cliproxy_plugin_init`: its code, the process, and the apps that it ended.
  unfoldable pub init : Process → Option HostApi → Bool → Bool → ℕ × Process × List (App Config)
  unfolding host_api_valid detached
  init process host has_plugin has_handler =
      if not has_plugin || not (host_api_valid host)
      then (1, process, [])
      else (0, record { app = some (new_app has_handler); host = host }, detached process.app)

  -- `cliproxyPluginShutdown`
  unfoldable pub shutdown : Process → Process × List (App Config)
  unfolding detached
  shutdown process = (record { app = none; host = none }, detached process.app)

  module _ (env : Environment Config) (encode : Envelope → String) where
    answer_error : Process → String → ℕ × Written × Process
    unfolding write_abi_response
    answer_error process code = (1, write_abi_response (encode (failure code)), process)

    finish_call : Process → Envelope × ℕ × App Config → ℕ × Written × Process
    unfolding write_abi_response
    finish_call process (envelope, code, app) =
        let raw = encode envelope in
        let next : Process = record process { app = some app } in
        if raw == "" then (1, cleared, next) else (code, written raw, next)

    call_app : Process → Option (App Config) → String → String → ℕ × Written × Process
    unfolding answer_error finish_call call
    call_app process none method request = answer_error process "plugin_unavailable"
    call_app process (some app) method request =
        finish_call process (call Config env app method request)

    -- `cliproxyPluginCall`; `none` stands for a null method.
    unfoldable pub plugin_call : Process → Option String → Buffer → Bool → ℕ × Written × Process
    unfolding call_app answer_error
    plugin_call process method request has_response =
        if not has_response then (1, untouched, process) else elim method [
          | none ↦ answer_error process "invalid_method"
          | some name ↦
              if ltb max_int_32 (size request) || (ltb 0 (size request) && is_null request)
              then answer_error process "invalid_request"
              else call_app process process.app name (content request)
        ]

pub data HostError : Type 0 where
  context_ended callback_failed : HostError

-- The code and the response of a host, a null pointer for `none`.
abbrev Answer : Type 0
Answer = ℕ × Option String

abbrev has_response : Answer → Bool
has_response (code, none) = false
has_response (code, some raw) = true

read_answer : Bool → Answer → Result HostError String
read_answer ended (code, none) = err callback_failed
read_answer ended (code, some raw) =
    if not (eqb code 0) || raw == "" || ltb max_int_32 (len raw)
    then err callback_failed
    else if ended
    then err context_ended
    else ok raw

-- `nativeHostCaller.Call` over the snapshot of the host that the app was made with, where the context
-- has ended before the call or after it: the result, and whether a response was released.
unfoldable pub host_call :
    HostApi
    → (String → String → Answer)
    → Bool
    → Bool
    → String
    → String
    → Result HostError String × Bool
unfolding read_answer
host_call host host_function ended_before ended_after method request =
    if ended_before
    then (err context_ended, false)
    else if method == "" || ltb max_int_32 (len request)
    then (err callback_failed, false)
    else if not host.has_call || not host.has_free
    then (err callback_failed, false)
    else let answer = host_function method request in
      (read_answer ended_after answer, has_response answer)
