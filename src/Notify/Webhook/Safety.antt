-- ===== src/Notify/Webhook/Safety.antt =====
-- What the webhook sends, and what its success means.
use cpa_quota_alert_plugin.Base.{
  Option-cases, Result-cases, Bool-cases, ℕ, ℤ, pos, ◌≤ℤ◌, String, true, false, Option, none, some,
  ◌≡◌, ◌⊎◌, refl, arith, eq_iff, trim_space, inl, inr, ok,
}
use cpa_quota_alert_plugin.Runtime.{Runtime, Url}
use cpa_quota_alert_plugin.Config.Channels.{WebhookConfig}
use cpa_quota_alert_plugin.Notify.{Message, has_header_injection}
use cpa_quota_alert_plugin.Notify.Webhook.{
  Request, HttpClient, is_loopback_host, check_url, validate_webhook_url, prepare, answer_code,
  send,
}

module _ (rt : Runtime) where
  -- A request that nobody reads on its way, without a user or a fragment in its URL.
  pub record IsSafe (request : Request) : Type 0 where
    pub method : (request.method ≡ "POST") ⊎ (request.method ≡ "PUT")
    pub scheme :
        (request.url.scheme ≡ "https")
        ⊎ ((request.url.scheme ≡ "http") × (is_loopback_host rt request.url.hostname ≡ true))
    pub bare : request.url.is_bare ≡ true
    pub authorization : has_header_injection request.authorization ≡ false

  check_url-scheme :
      (url url' : Url)
      → check_url rt url ≡ ok url'
      → ((url'.scheme ≡ "https")
          ⊎ ((url'.scheme ≡ "http") × (is_loopback_host rt url'.hostname ≡ true)))
        × (url'.is_bare ≡ true)
  unfolding check_url
  check_url-scheme url url' h =
      let same : url' ≡ url = ground arith in
      rw same (ground (arith, eq_iff url.scheme "https", eq_iff url.scheme "http"), ground arith)

  validate_webhook_url-scheme :
      (raw : String) (url : Url)
      → validate_webhook_url rt raw ≡ ok url
      → ((url.scheme ≡ "https")
          ⊎ ((url.scheme ≡ "http") × (is_loopback_host rt url.hostname ≡ true)))
        × (url.is_bare ≡ true)
  unfolding validate_webhook_url
  validate_webhook_url-scheme raw url h = elim (Option-cases (rt.parse_url raw)) [
    | inl bad ↦ absurd (ground arith)
    | inr (parsed, found) ↦ check_url-scheme parsed url (ground arith)
  ]

  prepare-IsSafe :
      (cfg : WebhookConfig) (getenv : String → String) (client : HttpClient) (now : ℕ)
      (msg : Message) (request : Request)
      → prepare rt cfg getenv client now msg ≡ ok request
      → IsSafe request
  unfolding prepare
  prepare-IsSafe cfg getenv client now msg request h =
      let raw_url = trim_space (getenv cfg.url_env) in
      let (scheme, bare) = validate_webhook_url-scheme raw_url request.url (ground arith) in
      record {
        method = ground (arith, eq_iff request.method "POST", eq_iff request.method "PUT");
        scheme = scheme;
        bare = bare;
        authorization = ground arith;
      }

  -- What a result of `Send` says: a request that was sent is a safe one, and without an error an
  -- enabled channel did send one, whose answer had a status of success.
  pub record IsHonest (cfg : WebhookConfig) (client : HttpClient)
      (result : Option String × Option Request) : Type 0 where
    pub safe : (request : Request) → result.1 ≡ some request → IsSafe request
    pub delivered :
        cfg.enabled ≡ true
        → result.0 ≡ none
        → (request : Request) × (status : ℤ) × (result.1 ≡ some request)
          × (client.status request ≡ some status)
          × (pos 200 ≤ℤ status)
          × (status ≤ℤ pos 299)

  answer_code-status :
      (answer : Option ℤ)
      → answer_code rt answer ≡ none
      → (status : ℤ) × (answer ≡ some status) × (pos 200 ≤ℤ status) × (status ≤ℤ pos 299)
  unfolding answer_code
  answer_code-status none h = absurd (ground arith)
  answer_code-status (some status) h = (status, refl, ground arith, ground arith)

  sent-IsHonest :
      (cfg : WebhookConfig) (client : HttpClient) (request : Request)
      → IsSafe request
      → IsHonest cfg client (answer_code rt (client.status request), some request)
  sent-IsHonest cfg client request is_safe = record {
    safe = λ sent e. let same : sent ≡ request = ground arith in rw same is_safe;
    delivered = λ on h.
        let (status, answered, low, high) = answer_code-status (client.status request) h in
        (request, status, refl, answered, low, high);
  }

  -- Every result of the webhook's sender: a request that it sent has the method POST or PUT, an
  -- absolute URL over https, or over http to the machine itself, without a user or a fragment, and an
  -- authorization without line breaks; and where an enabled channel gives no error, one request was
  -- sent, and the status of its answer is from 200 to 299.
  pub send-IsHonest :
      (cfg : WebhookConfig) (getenv : String → String) (client : HttpClient) (now : ℕ)
      (msg : Message)
      → IsHonest cfg client (send rt cfg getenv client now msg)
  unfolding send
  send-IsHonest cfg getenv client now msg = elim (Bool-cases cfg.enabled) [
    | inr off ↦ rw off (record {
      safe = λ request e. absurd (ground arith);
      delivered = λ on h. absurd (ground arith);
    })
    | inl on ↦ elim (Result-cases (prepare rt cfg getenv client now msg)) [
      | inl (code, bad) ↦ rw on (
          rw bad (record {
            safe = λ request e. absurd (ground arith);
            delivered = λ _ h. absurd (ground arith);
          }))
      | inr (request, good) ↦
          let sent : send rt cfg getenv client now msg
              ≡ (answer_code rt (client.status request), some request) =
            rw on (rw good refl) in
          rw sent (
            sent-IsHonest cfg client request
              (prepare-IsSafe cfg getenv client now msg request good))
    ]
  ]
