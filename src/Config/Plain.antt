-- ===== src/Config/Plain.antt =====
-- The scan for plaintext secrets of internal/config/types.go. A map's entries are visited in the order
-- of the list that stands for it.
pub mod Safety
use cpa_quota_alert_plugin.Base.{
  ℕ, suc, pos, String, ◌<>◌, Bool, true, false, not, ◌&&◌, ◌||◌, Option, none, some, List, [], ◌∷◌,
  ◌++◌, ◌==◌, ◌≡◌, if◌then◌else◌, contains, ends_with, to_lower, any, join,
}
use cpa_quota_alert_plugin.Runtime.{
  Runtime, Any, array, object, Items, nil, cons, Fields, end, field, objects, Objects, none_left,
  one_more,
}

abbrev forbidden_smtp : List String
forbidden_smtp = "password" ∷ "username" ∷ "recipient" ∷ "recipients" ∷ "from" ∷ []

abbrev forbidden_webhook : List String
forbidden_webhook = "url" ∷ "auth_header" ∷ "header" ∷ []

unfoldable pub is_forbidden_plain_secret_key : String → Bool
unfolding ends_with
is_forbidden_plain_secret_key key =
    if ends_with key "_env" || key == "from_name"
    then false
    else any (λ forbidden. key == forbidden || key == ("smtp_" <> forbidden)) forbidden_smtp
      || any (λ forbidden. key == forbidden || key == ("webhook_" <> forbidden)) forbidden_webhook

-- The keys under which a secret would stand in plain text.
abbrev pub plain_secret_names : List String
plain_secret_names =
    "password" ∷ "username" ∷ "recipient" ∷ "recipients" ∷ "from" ∷ "smtp_password"
    ∷ "smtp_username" ∷ "smtp_recipient" ∷ "smtp_recipients" ∷ "smtp_from" ∷ "url" ∷ "auth_header"
    ∷ "header" ∷ "webhook_url" ∷ "webhook_auth_header" ∷ "webhook_header" ∷ []

module _ (rt : Runtime) where
  open rt use {Float, itoa, lower}

  -- The path to the first forbidden key, the empty text where there is none.
  unfoldable mutual
    pub find_plain_secret : Any Float → List String → String
    find_plain_secret (object fields) path = find_in_fields fields path
    find_plain_secret (array items) path = find_in_items 0 items path
    find_plain_secret _ path = ""

    find_in_fields : Fields Float → List String → String
    find_in_fields end path = ""
    find_in_fields (field key value more) path =
        let next = path ++ key ∷ [] in
        let inside = find_plain_secret value next in
        let rest = find_in_fields more path in
        if is_forbidden_plain_secret_key (to_lower lower key)
        then join "." next
        else if inside == ""
        then rest
        else inside

    find_in_items : ℕ → Items Float → List String → String
    find_in_items i nil path = ""
    find_in_items i (cons value more) path =
        let inside = find_plain_secret value (path ++ itoa (pos i) ∷ []) in
        let rest = find_in_items (suc i) more path in if inside == "" then rest else inside

  -- No key of the value, at any depth of its objects and arrays, names a plaintext secret.
  abbrev mutual
    pub IsPlainless : Any Float → Type 0
    IsPlainless (object fields) = AreFieldsPlainless fields
    IsPlainless (array items) = AreItemsPlainless items
    IsPlainless (objects more) = AreObjectsPlainless more
    IsPlainless _ = Unit

    pub AreFieldsPlainless : Fields Float → Type 0
    AreFieldsPlainless end = Unit
    AreFieldsPlainless (field key value more) =
        contains plain_secret_names (to_lower lower key) ≡ false
        × IsPlainless value
        × AreFieldsPlainless more

    pub AreItemsPlainless : Items Float → Type 0
    AreItemsPlainless nil = Unit
    AreItemsPlainless (cons value more) = IsPlainless value × AreItemsPlainless more

    pub AreObjectsPlainless : Objects Float → Type 0
    AreObjectsPlainless none_left = Unit
    AreObjectsPlainless (one_more fields more) =
        AreFieldsPlainless fields × AreObjectsPlainless more

  -- A value as the decoders of YAML and of JSON build it: its arrays are of type []any, none of type
  -- []map[string]any.
  abbrev mutual
    pub IsDecoded : Any Float → Type 0
    IsDecoded (object fields) = AreFieldsDecoded fields
    IsDecoded (array items) = AreItemsDecoded items
    IsDecoded (objects _) = ⊥
    IsDecoded _ = Unit

    pub AreFieldsDecoded : Fields Float → Type 0
    AreFieldsDecoded end = Unit
    AreFieldsDecoded (field key value more) = IsDecoded value × AreFieldsDecoded more

    pub AreItemsDecoded : Items Float → Type 0
    AreItemsDecoded nil = Unit
    AreItemsDecoded (cons value more) = IsDecoded value × AreItemsDecoded more
