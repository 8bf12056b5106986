-- ===== src/Config/Plain/Safety.antt =====
-- The scan for plaintext secrets finds every forbidden key.
use Prim.Native.String.{[] as no_text, ◌∷◌ as ◌∷ₜ◌}
use Prim.Native.String.len
use package.text.Mathlib.TextPositions.{len-append, len_utf8-pos}
use mathlib.Core.Path.{subst}
use cpa_quota_alert_plugin.Base.{
  ℕ, suc, pos, ◌≤◌, String, len, ◌<>◌, true, false, List, [], ◌∷◌, ◌++◌, ◌==◌, ◌≡◌, ap,
  if◌then◌else◌, join, to_lower, eq_iff, arith, refl, any, not, contains, ends_with, Bool-cases,
  inl, inr,
}
use cpa_quota_alert_plugin.Runtime.{
  Runtime, Any, null, bool, int, int_64, float, number, small_int, uint, float_32, text, texts,
  objects, counts, other, array, object, Items, nil, cons, Fields, end, field,
}
use cpa_quota_alert_plugin.Config.Plain.{
  is_forbidden_plain_secret_key, find_plain_secret, find_in_fields, find_in_items, IsPlainless,
  AreFieldsPlainless, AreItemsPlainless, plain_secret_names, IsDecoded, AreFieldsDecoded,
  AreItemsDecoded,
}

len-empty : len "" ≡ 0
len-empty = refl

len-join_append : (path : List String) (key : String) → len key ≤ len (join "." (path ++ key ∷ []))
unfolding join
len-join_append [] key = omega arith
len-join_append (s ∷ []) key = omega (arith, len-append s ("." <> key), len-append "." key)
len-join_append (s ∷ t ∷ path) key = omega (
  arith,
  len-append s ("." <> join "." ((t ∷ path) ++ key ∷ [])),
  len-append "." (join "." ((t ∷ path) ++ key ∷ [])),
  len-join_append (t ∷ path) key,
)

-- The path to a key that is not empty is no empty text.
join-nonempty :
    (path : List String) (key : String) → (join "." (path ++ key ∷ []) == "") ≡ true → len key ≡ 0
join-nonempty path key h =
    let same = (eq_iff (join "." (path ++ key ∷ [])) "").0 h in
    omega (arith, len-join_append path key, ap len same, len-empty)

both-empty :
    (inside rest : String)
    → (if inside == "" then rest else inside) ≡ ""
    → (inside ≡ "") × (rest ≡ "")
both-empty inside rest h = ground (arith, eq_iff inside "")

forbidden-names : any (λ name. not (is_forbidden_plain_secret_key name)) plain_secret_names ≡ false
unfolding is_forbidden_plain_secret_key ends_with
forbidden-names = refl

forbidden-contains :
    (names : List String) (key : String)
    → any (λ name. not (is_forbidden_plain_secret_key name)) names ≡ false
    → contains names key ≡ true
    → is_forbidden_plain_secret_key key ≡ true
forbidden-contains [] key all h = absurd (ground arith)
forbidden-contains (name ∷ names) key all h = elim (Bool-cases (name == key)) [
  | inl this ↦
      subst (λ k. is_forbidden_plain_secret_key k ≡ true) ((eq_iff name key).0 this) (ground arith)
  | inr later ↦ forbidden-contains names key (ground arith) (ground arith)
]

-- A key that is not forbidden names no secret.
allowed-names :
    (key : String)
    → is_forbidden_plain_secret_key key ≡ false
    → contains plain_secret_names key ≡ false
allowed-names key h = elim (Bool-cases (contains plain_secret_names key)) [
  | inl found ↦
      let forbidden = forbidden-contains plain_secret_names key forbidden-names found in
      absurd (ground arith)
  | inr missing ↦ missing
]

module _ (rt : Runtime) where
  open rt use {Float, lower, itoa}

  forbidden-nonempty :
      (key : String) → len key ≡ 0 → is_forbidden_plain_secret_key (to_lower lower key) ≡ false
  unfolding is_forbidden_plain_secret_key to_lower
  forbidden-nonempty no_text h = refl
  forbidden-nonempty (c ∷ₜ s) h = absurd (ground (arith, len.cons c s, len_utf8-pos c))

  mutual
    unfolding find_plain_secret

    find_plain_secret-IsPlainless :
        (value : Any Float) (path : List String)
        → IsDecoded rt value
        → find_plain_secret rt value path ≡ ""
        → IsPlainless rt value
    find_plain_secret-IsPlainless (object fields) path d h =
        find_in_fields-Plainless fields path d h
    find_plain_secret-IsPlainless (array items) path d h = find_in_items-Plainless 0 items path d h
    find_plain_secret-IsPlainless null path d h = tt
    find_plain_secret-IsPlainless (bool _) path d h = tt
    find_plain_secret-IsPlainless (int _) path d h = tt
    find_plain_secret-IsPlainless (int_64 _) path d h = tt
    find_plain_secret-IsPlainless (float _) path d h = tt
    find_plain_secret-IsPlainless (number _) path d h = tt
    find_plain_secret-IsPlainless (small_int _) path d h = tt
    find_plain_secret-IsPlainless (uint _) path d h = tt
    find_plain_secret-IsPlainless (float_32 _) path d h = tt
    find_plain_secret-IsPlainless (text _) path d h = tt
    find_plain_secret-IsPlainless (texts _) path d h = tt
    find_plain_secret-IsPlainless (objects _) path d h = absurd d
    find_plain_secret-IsPlainless (counts _) path d h = tt
    find_plain_secret-IsPlainless other path d h = tt

    pub find_in_fields-Plainless :
        (fields : Fields Float) (path : List String)
        → AreFieldsDecoded rt fields
        → find_in_fields rt fields path ≡ ""
        → AreFieldsPlainless rt fields
    find_in_fields-Plainless end path d h = tt
    find_in_fields-Plainless (field key value more) path (first, d) h =
        let next = path ++ key ∷ [] in
        let inside = find_plain_secret rt value next in
        let allowed : is_forbidden_plain_secret_key (to_lower lower key) ≡ false =
          ground
            (arith, forbidden-nonempty key, join-nonempty path key, eq_iff (join "." next) "") in
        let nothing : inside ≡ "" = ground (arith, eq_iff inside "") in
        (
          allowed-names (to_lower lower key) allowed,
          find_plain_secret-IsPlainless value next first nothing,
          find_in_fields-Plainless more path d (ground (arith, eq_iff inside "")),
        )

    find_in_items-Plainless :
        (i : ℕ) (items : Items Float) (path : List String)
        → AreItemsDecoded rt items
        → find_in_items rt i items path ≡ ""
        → AreItemsPlainless rt items
    find_in_items-Plainless i nil path d h = tt
    find_in_items-Plainless i (cons value more) path (first, d) h =
        let next = path ++ itoa (pos i) ∷ [] in
        let (nothing, none_after) =
          both-empty (find_plain_secret rt value next) (find_in_items rt (suc i) more path) h in
        (
          find_plain_secret-IsPlainless value next first nothing,
          find_in_items-Plainless (suc i) more path d none_after,
        )
