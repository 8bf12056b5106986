-- ===== src/Base/Text.antt =====
-- The text functions of Go's `strings` package that the program calls.
use Prim.Native.Char.{Char, code}
use Prim.Native.String.append
use Prim.Native.String.{String, [], ◌∷◌, ◌++◌ as ◌<>◌}
use native.Mathlib.Omega.{arith}
use mathlib.Core.Path.{◌≡◌, refl}
use mathlib.Core.Logic.{inl, inr}
use mathlib.Core.Bool.{Bool, true, false, ◌&&◌, ◌||◌}
use text.Mathlib.Text.{◌==◌, starts_with}
use cpa_quota_alert_plugin.Base.Tests.{Bool-cases, leb, eqb, if◌then◌else◌}

-- `unicode.IsSpace`
abbrev pub is_space : Char → Bool
is_space c =
    let n = code c in
    (leb 9 n && leb n 13)
    || eqb n 32
    || eqb n 0x85
    || eqb n 0xa0
    || eqb n 0x1680
    || (leb 0x2000 n && leb n 0x200a)
    || eqb n 0x2028
    || eqb n 0x2029
    || eqb n 0x202f
    || eqb n 0x205f
    || eqb n 0x3000

trim_left : String → String
trim_left [] = []
trim_left (c ∷ s) = let rest = trim_left s in if is_space c then rest else c ∷ s

trim_right : String → String
trim_right [] = []
trim_right (c ∷ s) = let rest = trim_right s in if is_space c && rest == "" then [] else c ∷ rest

-- `strings.TrimSpace`
unfoldable pub trim_space : String → String
unfolding trim_left trim_right
trim_space s = trim_right (trim_left s)

-- `strings.ToLower`, over the lower case of one character.
unfoldable pub to_lower : (Char → Char) → String → String
to_lower lower [] = []
to_lower lower (c ∷ s) = lower c ∷ to_lower lower s

-- Without the characters that pass the test.
unfoldable pub remove : (Char → Bool) → String → String
remove p [] = []
remove p (c ∷ s) = let rest = remove p s in if p c then rest else c ∷ rest

-- `strings.ContainsAny`
unfoldable pub contains_char : (Char → Bool) → String → Bool
contains_char p [] = false
contains_char p (c ∷ s) = p c || contains_char p s

-- A text with no character but white space.
abbrev pub is_blank : String → Bool
is_blank s = trim_space s == ""

-- `strings.HasSuffix`
unfoldable pub ends_with : String → String → Bool
ends_with [] t = t == ""
ends_with (c ∷ s) t = (c ∷ s) == t || ends_with s t

-- `strings.Contains`
unfoldable pub contains_text : String → String → Bool
contains_text [] t = t == ""
contains_text (c ∷ s) t = starts_with (c ∷ s) t || contains_text s t

-- `strings.TrimRight` of the characters that pass the test.
unfoldable pub trim_right_by : (Char → Bool) → String → String
trim_right_by p [] = []
trim_right_by p (c ∷ s) = let rest = trim_right_by p s in if p c && rest == "" then [] else c ∷ rest

module _ (p : Char → Bool) where
  pub contains_char-if :
      (b : Bool) (s t : String)
      → contains_char p s ≡ false
      → contains_char p t ≡ false
      → contains_char p (if b then s else t) ≡ false
  contains_char-if true s t h k = h
  contains_char-if false s t h k = k

  pub contains_char-cons :
      (c : Char) (s t : String)
      → contains_char p (c ∷ s) ≡ false
      → (contains_char p s ≡ false → contains_char p t ≡ false)
      → (contains_char p t ≡ false) × (contains_char p (c ∷ t) ≡ false)
  unfolding contains_char
  contains_char-cons c s t h step =
      let rest : contains_char p t ≡ false = step (ground arith) in (rest, ground arith)

  contains_char-trim_left :
      (s : String) → contains_char p s ≡ false → contains_char p (trim_left s) ≡ false
  unfolding trim_left
  contains_char-trim_left [] h = h
  contains_char-trim_left (c ∷ s) h =
      let (rest, all) = contains_char-cons c s (trim_left s) h (contains_char-trim_left s) in
      elim (Bool-cases (is_space c)) [ inl blank ↦ ground arith | inr kept ↦ ground arith ]

  contains_char-trim_right :
      (s : String) → contains_char p s ≡ false → contains_char p (trim_right s) ≡ false
  unfolding trim_right contains_char
  contains_char-trim_right [] h = h
  contains_char-trim_right (c ∷ s) h =
      let (_, all) = contains_char-cons c s (trim_right s) h (contains_char-trim_right s) in
      contains_char-if (is_space c && trim_right s == "") [] (c ∷ trim_right s) refl all

  pub contains_char-trim_space :
      (s : String) → contains_char p s ≡ false → contains_char p (trim_space s) ≡ false
  unfolding trim_space
  contains_char-trim_space s h =
      contains_char-trim_right (trim_left s) (contains_char-trim_left s h)

  pub contains_char-append :
      (s t : String) → contains_char p (s <> t) ≡ (contains_char p s || contains_char p t)
  unfolding contains_char
  contains_char-append [] t = ground (arith, append.nil t)
  contains_char-append (c ∷ s) t = ground (arith, append.cons c s t, contains_char-append s t)

trim_space_example : trim_space " a b\n" ≡ "a b"
unfolding trim_space
trim_space_example = refl
