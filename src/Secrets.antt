-- ===== src/Secrets.antt =====
-- internal/secrets/store.go: the file of notification values, which are kept outside the configuration.
pub mod Merge
pub mod Update
use Prim.Native.String.{[] as no_text, ◌∷◌ as ◌∷ₜ◌}
use cpa_quota_alert_plugin.Base.{
  ℕ, String, Char, code, len, ltb, leb, eqb, Bool, true, false, not, ◌&&◌, ◌||◌, Option, none, some,
  List, [], ◌∷◌, if◌then◌else◌, Result, ok, err, any, is_blank, contains_char,
}
use cpa_quota_alert_plugin.Base.Dict.{Dict, lookup, insert, erase, keys}

abbrev pub max_file_bytes : ℕ
max_file_bytes = 32768

-- `json.Marshal` and `json.Unmarshal` of a `map[string]string`; a null is no map. `sort` is
-- `sort.Strings`.
pub record Library : Type 0 where
  pub marshal : Dict String → Option String
  pub unmarshal : String → Option (Dict String)
  pub sort : List String → List String

-- What the calls of the file system find and return. A directory is missing, or private to its owner or
-- not; `regular` says that the state of the file is known, that it is a regular file and private too.
pub record Answers : Type 0 where
  pub has_path : Bool
  pub directory : Option Bool
  pub regular : Bool
  pub readable : Bool
  pub made : Bool
  pub directory_made : Option Bool
  pub created : Bool
  pub permitted : Bool
  pub written : Bool
  pub synced : Bool
  pub closed : Bool
  pub replaced : Bool

pub data UpdateError : Type 0 where
  invalid_value invalid_name set_and_cleared not_loaded not_saved : UpdateError

-- `[A-Za-z_]` and `[A-Za-z0-9_]`
abbrev is_letter : Char → Bool
is_letter c = let n = code c in (leb 65 n && leb n 90) || (leb 97 n && leb n 122) || eqb n 95

abbrev is_name_char : Char → Bool
is_name_char c = let n = code c in is_letter c || (leb 48 n && leb n 57)

-- The expression `envName`, which matches the whole text.
unfoldable pub is_env_name : String → Bool
unfolding contains_char
is_env_name no_text = false
is_env_name (c ∷ₜ s) = is_letter c && not (contains_char (λ d. not (is_name_char d)) s)

-- '\r', '\n' and '\0'
abbrev is_control : Char → Bool
is_control c = let n = code c in eqb n 13 || eqb n 10 || eqb n 0

unfoldable pub is_valid_value : String → Bool
unfolding contains_char
is_valid_value value =
    not (is_blank value) && not (ltb 4096 (len value)) && not (contains_char is_control value)

-- The first loop of `Update`.
unfoldable pub accepts_set : Dict String → Bool
unfolding is_env_name is_valid_value
accepts_set [] = true
accepts_set ((name, value) ∷ more) = is_env_name name && is_valid_value value && accepts_set more

abbrev pub is_some {ℓ} : {A : Type ℓ} → Option A → Bool
is_some none = false
is_some (some _) = true

-- The second loop.
unfoldable pub check_clear : Dict String → List String → Option UpdateError
unfolding is_env_name
check_clear set [] = none
check_clear set (name ∷ more) =
    let rest = check_clear set more in
    if not (is_env_name name)
    then some invalid_name
    else if is_some (lookup name set)
    then some set_and_cleared
    else rest

-- The last two loops.
unfoldable pub erase_all : List String → Dict String → Dict String
erase_all [] values = values
erase_all (name ∷ more) values = erase_all more (erase name values)

unfoldable pub insert_all : Dict String → Dict String → Dict String
insert_all [] values = values
insert_all ((name, value) ∷ more) values = insert_all more (insert name value values)

module _ (lib : Library) (a : Answers) where
  load_file : Option String → Option (Dict String)
  load_file none = some []
  load_file (some text) =
      if not a.regular || not a.readable || ltb max_file_bytes (len text)
      then none
      else lib.unmarshal text

  -- The content of the file, if there is one, is the argument; the result is `none` on an error.
  unfoldable pub load : Option String → Option (Dict String)
  unfolding load_file
  load file =
      if a.has_path
      then elim a.directory [
        | none ↦ some []
        | some private ↦ if private then load_file file else none
      ]
      else none

  write_file : Option String → Result UpdateError String
  write_file none = err not_saved
  write_file (some text) =
      if ltb max_file_bytes (len text)
      then err not_saved
      else if a.created && a.permitted && a.written && a.synced && a.closed && a.replaced
      then ok text
      else err not_saved

  abbrev is_private : Option Bool → Bool
  is_private none = false
  is_private (some private) = private

  -- The new content of the file. A failure before the replacement leaves the old one.
  unfoldable pub save : Dict String → Result UpdateError String
  unfolding write_file
  save values =
      if a.made && is_private a.directory_made
      then write_file (lib.marshal values)
      else err not_saved

  update_loaded : Dict String → List String → Option (Dict String) → Result UpdateError String
  unfolding erase_all insert_all save
  update_loaded set clear none = err not_loaded
  update_loaded set clear (some values) = save (insert_all set (erase_all clear values))

  unfoldable pub update : Dict String → List String → Option String → Result UpdateError String
  unfolding accepts_set check_clear update_loaded load
  update set clear file =
      if accepts_set set
      then elim (check_clear set clear) [
        | some e ↦ err e
        | none ↦ update_loaded set clear (load file)
      ]
      else err invalid_value

  -- `Lookup`
  unfoldable pub stored : String → Option String → Option String
  unfolding load
  stored name file = elim (load file) [ none ↦ none | some values ↦ lookup name values ]

  -- `Names`
  unfoldable pub names : Option String → Option (List String)
  unfolding load
  names file = elim (load file) [ none ↦ none | some values ↦ some (lib.sort (keys values)) ]
