-- ===== src/Runtime.antt =====
-- What the program takes from the Go runtime and its standard library and does not implement.
use cpa_quota_alert_plugin.Base.{ℕ, ℤ, String, Char, Bool, Option, List}

-- A value of Go's type `any`, as the decoders produce it; `F` is float64. `other` stands for every
-- type that no switch of the program names.
mutual
  pub data Any (F : Type 0) : Type 0 where
    null : Any F
    bool : Bool → Any F
    int : ℤ → Any F
    int_64 : ℤ → Any F
    float : F → Any F
    number : String → Any F
    -- int8, int16, int32, uint8 and uint16
    small_int : ℤ → Any F
    -- uint, uint32 and uint64
    uint : ℕ → Any F
    -- float32, as the float64 of the same value
    float_32 : F → Any F
    text : String → Any F
    array : Items F → Any F
    object : Fields F → Any F
    -- []string and []map[string]any
    texts : List String → Any F
    objects : Objects F → Any F
    -- map[string]int
    counts : List (String × ℕ) → Any F
    other : Any F

  pub data Items (F : Type 0) : Type 0 where
    nil : Items F
    cons : Any F → Items F → Items F

  pub data Fields (F : Type 0) : Type 0 where
    end : Fields F
    field : String → Any F → Fields F → Fields F

  pub data Objects (F : Type 0) : Type 0 where
    none_left : Objects F
    one_more : Fields F → Objects F → Objects F

-- What the program reads of a parsed URL. `is_bare` says that it names no user and no fragment.
pub record Url : Type 0 where
  pub scheme : String
  pub hostname : String
  pub is_absolute : Bool
  pub is_bare : Bool

-- A mail address: the name and the address proper.
pub record Address : Type 0 where
  pub name : String
  pub address : String

pub record Runtime : Type 1 where
  -- float64 and its operations
  pub Float : Type 0
  pub eq_float : Float → Float → Bool
  pub lt_float : Float → Float → Bool
  pub add : Float → Float → Float
  pub sub : Float → Float → Float
  pub mul : Float → Float → Float
  pub div : Float → Float → Float
  pub round : Float → Float
  pub trunc : Float → Float
  pub is_nan : Float → Bool
  pub is_inf : Float → Bool
  -- the literal `m / 10 ^ e`
  pub literal : ℕ → ℕ → Float
  pub float_of_int : ℤ → Float
  pub int_of_float : Float → ℤ
  -- `json.Number.Int64` and `json.Number.Float64`
  pub parse_int_64 : String → Option ℤ
  pub parse_float : String → Option Float
  -- `unicode.ToLower`
  pub lower : Char → Char
  -- `json.Unmarshal` into a `map[string]any`, `none` on an error and on null, whose nil map every
  -- caller turns into an error too
  pub unmarshal_object : String → Option (Fields Float)
  -- The hexadecimal digits of the SHA-256 prefix in `stableEventID`, from the kind, the time, the
  -- sequence number and the summary that `fmt.Sprintf` prints.
  pub event_digest : String → ℕ → ℤ → Fields Float → String
  -- `strconv.Itoa`, and `base64.RawURLEncoding.DecodeString`
  pub itoa : ℤ → String
  pub decode_base_64 : String → Option String
  -- `strings.ToUpper`, `sort.Strings`, the verbs `%q` and `%T` of fmt, and `fmt.Sprint`
  pub upper : String → String
  pub sort : List String → List String
  pub quote : String → String
  pub type_name : Any Float → String
  pub sprint : Any Float → String
  -- the text of the error of `strconv.ParseFloat`, `strconv.Atoi`, and `strconv.FormatFloat` with two
  -- decimals
  pub parse_float_error : String → String
  pub atoi : String → Option ℤ
  pub format_float : Float → String
  -- `Format` of a time by time.RFC3339
  pub format_time : ℕ → String
  -- `url.Parse`, `mail.ParseAddress`, and whether `net.ParseIP` reads a loopback address
  pub parse_url : String → Option Url
  pub parse_address : String → Option Address
  pub is_loopback_ip : String → Bool
