-- ===== src/Config/Yaml.antt =====
-- internal/config/yaml.go. The nodes of a document are a list, and a node names another by its index
-- there, so that an alias can lead back to a node above it. A text is measured in bytes.
pub mod Termination
use cpa_quota_alert_plugin.Base.{
  ℕ, zero, suc, ltb, eqb, String, len, Bool, true, false, not, ◌&&◌, ◌||◌, Option, none, some, List,
  [], ◌∷◌, ◌==◌, if◌then◌else◌, Result, ok, err, ◌>>=◌, contains, any, is_blank, length,
}
use cpa_quota_alert_plugin.Runtime.{Runtime, Fields, end}
use cpa_quota_alert_plugin.Config.Parse.{Config, parse}

pub data YamlError : Type 0 where
  too_large syntax multiple_doc map_key duplicate : YamlError

pub data Kind : Type 0 where
  document_node sequence_node mapping_node scalar_node alias_node other_node : Kind

-- `alias` is `none` where the pointer is nil.
pub record Node : Type 0 where
  pub kind : Kind
  pub tag : String
  pub value : String
  pub content : List ℕ
  pub alias : Option ℕ

abbrev pub is_in : ℕ → List ℕ → Bool
is_in i l = any (λ j. eqb j i) l

abbrev pub node_at : List Node → ℕ → Option Node
node_at [] i = none
node_at (node ∷ more) zero = some node
node_at (node ∷ more) (suc i) = node_at more i

abbrev even : {A : Type 0} → List A → Bool
even [] = true
even (x ∷ []) = false
even (x ∷ y ∷ more) = even more

abbrev is_scalar : Kind → Bool
is_scalar scalar_node = true
is_scalar _ = false

-- A result of a run on fuel: `none` where the fuel does not last.
abbrev Run : Type 0
Run = Option (Result YamlError (Unit {0}))

abbrev then_run : Run → Run → Run
then_run (some (ok tt)) rest = rest
then_run (some (err e)) rest = some (err e)
then_run none rest = none

-- The loop over the children.
unfoldable pub each : (ℕ → Run) → List ℕ → Run
each validate [] = some (ok tt)
each validate (child ∷ more) = then_run (validate child) (each validate more)

-- The loop over the keys and values of a mapping, with the keys seen. An index without a node is as a
-- nil pointer, whose field no run reads; the decoder returns none.
unfoldable pub each_pair : List Node → (ℕ → Run) → List String → List ℕ → Run
each_pair nodes validate seen [] = some (ok tt)
each_pair nodes validate seen (i ∷ []) = some (err syntax)
each_pair nodes validate seen (i ∷ j ∷ more) = elim (node_at nodes i) [
  | none ↦ some (err map_key)
  | some key ↦
      let rest = each_pair nodes validate (key.value ∷ seen) more in
      if not (is_scalar key.kind) || not (key.tag == "!!str")
      then some (err map_key)
      else if contains seen key.value
      then some (err duplicate)
      else then_run (validate j) rest
]

-- The switch of `validateYAMLNode`, over the calls for other nodes.
unfoldable pub validate_kind : List Node → (ℕ → Run) → Node → Kind → Run
unfolding each each_pair
validate_kind nodes validate node document_node = each validate node.content
validate_kind nodes validate node sequence_node = each validate node.content
validate_kind nodes validate node mapping_node =
    if even node.content then each_pair nodes validate [] node.content else some (err syntax)
validate_kind nodes validate node alias_node = elim node.alias [
  | none ↦ some (ok tt)
  | some target ↦ validate target
]
validate_kind nodes validate node scalar_node = some (ok tt)
validate_kind nodes validate node other_node = some (err syntax)

-- `validateYAMLNode` with the nodes above, which the map holds; an index without a node is nil.
unfoldable pub validate_yaml_node : List Node → ℕ → List ℕ → ℕ → Run
unfolding validate_kind
validate_yaml_node nodes zero visiting i = none
validate_yaml_node nodes (suc fuel) visiting i =
    let inside = validate_yaml_node nodes fuel (i ∷ visiting) in
    elim (node_at nodes i) [
      | none ↦ some (ok tt)
      | some node ↦
          if is_in i visiting then some (err syntax) else validate_kind nodes inside node node.kind
    ]

-- What follows the first document of a stream.
pub data Extra : Type 0 where
  end_of_file another broken : Extra

abbrev only_document : Extra → Result YamlError (Unit {0})
only_document end_of_file = ok tt
only_document another = err multiple_doc
only_document broken = err syntax

abbrev max_yaml_bytes : ℕ
max_yaml_bytes = 1048576

module _ (rt : Runtime) where
  open rt use {Float}

  -- The decoder of gopkg.in/yaml.v3: the nodes of the first document with the index of the root, what
  -- follows it, and its values, `none` within them for null.
  pub record Decoder : Type 0 where
    pub document : String → Option (List Node × ℕ)
    pub extra : String → Extra
    pub decode : String → Option (Option (Fields Float))

  -- A nil map is one without entries.
  fields_of : Option (Option (Fields Float)) → Result YamlError (Fields Float)
  fields_of none = err syntax
  fields_of (some none) = ok end
  fields_of (some (some fields)) = ok fields

  -- `DecodeYAML`, where the nodes are validated with one unit of fuel more than there are nodes.
  unfoldable pub decode_yaml : Decoder → String → Option (Result YamlError (Fields Float))
  unfolding validate_yaml_node fields_of
  decode_yaml decoder source =
      if ltb max_yaml_bytes (len source)
      then some (err too_large)
      else if is_blank source
      then some (ok end)
      else elim (decoder.document source) [
        | none ↦ some (err syntax)
        | some (nodes, root) ↦ elim (validate_yaml_node nodes (suc (length nodes)) [] root) [
          | none ↦ none
          | some validated ↦ some (
              validated >>= λ _.
              only_document (decoder.extra source) >>= λ _. fields_of (decoder.decode source))
        ]
      ]

  -- An error of `ParseYAML`.
  pub data LoadError : Type 0 where
    of_yaml : YamlError → LoadError
    of_parse : String → LoadError

  of_parsed : Result String (Config rt) → Result LoadError (Config rt)
  of_parsed (err message) = err (of_parse message)
  of_parsed (ok cfg) = ok cfg

  unfoldable pub parse_yaml :
      Decoder → String → (String → String) → Option (Result LoadError (Config rt))
  unfolding decode_yaml parse of_parsed
  parse_yaml decoder source getenv = elim (decode_yaml decoder source) [
    | none ↦ none
    | some (err e) ↦ some (err (of_yaml e))
    | some (ok raw) ↦ some (of_parsed (parse rt raw getenv))
  ]
