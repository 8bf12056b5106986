-- ===== src/Config/Yaml/Termination.antt =====
-- The validation of a document's nodes ends, also where aliases lead back.
use cpa_quota_alert_plugin.Base.{
  ℕ, zero, suc, ◌<◌, ltb, String, Bool, true, false, Option, none, some, List, [], ◌∷◌, ◌≡◌,
  if◌then◌else◌, ok, err, arith, refl, length, Option-cases, Bool-cases, inl, inr,
}
use cpa_quota_alert_plugin.Runtime.{Runtime}
use cpa_quota_alert_plugin.Config.Yaml.{
  Node, Kind, document_node, sequence_node, mapping_node, scalar_node, alias_node, other_node, Run,
  then_run, is_in, node_at, each, each_pair, validate_kind, validate_yaml_node, Decoder,
  decode_yaml,
}

abbrev pub is_some {ℓ} : {A : Type ℓ} → Option A → Bool
is_some none = false
is_some (some _) = true

-- How many of the first indices are not in the list.
abbrev unvisited : ℕ → List ℕ → ℕ
unvisited zero visiting = 0
unvisited (suc n) visiting =
    let rest = unvisited n visiting in if is_in n visiting then rest else suc rest

unvisited_all : (n : ℕ) → unvisited n [] ≡ n
unvisited_all zero = refl
unvisited_all (suc n) = omega (arith, unvisited_all n)

unvisited_mark :
    (n i : ℕ) (visiting : List ℕ)
    → is_in i visiting ≡ false
    → unvisited n visiting
      ≡ (if ltb i n then suc (unvisited n (i ∷ visiting)) else unvisited n (i ∷ visiting))
unvisited_mark zero i visiting h = ground arith
unvisited_mark (suc n) i visiting h = ground (arith, unvisited_mark n i visiting h)

node_at_bound :
    (nodes : List Node) (i : ℕ) (node : Node) → node_at nodes i ≡ some node → i < length nodes
node_at_bound [] i node h = absurd (ground arith)
node_at_bound (n ∷ nodes) zero node h = omega arith
node_at_bound (n ∷ nodes) (suc i) node h = omega (arith, node_at_bound nodes i node h)

then_run_total :
    (first rest : Run)
    → is_some first ≡ true
    → is_some rest ≡ true
    → is_some (then_run first rest) ≡ true
then_run_total none rest h k = absurd (ground arith)
then_run_total (some (ok tt)) rest h k = k
then_run_total (some (err e)) rest h k = refl

each_total :
    (validate : ℕ → Run) (l : List ℕ)
    → ((j : ℕ) → is_some (validate j) ≡ true)
    → is_some (each validate l) ≡ true
unfolding each
each_total validate [] h = refl
each_total validate (j ∷ l) h =
    then_run_total (validate j) (each validate l) (h j) (each_total validate l h)

each_pair_total :
    (nodes : List Node) (validate : ℕ → Run) (seen : List String) (l : List ℕ)
    → ((j : ℕ) → is_some (validate j) ≡ true)
    → is_some (each_pair nodes validate seen l) ≡ true
unfolding each_pair
each_pair_total nodes validate seen [] h = refl
each_pair_total nodes validate seen (i ∷ []) h = refl
each_pair_total nodes validate seen (i ∷ j ∷ l) h = elim (Option-cases (node_at nodes i)) [
  | inl missing ↦ ground arith
  | inr (key, found) ↦
      let rest = each_pair nodes validate (key.value ∷ seen) l in
      ground (
        arith,
        then_run_total (validate j) rest (h j)
            (each_pair_total nodes validate (key.value ∷ seen) l h),
      )
]

validate_kind_total :
    (nodes : List Node) (validate : ℕ → Run) (node : Node) (kind : Kind)
    → ((j : ℕ) → is_some (validate j) ≡ true)
    → is_some (validate_kind nodes validate node kind) ≡ true
unfolding validate_kind
validate_kind_total nodes validate node document_node h = each_total validate node.content h
validate_kind_total nodes validate node sequence_node h = each_total validate node.content h
validate_kind_total nodes validate node mapping_node h =
    ground (arith, each_pair_total nodes validate [] node.content h)
validate_kind_total nodes validate node alias_node h = elim (Option-cases node.alias) [
  | inl missing ↦ ground arith
  | inr (target, found) ↦ ground (arith, h target)
]
validate_kind_total nodes validate node scalar_node h = refl
validate_kind_total nodes validate node other_node h = refl

-- The run of the validation ends where there is more fuel than nodes that are not visited.
validate_yaml_node_total :
    (nodes : List Node) (fuel : ℕ) (visiting : List ℕ) (i : ℕ)
    → unvisited (length nodes) visiting < fuel
    → is_some (validate_yaml_node nodes fuel visiting i) ≡ true
unfolding validate_yaml_node
validate_yaml_node_total nodes zero visiting i enough = absurd (omega arith)
validate_yaml_node_total nodes (suc fuel) visiting i enough =
    elim (Option-cases (node_at nodes i)) [
      | inl missing ↦ ground arith
      | inr (node, found) ↦ elim (Bool-cases (is_in i visiting)) [
        | inl cyclic ↦ ground arith
        | inr new ↦
            let inside = validate_yaml_node nodes fuel (i ∷ visiting) in
            let left : unvisited (length nodes) (i ∷ visiting) < fuel = ground (
              arith,
              unvisited_mark (length nodes) i visiting new,
              node_at_bound nodes i node found,
            ) in
            ground (
              arith,
              validate_kind_total nodes inside node node.kind
                  (λ j. validate_yaml_node_total nodes fuel (i ∷ visiting) j left),
            )
      ]
    ]

module _ (rt : Runtime) where
  -- Whatever nodes the decoder gives, with whatever cycles, the decoding of a document ends.
  pub decode_yaml_total :
      (decoder : Decoder rt) (source : String) → is_some (decode_yaml rt decoder source) ≡ true
  unfolding decode_yaml
  decode_yaml_total decoder source = elim (Option-cases (decoder.document source)) [
    | inl bad ↦ ground arith
    | inr ((nodes, root), found) ↦ ground (
      arith,
      unvisited_all (length nodes),
      validate_yaml_node_total nodes (suc (length nodes)) [] root
          (omega (arith, unvisited_all (length nodes))),
    )
  ]
