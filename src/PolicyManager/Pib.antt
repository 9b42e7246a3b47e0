-- ===== src/PolicyManager/Pib.antt =====
-- The lookup of the candidates in a list of policies (policy_manager/pib.c), with the comparison and
-- the expansion of properties that it uses (policy_manager/parse_json.c).
pub mod Lookup
use neat.Base.{
  String, ℕ, ◌+◌, ◌-◌, ◌%◌, ◌^◌, ℤ, pos, negsuc, Bool, true, false, not, ◌&&◌, ◌||◌, List, [], ◌∷◌,
  ◌++◌, map, Option, none, some, ltb, leb, ◌==◌, if◌then◌else◌,
}
use neat.PolicyManager.Merge.{
  Jansson, value_key, match_key, properties_key, replace_matched_key, merge_properties,
}

module _ (J : Jansson) where
  -- `json_equal`, which is false for NULL.
  abbrev pub equal_values : Option J.Json → Option J.Json → Bool
  equal_values (some a) (some b) = J.equal a b
  equal_values _ _ = false

  abbrev pub value_of : Option J.Json → Option J.Json
  value_of none = none
  value_of (some property) = J.object_get property value_key

  -- `subset`, over the keys of the first argument.
  unfoldable pub subset_keys : J.Json → J.Json → List String → Bool
  subset_keys a b [] = true
  subset_keys a b (key ∷ keys) = elim (J.object_get b key) [
    | none ↦ false
    | some property ↦
        equal_values (value_of (J.object_get a key)) (J.object_get property value_key)
        && subset_keys a b keys
  ]

  unfoldable pub subset : J.Json → J.Json → Bool
  subset a b = subset_keys a b (J.keys a)

  abbrev pub append_all : J.Json → List J.Json → J.Json
  append_all j [] = j
  append_all j (v ∷ vs) = append_all (J.array_append j v) vs

  -- `append_value`: what becomes of the first argument.
  unfoldable pub append_value : J.Json → J.Json → J.Json
  append_value j new_value =
      if J.is_array new_value
      then append_all j (J.elements new_value)
      else if J.is_object new_value
      then J.object_update j new_value
      else j

  abbrev pub concat : {A : Type 0} → List (List A) → List A
  concat [] = []
  concat (l ∷ ls) = l ++ concat ls

  -- The body of the loop of `expand_json_arrays`, and the loop; the result starts with an empty array.
  abbrev pub combine : List J.Json → J.Json → List J.Json
  combine result choices = concat (
      map (λ choice. map (λ done. append_value (append_value J.object done) choice) result)
        (J.elements choices))

  unfoldable pub expand_from : List J.Json → List J.Json → List J.Json
  expand_from result [] = result
  expand_from result (choices ∷ rest) = expand_from (combine result choices) rest

  abbrev pub starts_with_array : List J.Json → Bool
  starts_with_array [] = false
  starts_with_array (j ∷ js) = J.is_array j

  -- `expand_json`, with `expand_json_arrays`; `empty` is the empty array.
  unfoldable pub expand_json : J.Json → Option J.Json → List J.Json
  expand_json empty none = []
  expand_json empty (some properties) =
      if J.is_null properties
      then []
      else if J.is_object properties
      then properties ∷ []
      else if J.is_array properties
      then (if starts_with_array (J.elements properties)
          then expand_from (empty ∷ []) (J.elements properties)
          else J.elements properties)
      else []

  -- `replace_matched`.
  unfoldable pub replace_matched : J.Json → Bool
  replace_matched policy = elim (J.object_get policy replace_matched_key) [
    | none ↦ false
    | some replace ↦ J.is_true replace
  ]

  abbrev pub matched : Option J.Json → J.Json → Bool
  matched none candidate = true
  matched (some policy_match) candidate = subset policy_match candidate

  -- The candidates that one policy makes of one.
  unfoldable pub apply_policy : J.Json → J.Json → J.Json → List J.Json
  apply_policy empty policy candidate =
      if matched (J.object_get policy match_key) candidate
      then map (λ expanded. merge_properties J expanded candidate (replace_matched policy))
          (expand_json empty (J.object_get policy properties_key))
      else candidate ∷ []

  -- `pib_lookup`, on the JSON of the nodes; the loop starts from one candidate.
  unfoldable pub lookup_from : J.Json → List J.Json → List J.Json → List J.Json
  lookup_from empty [] candidates = candidates
  lookup_from empty (policy ∷ policies) candidates =
      lookup_from empty policies (concat (map (apply_policy empty policy) candidates))

  unfoldable pub pib_lookup : J.Json → List J.Json → J.Json → List J.Json
  pib_lookup empty policies input_props = lookup_from empty policies (input_props ∷ [])
