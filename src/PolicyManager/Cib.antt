-- ===== src/PolicyManager/Cib.antt =====
-- The lookup of the candidates in the list of the nodes of the CIB (policy_manager/cib.c).
pub mod Unfiltered
use neat.Base.{
  ℤ, pos, negsuc, Bool, true, false, List, [], ◌∷◌, ◌++◌, String, Option, none, some, if◌then◌else◌,
  ◌==◌,
}
use neat.PolicyManager.Merge.{Jansson, precedence_key, properties_key, merge_properties}
use neat.PolicyManager.Pib.{subset}

-- PRECEDENCE_IMMUTABLE, as an integer of Jansson.
abbrev pub is_immutable_precedence : ℤ → Bool
is_immutable_precedence (pos n) = n == 2
is_immutable_precedence (negsuc n) = false

module _ (J : Jansson) where
  -- `json_integer_value` of an attribute that may be missing.
  abbrev pub has_immutable_precedence : J.Json → Bool
  has_immutable_precedence property = elim (J.object_get property precedence_key) [
    | none ↦ false
    | some precedence ↦ is_immutable_precedence (J.integer_value precedence)
  ]

  -- The loop that fills `immutable_input_props`, over the keys of the request.
  unfoldable pub immutable_from : J.Json → List String → J.Json → J.Json
  immutable_from input_props [] array = array
  immutable_from input_props (key ∷ keys) array = elim (J.object_get input_props key) [
    | none ↦ immutable_from input_props keys array
    | some property ↦
        if has_immutable_precedence property
        then immutable_from input_props keys (J.array_append array property)
        else immutable_from input_props keys array
  ]

  -- The candidate that a node adds, if it has properties and is not passed over; `json_object_foreach`
  -- on NULL has no round, so that `subset` is true of it.
  unfoldable pub node_candidate : J.Json → J.Json → J.Json → List J.Json
  node_candidate empty input_props node = elim (J.object_get node properties_key) [
    | none ↦ []
    | some node_props ↦
        if subset J node_props (immutable_from input_props (J.keys input_props) empty)
        then []
        else merge_properties J node_props input_props true ∷ []
  ]

  unfoldable pub candidates_from : J.Json → J.Json → List J.Json → List J.Json
  candidates_from empty input_props [] = []
  candidates_from empty input_props (node ∷ nodes) =
      node_candidate empty input_props node ++ candidates_from empty input_props nodes

  -- `cib_lookup`, on the JSON of the nodes; `empty` is the empty array.
  unfoldable pub cib_lookup : J.Json → J.Json → List J.Json → List J.Json
  cib_lookup empty input_props nodes = input_props ∷ candidates_from empty input_props nodes
