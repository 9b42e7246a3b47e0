-- ===== src/PolicyManager/Cib/Unfiltered.antt =====
-- Which nodes `cib_lookup` uses.
use neat.Base.{
  ◌≡◌, refl, ap, ap₂, sym, ◌∙◌, true, false, Bool-cases, inl, inr, List, [], ◌∷◌, ◌++◌, String,
  none, some, Option-cases,
}
use neat.PolicyManager.Merge.{Jansson, properties_key, merge_properties}
use neat.PolicyManager.Merge.Laws.{IsJansson}
use neat.PolicyManager.Pib.{subset, subset_keys}
use neat.PolicyManager.Cib.{
  has_immutable_precedence, immutable_from, node_candidate, candidates_from, cib_lookup,
}

module _ (J : Jansson) (laws : IsJansson J) where
  -- The properties of the nodes that have some: those of a node without properties, or whose
  -- properties are no object or an empty one, are left out.
  abbrev pub add_if_any : List String → J.Json → List J.Json → List J.Json
  add_if_any [] properties others = others
  add_if_any (key ∷ keys) properties others = properties ∷ others

  abbrev pub with_properties : List J.Json → List J.Json
  with_properties [] = []
  with_properties (node ∷ nodes) = elim (J.object_get node properties_key) [
    | none ↦ with_properties nodes
    | some properties ↦ add_if_any (J.keys properties) properties (with_properties nodes)
  ]

  abbrev pub overwrite_all : J.Json → List J.Json → List J.Json
  overwrite_all input_props [] = []
  overwrite_all input_props (properties ∷ rest) =
      merge_properties J properties input_props true ∷ overwrite_all input_props rest

  is_object-immutable_from :
      (input_props : J.Json) (keys : List String) (array : J.Json)
      → J.is_object array ≡ false
      → J.is_object (immutable_from J input_props keys array) ≡ false
  unfolding immutable_from
  is_object-immutable_from input_props [] array e = e
  is_object-immutable_from input_props (key ∷ keys) array e =
      elim (Option-cases (J.object_get input_props key)) [
        | inl n ↦ simp (n, immutable_from) (is_object-immutable_from input_props keys array e)
        | inr (property, n) ↦ elim (Bool-cases (has_immutable_precedence J property)) [
          | inl h ↦
              simp (n, h, immutable_from)
                (is_object-immutable_from input_props keys (J.array_append array property)
                  (laws.is_object-array_append array property ∙ e))
          | inr h ↦ simp (n, h, immutable_from) (is_object-immutable_from input_props keys array e)
        ]
      ]

  -- An array has no members.
  get_of_array :
      (array : J.Json) (key : String) → J.is_object array ≡ false → J.object_get array key ≡ none
  get_of_array array key e = elim (Option-cases (J.object_get array key)) [
    | inl n ↦ n
    | inr (v, n) ↦ absurd (let z = sym (laws.object_get-is_object array key v n) ∙ e in cc)
  ]

  subset_keys-array :
      (properties array : J.Json) (key : String) (keys : List String)
      → J.is_object array ≡ false
      → subset_keys J properties array (key ∷ keys) ≡ false
  unfolding subset_keys
  subset_keys-array properties array key keys e = simp (get_of_array array key e, subset_keys) refl

  -- Properties without a key are a subset of everything.
  subset-no_keys :
      (properties array : J.Json) → J.keys properties ≡ [] → subset J properties array ≡ true
  unfolding subset subset_keys
  subset-no_keys properties array e = ap (subset_keys J properties array) e

  subset-some_keys :
      (properties array : J.Json) (key : String) (keys : List String)
      → J.keys properties ≡ key ∷ keys
      → J.is_object array ≡ false
      → subset J properties array ≡ false
  unfolding subset
  subset-some_keys properties array key keys k e =
      ap (subset_keys J properties array) k ∙ subset_keys-array properties array key keys e

  node_candidate-properties :
      (empty input_props node properties : J.Json) (keys : List String)
      → J.is_object empty ≡ false
      → J.object_get node properties_key ≡ some properties
      → J.keys properties ≡ keys
      → node_candidate J empty input_props node
        ≡ overwrite_all input_props (add_if_any keys properties [])
  unfolding node_candidate
  node_candidate-properties empty input_props node properties [] e n k =
      simp
        (
          n,
          subset-no_keys properties (immutable_from J input_props (J.keys input_props) empty) k,
          node_candidate,
        )
        refl
  node_candidate-properties empty input_props node properties (key ∷ keys) e n k =
      simp
        (
          n,
          subset-some_keys properties (immutable_from J input_props (J.keys input_props) empty) key
              keys k (is_object-immutable_from input_props (J.keys input_props) empty e),
          node_candidate,
        )
        refl

  add_if_any-append :
      (input_props properties : J.Json) (keys : List String) (others : List J.Json)
      → overwrite_all input_props (add_if_any keys properties [])
          ++ overwrite_all input_props others
        ≡ overwrite_all input_props (add_if_any keys properties others)
  add_if_any-append input_props properties [] others = refl
  add_if_any-append input_props properties (key ∷ keys) others = refl

  candidates_from-with_properties :
      (empty input_props : J.Json) (nodes : List J.Json)
      → J.is_object empty ≡ false
      → candidates_from J empty input_props nodes
        ≡ overwrite_all input_props (with_properties nodes)
  unfolding candidates_from node_candidate
  candidates_from-with_properties empty input_props [] e = refl
  candidates_from-with_properties empty input_props (node ∷ nodes) e =
      elim (Option-cases (J.object_get node properties_key)) [
        | inl n ↦
            simp (n, candidates_from, node_candidate, with_properties)
              (candidates_from-with_properties empty input_props nodes e)
        | inr (properties, n) ↦
            ap₂ (λ xs ys. xs ++ ys)
              (node_candidate-properties empty input_props node properties (J.keys properties) e n
                refl)
              (candidates_from-with_properties empty input_props nodes e)
            ∙ add_if_any-append input_props properties (J.keys properties) (with_properties nodes)
            ∙ simp (n, with_properties) refl
      ]

  -- Besides the request itself, `cib_lookup` gives one candidate for each node that has
  -- properties with a key, the request with these properties written over its own, and no
  -- other, whichever properties of the request are immutable; Jansson behaves as documented.
  pub cib_lookup-with_properties :
      (empty input_props : J.Json) (nodes : List J.Json)
      → J.is_object empty ≡ false
      → cib_lookup J empty input_props nodes
        ≡ input_props ∷ overwrite_all input_props (with_properties nodes)
  unfolding cib_lookup
  cib_lookup-with_properties empty input_props nodes e =
      ap (λ cs. input_props ∷ cs) (candidates_from-with_properties empty input_props nodes e)
