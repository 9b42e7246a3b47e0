-- ===== src/PolicyManager/Expand.antt =====
-- The expansion of a request into one for each choice of its properties and values
-- (policy_manager/parse_json.c). The recursion over arrays in arrays runs on fuel; none is out of fuel.
pub mod Picked
pub mod Arrays
pub mod Requests
pub mod Sample
mod Examples
use neat.Base.{
  String, ℕ, zero, suc, Bool, true, false, ◌&&◌, List, [], ◌∷◌, ◌++◌, Option, none, some,
  if◌then◌else◌,
}
use neat.PolicyManager.Merge.{Jansson, value_key}

-- `append_json_arrays` of two results, if there are both.
abbrev pub append_results : {A : Type 0} → Option (List A) → Option (List A) → Option (List A)
append_results none second = none
append_results (some first) none = none
append_results (some first) (some second) = some (first ++ second)

-- An element without expansions is appended itself.
abbrev pub or_itself : {A : Type 0} → A → Option (List A) → Option (List A)
or_itself element none = none
or_itself element (some []) = some (element ∷ [])
or_itself element (some (e ∷ es)) = some (e ∷ es)

module _ (J : Jansson) where
  -- `create_json_array`, as the list of its elements.
  unfoldable pub create_json_array : J.Json → List J.Json
  create_json_array json = if J.is_array json then J.elements json else json ∷ []

  -- `expand_property`, by the function that expands an element; `property` lists the elements of the
  -- property.
  unfoldable pub expand_property :
      (J.Json → Option (List J.Json)) → J.Json → String → List J.Json → Option (List J.Json)
  expand_property expand element key [] = some []
  expand_property expand element key (value ∷ property) =
      append_results (expand (J.object_set element key value))
        (expand_property expand element key property)

  -- The first property that is an array.
  unfoldable pub first_array : J.Json → List String → Option (String × J.Json)
  first_array element [] = none
  first_array element (key ∷ keys) =
      let rest = first_array element keys in
      elim (J.object_get element key) [
        | none ↦ rest
        | some property ↦ if J.is_array property then some (key, property) else rest
      ]

  -- `expand_element_property`.
  unfoldable pub expand_element_property : ℕ → J.Json → Option (List J.Json)
  expand_element_property zero element = none
  expand_element_property (suc fuel) element =
      let expand = expand_element_property fuel in
      elim (first_array element (J.keys element)) [
        | none ↦ some (element ∷ [])
        | some (key, property) ↦
            or_itself element (expand_property expand element key (J.elements property))
      ]

  -- The loop of `expand_properties`: what is not an object is left out.
  unfoldable pub expand_all : ℕ → List J.Json → Option (List J.Json)
  expand_all fuel [] = some []
  expand_all fuel (element ∷ root) =
      let rest = expand_all fuel root in
      if J.is_object element
      then append_results (expand_element_property fuel element) rest
      else rest

  -- `expand_properties`.
  unfoldable pub expand_properties : ℕ → J.Json → Option (List J.Json)
  expand_properties fuel req = expand_all fuel (create_json_array req)

  -- The copy of `element` whose property `key` has the value `v`.
  abbrev pub with_value : J.Json → String → J.Json → J.Json → J.Json
  with_value element key property v = J.object_set element key (J.object_set property value_key v)

  -- `expand_value`, over the elements of the value. Each copy is handed to `append_json_arrays`.
  unfoldable pub expand_value : J.Json → J.Json → String → List J.Json → List J.Json
  expand_value element property key [] = []
  expand_value element property key (v ∷ value) =
      create_json_array (with_value element key property v)
      ++ expand_value element property key value

  -- The value of a property that is an object, if that is an array.
  abbrev pub value_array : Option J.Json → Option J.Json
  value_array none = none
  value_array (some property) =
      if J.is_object property
      then elim (J.object_get property value_key) [
        | none ↦ none
        | some value ↦ if J.is_array value then some value else none
      ]
      else none

  abbrev pub itself_if_none : J.Json → List J.Json → List J.Json
  itself_if_none element [] = element ∷ []
  itself_if_none element (e ∷ es) = e ∷ es

  -- The loop of `expand_element_value`, which stops at the first value that is an array.
  unfoldable pub expand_first_value : J.Json → List String → List J.Json
  expand_first_value element [] = []
  expand_first_value element (key ∷ keys) =
      let rest = expand_first_value element keys in
      elim (J.object_get element key) [
        | none ↦ rest
        | some property ↦ elim (value_array (some property)) [
          | none ↦ rest
          | some value ↦ expand_value element property key (J.elements value)
        ]
      ]

  -- `expand_element_value`.
  unfoldable pub expand_element_value : J.Json → List J.Json
  expand_element_value element =
      itself_if_none element (expand_first_value element (J.keys element))

  -- The loop of `expand_values`.
  unfoldable pub expand_all_values : List J.Json → List J.Json
  expand_all_values [] = []
  expand_all_values (element ∷ root) =
      let rest = expand_all_values root in
      if J.is_object element then expand_element_value element ++ rest else rest

  -- `expand_values`.
  unfoldable pub expand_values : J.Json → List J.Json
  expand_values req = expand_all_values (create_json_array req)
