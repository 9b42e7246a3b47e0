-- ===== src/PolicyManager/Expand/Examples.antt =====
-- Requests to run the expansion on.
use neat.Base.{same_string, Bool-cases, ◌≡◌, refl, [], ◌∷◌, inl, inr, some, arith, pos, String}
use neat.PolicyManager.Merge.{value_key}
use neat.PolicyManager.Sample.{Json, integer, empty_array, empty_object, element, member}
use neat.PolicyManager.Expand.{
  create_json_array, expand_property, first_array, expand_element_property, expand_all,
  expand_properties, expand_value, expand_first_value, expand_element_value, expand_all_values,
  expand_values,
}
use neat.PolicyManager.Expand.Picked.{NestedIn}
use neat.PolicyManager.Expand.Sample.{ordered, ordered-IsJansson, ordered-IsOrdered}
use neat.PolicyManager.Expand.Requests.{ExpandsTo, expand_properties-ExpandsTo}

abbrev numbers : Json
numbers = element (integer (pos 1)) (element (integer (pos 2)) empty_array)

abbrev property_of : Json → Json
property_of value = member value_key value empty_object

-- A request with two properties, the first of which is an array.
abbrev request : Json
request = member (1 ∷ []) numbers (member (2 ∷ []) (property_of (integer (pos 3))) empty_object)

nested : (l : String) → NestedIn ordered 1 (ordered.object_get request l)
nested l = elim (Bool-cases (same_string (1 ∷ []) l)) [
  | inl s ↦ simp s (inr (refl, tt, (refl, (refl, tt))))
  | inr s ↦ elim (Bool-cases (same_string (2 ∷ []) l)) [
    | inl t ↦ simp (s, t) (inl refl)
    | inr t ↦ simp (s, t) tt
  ]
]

expand_properties-ExpandsTo_example :
    ExpandsTo ordered (create_json_array ordered request) (expand_properties ordered 3 request)
unfolding create_json_array
expand_properties-ExpandsTo_example =
    expand_properties-ExpandsTo ordered ordered-IsJansson ordered-IsOrdered 3 1 request
      (nested, ground arith, tt)

-- Two requests come out, one for each element.
two_requests :
    expand_properties ordered 3 request
    ≡ some (
        member
          (1 ∷ [])
          (integer (pos 1))
          (member (2 ∷ []) (property_of (integer (pos 3))) empty_object)
        ∷ member
            (1 ∷ [])
            (integer (pos 2))
            (member (2 ∷ []) (property_of (integer (pos 3))) empty_object)
        ∷ [])
unfolding expand_properties expand_all create_json_array expand_element_property first_array
    expand_property same_string
two_requests = refl

-- Of two properties whose values are arrays only the first is expanded.
first_value_only :
    expand_values ordered
      (member (1 ∷ []) (property_of numbers) (member (2 ∷ []) (property_of numbers) empty_object))
    ≡ member
        (1 ∷ [])
        (property_of (integer (pos 1)))
        (member (2 ∷ []) (property_of numbers) empty_object)
      ∷ member
          (1 ∷ [])
          (property_of (integer (pos 2)))
          (member (2 ∷ []) (property_of numbers) empty_object)
      ∷ []
unfolding expand_values expand_all_values create_json_array expand_element_value expand_first_value
    expand_value same_string
first_value_only = refl
