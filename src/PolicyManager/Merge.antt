-- ===== src/PolicyManager/Merge.antt =====
-- The merge of properties of policy_manager/parse_json.c. Jansson is a parameter; its values are
-- values, since the lookups work on deep copies.
pub mod Laws
pub mod Kept
pub mod Reverse
use neat.Base.{
  String, ℕ, ◌+◌, ◌-◌, ◌%◌, ◌^◌, ℤ, pos, negsuc, Bool, true, false, not, ◌&&◌, ◌||◌, List, [], ◌∷◌,
  ◌++◌, map, Option, none, some, ltb, leb, ◌==◌, if◌then◌else◌,
}
use neat.PolicyManager.Node.{int_place}

-- The part of Jansson that the two files call; `none` is NULL. `elements` are those of an array, and
-- none otherwise.
pub record Jansson : Type 1 where
  pub Json : Type 0
  pub object : Json
  pub object_get : Json → String → Option Json
  pub object_set : Json → String → Json → Json
  pub object_update : Json → Json → Json
  pub keys : Json → List String
  pub elements : Json → List Json
  pub array_append : Json → Json → Json
  pub is_object : Json → Bool
  pub is_array : Json → Bool
  pub is_null : Json → Bool
  pub is_true : Json → Bool
  pub integer_value : Json → ℤ
  pub integer : ℤ → Json
  pub boolean : Bool → Json
  pub equal : Json → Json → Bool

-- The names of attributes.
abbrev pub value_key : String
value_key = 118 ∷ 97 ∷ 108 ∷ 117 ∷ 101 ∷ []

abbrev pub score_key : String
score_key = 115 ∷ 99 ∷ 111 ∷ 114 ∷ 101 ∷ []

abbrev pub evaluated_key : String
evaluated_key = 101 ∷ 118 ∷ 97 ∷ 108 ∷ 117 ∷ 97 ∷ 116 ∷ 101 ∷ 100 ∷ []

abbrev pub precedence_key : String
precedence_key = 112 ∷ 114 ∷ 101 ∷ 99 ∷ 101 ∷ 100 ∷ 101 ∷ 110 ∷ 99 ∷ 101 ∷ []

abbrev pub match_key : String
match_key = 109 ∷ 97 ∷ 116 ∷ 99 ∷ 104 ∷ []

abbrev pub properties_key : String
properties_key = 112 ∷ 114 ∷ 111 ∷ 112 ∷ 101 ∷ 114 ∷ 116 ∷ 105 ∷ 101 ∷ 115 ∷ []

abbrev pub replace_matched_key : String
replace_matched_key =
    114 ∷ 101 ∷ 112 ∷ 108 ∷ 97 ∷ 99 ∷ 101 ∷ 95 ∷ 109 ∷ 97 ∷ 116 ∷ 99 ∷ 104 ∷ 101 ∷ 100 ∷ []

-- An `int` is given by its place in the order of the ints: 0 has the place 2 ^ 31.
abbrev pub int_at : ℕ → ℤ
int_at place = if leb (2 ^ 31) place then pos (place - 2 ^ 31) else negsuc (2 ^ 31 - (place + 1))

abbrev pub int_add : ℕ → ℕ → ℕ
int_add p q = (p + q + 2 ^ 31) % 2 ^ 32

abbrev pub zero_place : ℕ
zero_place = 2 ^ 31

-- PRECEDENCE_BASE and PRECEDENCE_IMMUTABLE.
abbrev pub base : ℕ
base = 2 ^ 31

abbrev pub immutable : ℕ
immutable = 2 ^ 31 + 2

abbrev pub larger : ℕ → ℕ → ℕ
larger a b = if ltb b a then a else b

module _ (J : Jansson) where
  -- An integer attribute, with 0 if it is missing.
  abbrev pub int_of : Option J.Json → ℕ
  int_of none = zero_place
  int_of (some v) = int_place (J.integer_value v)

  abbrev pub int_field : J.Json → String → ℕ
  int_field j key = int_of (J.object_get j key)

  -- `json_object_set` with a value that may be NULL, which is refused.
  abbrev pub set_if : J.Json → String → Option J.Json → J.Json
  set_if j key none = j
  set_if j key (some v) = J.object_set j key v

  -- No value, or an equal one.
  abbrev pub matches : Option J.Json → J.Json → Bool
  matches none b = true
  matches (some a) b = J.equal a b

  -- The branch of equal values.
  abbrev pub add_scores : J.Json → J.Json → J.Json
  add_scores a b =
      let scored =
        J.object_set a score_key
          (J.integer (int_at (int_add (int_field a score_key) (int_field b score_key)))) in
      J.object_set scored precedence_key
        (J.integer (int_at (larger (int_field scored precedence_key) (int_field b precedence_key))))

  -- The branch of different values. The score is set in the value of a, which a then loses.
  abbrev pub take_value : J.Json → J.Json → J.Json → J.Json
  take_value a b value_b =
      if (int_field a precedence_key == immutable) && (int_field b precedence_key == immutable)
      then a
      else if leb (int_field a precedence_key) (int_field b precedence_key)
      then set_if (J.object_set a value_key value_b) precedence_key (J.object_get b precedence_key)
      else a

  -- `merge_do_update_property`: what becomes of the first property.
  unfoldable pub merge_do_update_property : J.Json → J.Json → Bool → J.Json
  merge_do_update_property prop_a prop_b evaluated =
      let a = J.object_set prop_a evaluated_key (J.boolean evaluated) in
      elim (J.object_get prop_b value_key) [
        | none ↦ a
        | some value_b ↦
            if matches (J.object_get a value_key) value_b
            then add_scores a prop_b
            else take_value a prop_b value_b
      ]

  -- `merge_update_property`.
  unfoldable pub merge_update_property : J.Json → J.Json → J.Json
  merge_update_property prop_a prop_b = elim (J.object_get prop_b precedence_key) [
    | none ↦ prop_a
    | some precedence ↦
        if int_place (J.integer_value precedence) == base
        then J.object_update prop_a (merge_do_update_property prop_b prop_a false)
        else merge_do_update_property prop_a prop_b true
  ]

  -- One round of the loop of `merge_properties`.
  unfoldable pub merge_property : J.Json → Bool → String → J.Json → J.Json
  merge_property b overwrite key value = elim (J.object_get b key) [
    | none ↦ J.object_set b key value
    | some found ↦
        if overwrite
        then J.object_set b key value
        else J.object_set b key (merge_update_property found value)
  ]

  -- The loop over the keys of the first argument.
  unfoldable pub merge_keys : J.Json → J.Json → Bool → List String → J.Json
  merge_keys a b overwrite [] = b
  merge_keys a b overwrite (key ∷ keys) = elim (J.object_get a key) [
    | none ↦ merge_keys a b overwrite keys
    | some value ↦ merge_keys a (merge_property b overwrite key value) overwrite keys
  ]

  -- `merge_properties`: what becomes of the second argument.
  unfoldable pub merge_properties : J.Json → J.Json → Bool → J.Json
  merge_properties a b overwrite = merge_keys a b overwrite (J.keys a)
