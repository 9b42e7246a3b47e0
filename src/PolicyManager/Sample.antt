-- ===== src/PolicyManager/Sample.antt =====
-- A small JSON library that behaves as the documentation of Jansson says, for the examples.
use neat.Base.{
  same_string→≡, same_string_refl, String, same_string, ℕ, ◌<◌, ◌^◌, ◌≡◌, refl, ap, sym, subst, ◌∙◌,
  ℤ, pos, negsuc, Bool, true, false, Bool-cases, inl, inr, List, [], ◌∷◌, ◌++◌, Option, none, some,
  arith, length, if◌then◌else◌,
}
use neat.PolicyManager.Node.{int_place}
use neat.PolicyManager.Merge.{Jansson, int_at}
use neat.PolicyManager.Merge.Laws.{IsJansson}

pub data Json : Type 0 where
  null : Json
  boolean : Bool → Json
  integer : ℤ → Json
  string : String → Json
  empty_array empty_object : Json
  element : Json → Json → Json
  member : String → Json → Json → Json

abbrev pub is_object : Json → Bool
is_object empty_object = true
is_object (member k v j) = true
is_object _ = false

abbrev pub is_array : Json → Bool
is_array empty_array = true
is_array (element v j) = true
is_array _ = false

abbrev pub is_null : Json → Bool
is_null null = true
is_null _ = false

abbrev pub is_true : Json → Bool
is_true (boolean b) = b
is_true _ = false

-- The first member of a name counts.
abbrev pub object_get : Json → String → Option Json
object_get (member k v j) key = if same_string k key then some v else object_get j key
object_get _ key = none

abbrev pub object_set : Json → String → Json → Json
object_set j key v = if is_object j then member key v j else j

abbrev pub object_update : Json → Json → Json
object_update j (member k v i) = object_set (object_update j i) k v
object_update j _ = j

abbrev pub keys : Json → List String
keys (member k v j) = k ∷ keys j
keys _ = []

abbrev pub elements : Json → List Json
elements (element v j) = v ∷ elements j
elements _ = []

abbrev pub array_append : Json → Json → Json
array_append empty_array v = element v empty_array
array_append (element w j) v = element w (array_append j v)
array_append j v = j

abbrev pub integer_value : Json → ℤ
integer_value (integer z) = z
integer_value _ = pos 0

abbrev encode_int : ℤ → String
encode_int (pos n) = 0 ∷ n ∷ []
encode_int (negsuc n) = 1 ∷ n ∷ []

abbrev encode : Json → String
encode null = 0 ∷ []
encode (boolean b) = if b then 1 ∷ [] else 2 ∷ []
encode (integer z) = 3 ∷ encode_int z
encode (string s) = 4 ∷ length s ∷ s
encode empty_array = 5 ∷ []
encode empty_object = 6 ∷ []
encode (element v j) = 7 ∷ encode v ++ encode j
encode (member k v j) = 8 ∷ length k ∷ k ++ encode v ++ encode j

abbrev pub sample : Jansson
sample = record {
  Json = Json;
  object = empty_object;
  object_get = object_get;
  object_set = object_set;
  object_update = object_update;
  keys = keys;
  elements = elements;
  array_append = array_append;
  is_object = is_object;
  is_array = is_array;
  is_null = is_null;
  is_true = is_true;
  integer_value = integer_value;
  integer = integer;
  boolean = boolean;
  equal = λ a b. same_string (encode a) (encode b);
}

is_object-object_set :
    (j : Json) (k : String) (v : Json) → is_object (object_set j k v) ≡ is_object j
is_object-object_set j k v = elim (Bool-cases (is_object j)) [
  | inl e ↦ simp (e) refl
  | inr e ↦ simp (e) refl
]

is_object-object_update : (j i : Json) → is_object (object_update j i) ≡ is_object j
is_object-object_update j (member k v i) =
    is_object-object_set (object_update j i) k v ∙ is_object-object_update j i
is_object-object_update j null = refl
is_object-object_update j (boolean b) = refl
is_object-object_update j (integer z) = refl
is_object-object_update j (string s) = refl
is_object-object_update j empty_array = refl
is_object-object_update j empty_object = refl
is_object-object_update j (element v i) = refl

get-set_self :
    (j : Json) (k : String) (v : Json)
    → is_object j ≡ true
    → object_get (object_set j k v) k ≡ some v
get-set_self j k v o = simp (o, same_string_refl k) refl

get-set_other :
    (j : Json) (k l : String) (v : Json)
    → same_string k l ≡ false
    → object_get (object_set j k v) l ≡ object_get j l
get-set_other j k l v e = elim (Bool-cases (is_object j)) [
  | inl o ↦ simp (o, e) refl
  | inr o ↦ simp (o) refl
]

-- A member in front of those that an update sets.
get-update_member :
    (j i w : Json) (k l : String)
    → is_object j ≡ true
    → object_get (object_update j (member l w i)) k
      ≡ (if same_string l k then some w else object_get (object_update j i) k)
get-update_member j i w k l o = simp (is_object-object_update j i, o) refl

get-update_found :
    (j i : Json) (k : String) (v : Json)
    → is_object j ≡ true
    → object_get i k ≡ some v
    → object_get (object_update j i) k ≡ some v
get-update_found j (member l w i) k v o e = elim (Bool-cases (same_string l k)) [
  | inl s ↦
      get-update_member j i w k l o
      ∙ ap (λ b. if b then some w else object_get (object_update j i) k) s
      ∙ ap (λ b. if b then some w else object_get i k) (sym s)
      ∙ e
  | inr s ↦
      get-update_member j i w k l o
      ∙ ap (λ b. if b then some w else object_get (object_update j i) k) s
      ∙ get-update_found j i k v o (ap (λ b. if b then some w else object_get i k) (sym s) ∙ e)
]
get-update_found j null k v o e = absurd cc
get-update_found j (boolean b) k v o e = absurd cc
get-update_found j (integer z) k v o e = absurd cc
get-update_found j (string s) k v o e = absurd cc
get-update_found j empty_array k v o e = absurd cc
get-update_found j empty_object k v o e = absurd cc
get-update_found j (element w i) k v o e = absurd cc

get-update_missing :
    (j i : Json) (k : String)
    → object_get i k ≡ none
    → object_get (object_update j i) k ≡ object_get j k
get-update_missing j (member l w i) k e = elim (Bool-cases (same_string l k)) [
  | inl s ↦ absurd (let z = ap (λ b. if b then some w else object_get i k) (sym s) ∙ e in cc)
  | inr s ↦
      get-set_other (object_update j i) l k w s
      ∙ get-update_missing j i k (ap (λ b. if b then some w else object_get i k) (sym s) ∙ e)
]
get-update_missing j null k e = refl
get-update_missing j (boolean b) k e = refl
get-update_missing j (integer z) k e = refl
get-update_missing j (string s) k e = refl
get-update_missing j empty_array k e = refl
get-update_missing j empty_object k e = refl
get-update_missing j (element w i) k e = refl

object_get-is_object :
    (j : Json) (k : String) (v : Json) → object_get j k ≡ some v → is_object j ≡ true
object_get-is_object (member l w i) k v e = refl
object_get-is_object null k v e = absurd cc
object_get-is_object (boolean b) k v e = absurd cc
object_get-is_object (integer z) k v e = absurd cc
object_get-is_object (string s) k v e = absurd cc
object_get-is_object empty_array k v e = absurd cc
object_get-is_object empty_object k v e = absurd cc
object_get-is_object (element w i) k v e = absurd cc

is_object-array_append : (j v : Json) → is_object (array_append j v) ≡ is_object j
is_object-array_append null v = refl
is_object-array_append (boolean b) v = refl
is_object-array_append (integer z) v = refl
is_object-array_append (string s) v = refl
is_object-array_append empty_array v = refl
is_object-array_append empty_object v = refl
is_object-array_append (element w j) v = refl
is_object-array_append (member k w j) v = refl

int_place-int_at : (p : ℕ) → p < 2 ^ 32 → int_place (int_at p) ≡ p
int_place-int_at p h = ground arith

equal_trans :
    (u v w : String) → same_string u v ≡ true → same_string v w ≡ true → same_string u w ≡ true
equal_trans u v w e f = subst (λ x. same_string u x ≡ true) (same_string→≡ v w f) e

pub sample-IsJansson : IsJansson sample
sample-IsJansson = record {
  object_get-is_object = object_get-is_object;
  is_object-object_set = is_object-object_set;
  get-set_self = get-set_self;
  get-set_other = get-set_other;
  is_object-object_update = is_object-object_update;
  get-update_found = get-update_found;
  get-update_missing = get-update_missing;
  is_object-array_append = is_object-array_append;
  int_place-integer = int_place-int_at;
  equal_refl = λ v. same_string_refl (encode v);
  equal_trans = λ u v w. equal_trans (encode u) (encode v) (encode w);
}
