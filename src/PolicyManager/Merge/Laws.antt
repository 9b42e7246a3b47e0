-- ===== src/PolicyManager/Merge/Laws.antt =====
-- What the merge of properties relies on in Jansson.
use neat.Base.{String, same_string, ℕ, ◌<◌, ◌^◌, ◌≡◌, true, false, none, some}
use neat.PolicyManager.Node.{int_place}
use neat.PolicyManager.Merge.{Jansson, int_at}

-- What the documentation of Jansson says of the functions that a merge calls.
pub record IsJansson (J : Jansson) : Type 0 where
  pub object_get-is_object :
      (j : J.Json) (k : String) (v : J.Json) → J.object_get j k ≡ some v → J.is_object j ≡ true
  pub is_object-object_set :
      (j : J.Json) (k : String) (v : J.Json) → J.is_object (J.object_set j k v) ≡ J.is_object j
  pub get-set_self :
      (j : J.Json) (k : String) (v : J.Json)
      → J.is_object j ≡ true
      → J.object_get (J.object_set j k v) k ≡ some v
  pub get-set_other :
      (j : J.Json) (k l : String) (v : J.Json)
      → same_string k l ≡ false
      → J.object_get (J.object_set j k v) l ≡ J.object_get j l
  pub is_object-object_update : (j i : J.Json) → J.is_object (J.object_update j i) ≡ J.is_object j
  pub get-update_found :
      (j i : J.Json) (k : String) (v : J.Json)
      → J.is_object j ≡ true
      → J.object_get i k ≡ some v
      → J.object_get (J.object_update j i) k ≡ some v
  pub get-update_missing :
      (j i : J.Json) (k : String)
      → J.object_get i k ≡ none
      → J.object_get (J.object_update j i) k ≡ J.object_get j k
  pub is_object-array_append : (j v : J.Json) → J.is_object (J.array_append j v) ≡ J.is_object j
  pub int_place-integer :
      (p : ℕ) → p < 2 ^ 32 → int_place (J.integer_value (J.integer (int_at p))) ≡ p
  pub equal_refl : (v : J.Json) → J.equal v v ≡ true
  pub equal_trans : (u v w : J.Json) → J.equal u v ≡ true → J.equal v w ≡ true → J.equal u w ≡ true
