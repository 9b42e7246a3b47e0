-- ===== src/PolicyManager/Expand/Sample.antt =====
-- The JSON library of the examples with objects that keep the order of their keys, as those of Jansson.
use mathlib.Core.List.{Memᴰ}
use neat.Base.{
  same_string→≡, same_string_refl, String, same_string, ◌≡◌, refl, ap, sym, ◌∙◌, true, false,
  Bool-cases, inl, inr, ◌∷◌, some, if◌then◌else◌,
}
use neat.PolicyManager.Merge.{Jansson}
use neat.PolicyManager.Merge.Laws.{IsJansson}
use neat.PolicyManager.Sample.{
  Json, null, boolean, integer, string, empty_array, empty_object, element, member, sample,
  sample-IsJansson,
}
use neat.PolicyManager.Expand.Picked.{IsOrdered}

-- A member that is there takes the value, and another one comes last.
abbrev pub insert : Json → String → Json → Json
insert (member l w j) k v = if same_string l k then member l v j else member l w (insert j k v)
insert j k v = member k v j

abbrev pub put : Json → String → Json → Json
put j k v = if sample.is_object j then insert j k v else j

abbrev pub ordered : Jansson
ordered = record sample { object_set = put }

is_object-insert : (j : Json) (k : String) (v : Json) → sample.is_object (insert j k v) ≡ true
is_object-insert (member l w j) k v = elim (Bool-cases (same_string l k)) [
  | inl s ↦ simp s refl
  | inr s ↦ simp s refl
]
is_object-insert empty_object k v = refl
is_object-insert null k v = refl
is_object-insert (boolean b) k v = refl
is_object-insert (integer z) k v = refl
is_object-insert (string s) k v = refl
is_object-insert empty_array k v = refl
is_object-insert (element w j) k v = refl

is_object-put :
    (j : Json) (k : String) (v : Json) → sample.is_object (put j k v) ≡ sample.is_object j
is_object-put j k v = elim (Bool-cases (sample.is_object j)) [
  | inl o ↦ simp (o, is_object-insert j k v) refl
  | inr o ↦ simp o refl
]

get-insert_self : (j : Json) (k : String) (v : Json) → sample.object_get (insert j k v) k ≡ some v
get-insert_self (member l w j) k v = elim (Bool-cases (same_string l k)) [
  | inl s ↦ simp s refl
  | inr s ↦ simp s (get-insert_self j k v)
]
get-insert_self empty_object k v = simp (same_string_refl k) refl
get-insert_self null k v = simp (same_string_refl k) refl
get-insert_self (boolean b) k v = simp (same_string_refl k) refl
get-insert_self (integer z) k v = simp (same_string_refl k) refl
get-insert_self (string s) k v = simp (same_string_refl k) refl
get-insert_self empty_array k v = simp (same_string_refl k) refl
get-insert_self (element w j) k v = simp (same_string_refl k) refl

get-put_self :
    (j : Json) (k : String) (v : Json)
    → sample.is_object j ≡ true
    → sample.object_get (put j k v) k ≡ some v
get-put_self j k v o = simp o (get-insert_self j k v)

get-insert_other :
    (j : Json) (k l : String) (v : Json)
    → same_string k l ≡ false
    → sample.object_get (insert j k v) l ≡ sample.object_get j l
get-insert_other (member m w j) k l v e =
    let i = get-insert_other j k l v e in
    elim (Bool-cases (same_string m k)) [
      | inl s ↦ rw (same_string→≡ m k s) (simp (same_string_refl k, e) refl)
      | inr s ↦ simp s (ap (λ x. if same_string m l then some w else x) i)
    ]
get-insert_other empty_object k l v e = simp e refl
get-insert_other null k l v e = simp e refl
get-insert_other (boolean b) k l v e = simp e refl
get-insert_other (integer z) k l v e = simp e refl
get-insert_other (string s) k l v e = simp e refl
get-insert_other empty_array k l v e = simp e refl
get-insert_other (element w j) k l v e = simp e refl

get-put_other :
    (j : Json) (k l : String) (v : Json)
    → same_string k l ≡ false
    → sample.object_get (put j k v) l ≡ sample.object_get j l
get-put_other j k l v e = elim (Bool-cases (sample.is_object j)) [
  | inl o ↦ simp o (get-insert_other j k l v e)
  | inr o ↦ simp o refl
]

pub ordered-IsJansson : IsJansson ordered
ordered-IsJansson = record {
  object_get-is_object = sample-IsJansson.object_get-is_object;
  is_object-object_set = is_object-put;
  get-set_self = get-put_self;
  get-set_other = get-put_other;
  is_object-object_update = sample-IsJansson.is_object-object_update;
  get-update_found = sample-IsJansson.get-update_found;
  get-update_missing = sample-IsJansson.get-update_missing;
  is_object-array_append = sample-IsJansson.is_object-array_append;
  int_place-integer = sample-IsJansson.int_place-integer;
  equal_refl = sample-IsJansson.equal_refl;
  equal_trans = sample-IsJansson.equal_trans;
}

keys-insert :
    (j : Json) (k : String) (v w : Json)
    → sample.object_get j k ≡ some w
    → sample.keys (insert j k v) ≡ sample.keys j
keys-insert (member l u j) k v w e = elim (Bool-cases (same_string l k)) [
  | inl s ↦ simp s refl
  | inr s ↦ simp s (
      ap (λ x. l ∷ x)
        (keys-insert j k v w (ap (λ b. if b then some u else sample.object_get j k) (sym s) ∙ e)))
]
keys-insert empty_object k v w e = absurd cc
keys-insert null k v w e = absurd cc
keys-insert (boolean b) k v w e = absurd cc
keys-insert (integer z) k v w e = absurd cc
keys-insert (string s) k v w e = absurd cc
keys-insert empty_array k v w e = absurd cc
keys-insert (element u j) k v w e = absurd cc

keys-put :
    (j : Json) (k : String) (v w : Json)
    → sample.object_get j k ≡ some w
    → sample.keys (put j k v) ≡ sample.keys j
keys-put j k v w e = elim (Bool-cases (sample.is_object j)) [
  | inl o ↦ simp o (keys-insert j k v w e)
  | inr o ↦ simp o refl
]

get-keys :
    (j : Json) (k : String) (v : Json) → sample.object_get j k ≡ some v → Memᴰ k (sample.keys j)
get-keys (member l u j) k v e = elim (Bool-cases (same_string l k)) [
  | inl s ↦ Memᴰ.head (sym (same_string→≡ l k s))
  | inr s ↦
      Memᴰ.tail (get-keys j k v (ap (λ b. if b then some u else sample.object_get j k) (sym s) ∙ e))
]
get-keys empty_object k v e = absurd cc
get-keys null k v e = absurd cc
get-keys (boolean b) k v e = absurd cc
get-keys (integer z) k v e = absurd cc
get-keys (string s) k v e = absurd cc
get-keys empty_array k v e = absurd cc
get-keys (element u j) k v e = absurd cc

pub ordered-IsOrdered : IsOrdered ordered
ordered-IsOrdered = record { keys-object_set = keys-put; get-keys = get-keys }
