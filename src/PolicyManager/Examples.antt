-- ===== src/PolicyManager/Examples.antt =====
-- Policy files, policies and candidates to run the functions of the policy manager on.
use neat.Base.{
  List, String, same_string, ℕ, ◌≡◌, refl, pos, if◌then◌else◌, Bool, true, [], ◌∷◌, some, none,
  arith, ◌++◌, length, leb,
}
use neat.PolicyManager.Node.{Jansson, Node, Files, has_node, add_node, read_modified_files}
use neat.PolicyManager.Node.Order.{Sorted, count, add_node-Sorted}
use neat.PolicyManager.Node.Names.{Unique, read_modified_files-Unique}
use neat.PolicyManager.Sample.{
  Json, sample, sample-IsJansson, member, element, empty_object, empty_array, string, integer,
}
use neat.PolicyManager.Merge.{value_key, score_key, zero_place, precedence_key, properties_key}
use neat.PolicyManager.Pib.{replace_matched, expand_json}
use neat.PolicyManager.Pib.Lookup.{AllKeep}
use neat.PolicyManager.Ranking.{
  add_score, score_sum_from, property_score_sum, compare_scores, cmp_score, best_candidates,
}
use neat.PolicyManager.Ranking.Best.{Ranks, Between, best_candidates-Best}
use neat.PolicyManager.Collect.{Repository, collect}
use neat.PolicyManager.Collect.Keeps.{collect-AllKeep}
use neat.PolicyManager.Cib.{cib_lookup}
use neat.PolicyManager.Cib.Unfiltered.{overwrite_all, with_properties, cib_lookup-with_properties}

-- A JSON value that is an object with a priority alone.
abbrev priorities : Jansson
priorities = record {
  Json = ℕ;
  object_get = λ json key. json;
  integer_value = λ json. elim json [ none ↦ pos 0 | some n ↦ pos n ];
  string_value = λ json. none;
}

abbrev node : ℕ → ℕ → Node priorities
node name priority = record { filename = name ∷ []; last_updated = 0; json = some priority }

-- Every file holds priority 2, and file 7 cannot be read.
abbrev two_files : Files priorities
two_files = record {
  load_json_file = λ name. if same_string name (7 ∷ []) then none else some 2;
  file_edit_time = λ name. 1;
  now = 3;
}

add_node-Sorted_example :
    Sorted priorities (add_node priorities (node 1 1 ∷ node 2 2 ∷ []) (some (node 3 1)))
    × ((test : Node priorities → Bool)
        → count priorities test (add_node priorities (node 1 1 ∷ node 2 2 ∷ []) (some (node 3 1)))
          ≡ count priorities test (node 3 1 ∷ node 1 1 ∷ node 2 2 ∷ []))
add_node-Sorted_example =
    add_node-Sorted priorities (node 1 1 ∷ node 2 2 ∷ []) (node 3 1) (omega arith, tt)

read_modified_files-Unique_example : Unique priorities (
    read_modified_files priorities two_files
      (node 1 1 ∷ node 2 2 ∷ [])
      []
      (some ((1 ∷ [], true, true) ∷ (5 ∷ [], true, true) ∷ [])))
unfolding has_node
read_modified_files-Unique_example =
    read_modified_files-Unique priorities two_files (node 1 1 ∷ node 2 2 ∷ []) []
      (some ((1 ∷ [], true, true) ∷ (5 ∷ [], true, true) ∷ [])) (refl, (refl, tt))

-- The property "t" of a request or of a policy.
abbrev transport_key : String
transport_key = 116 ∷ []

abbrev property_of : ℕ → ℕ → Json
property_of name precedence =
    member value_key (string (name ∷ []))
      (member precedence_key (integer (pos precedence)) empty_object)

abbrev request : Json
request = member transport_key (property_of 1 2) empty_object

-- A policy that asks for another transport, with base precedence.
abbrev base_policy : Json
base_policy =
    member properties_key (member transport_key (property_of 3 0) empty_object) empty_object

-- A node of the CIB that describes another property.
abbrev other_node : Json
other_node = member properties_key (member (117 ∷ []) (property_of 4 1) empty_object) empty_object

abbrev repository : Repository sample
repository = record {
  pib_profiles = [];
  cib_nodes = other_node ∷ [];
  pib_policies = base_policy ∷ [];
}

collect-AllKeep_example :
    AllKeep sample sample-IsJansson transport_key
      (string (1 ∷ []))
      (collect sample empty_array repository (request ∷ []))
unfolding same_string replace_matched expand_json
collect-AllKeep_example =
    collect-AllKeep sample sample-IsJansson transport_key (string (1 ∷ [])) empty_array repository
      (request ∷ []) tt ((refl, tt), tt)
      (record { keeps_matched = refl; bounded = ((omega arith, tt), tt) }, tt)
      (
        record {
          is_object = refl;
          property = property_of 1 2;
          has_property = refl;
          kept = record {
            is_object = refl;
            precedence = refl;
            value = string (1 ∷ []);
            has_value = refl;
            same_value = refl;
          };
        },
        tt,
      )

-- An interface as the CIB describes it, and one that is described in the form of an array.
abbrev interfaces : List Json
interfaces =
    base_policy ∷ member properties_key (element empty_object empty_array) empty_object ∷ []

cib_lookup-with_properties_example :
    cib_lookup sample empty_array request interfaces
    ≡ request
      ∷ overwrite_all sample sample-IsJansson request
          (with_properties sample sample-IsJansson interfaces)
cib_lookup-with_properties_example =
    cib_lookup-with_properties sample sample-IsJansson empty_array request interfaces refl

-- A candidate with one scored property.
abbrev candidate : ℕ → Json
candidate score =
    member transport_key
      (member score_key (integer (pos score)) (member value_key (string (1 ∷ [])) empty_object))
      empty_object

-- A sort by insertion stands for qsort.
abbrev insert : (Json → Json → ℕ) → Json → List Json → List Json
insert cmp j [] = j ∷ []
insert cmp j (i ∷ is) =
    let rest = insert cmp j is in if leb (cmp j i) zero_place then j ∷ i ∷ is else i ∷ rest

abbrev insertion_sort : (Json → Json → ℕ) → List Json → List Json
insertion_sort cmp [] = []
insertion_sort cmp (j ∷ js) = insert cmp j (insertion_sort cmp js)

best_candidates-Best_example :
    (kept : List Json) × (dropped : List Json) × (best_candidates sample insertion_sort
        (candidate 1 ∷ candidate 5 ∷ [])
      ≡ some kept)
    × (kept ++ dropped ≡ candidate 5 ∷ candidate 1 ∷ [])
    × (length kept ≡ 2)
    × Between (Ranks sample) kept dropped
unfolding cmp_score compare_scores property_score_sum score_sum_from add_score same_string
best_candidates-Best_example =
    best_candidates-Best sample insertion_sort (candidate 1 ∷ candidate 5 ∷ [])
      ((omega arith, tt), (tt, tt))
      (
        record {
          evaluated_low = omega arith;
          evaluated_high = omega arith;
          non_evaluated_low = omega arith;
          non_evaluated_high = omega arith;
        },
        (
          record {
            evaluated_low = omega arith;
            evaluated_high = omega arith;
            non_evaluated_low = omega arith;
            non_evaluated_high = omega arith;
          },
          tt,
        ),
      )
      (omega arith)
