-- ===== src/PolicyManager/Ranking.antt =====
-- How the policy manager orders the candidates of a request and keeps the first of them:
-- policy_manager/parse_json.c and the end of `lookup` in policy_manager/pm.c. qsort is a parameter.
-- An `int` is given by its place, as in PolicyManager.Merge; an array is the list of its elements.
pub mod Best
use neat.Base.{
  String, ℕ, zero, suc, ◌+◌, ◌-◌, ◌%◌, ◌^◌, Bool, true, false, List, [], ◌∷◌, ◌++◌, Option, none,
  some, leb, ltb, ◌==◌, length, take, drop, if◌then◌else◌,
}
use neat.PolicyManager.Merge.{
  Jansson, int_add, int_of, int_field, zero_place, score_key, evaluated_key,
}

-- NUM_CANDIDATES.
abbrev pub num_candidates : ℕ
num_candidates = 10

-- The difference of two ints, which wraps.
abbrev pub int_sub : ℕ → ℕ → ℕ
int_sub p q = (p + 2 ^ 32 + 2 ^ 31 - q) % 2 ^ 32

-- `score_t`.
pub record Score : Type 0 where
  pub evaluated : ℕ
  pub non_evaluated : ℕ

module _ (J : Jansson) where
  -- Whether the attribute `evaluated` is there and true.
  abbrev pub is_evaluated : J.Json → Bool
  is_evaluated property = elim (J.object_get property evaluated_key) [
    | none ↦ false
    | some eval ↦ J.is_true eval
  ]

  -- What a property adds to the sums.
  unfoldable pub add_score : J.Json → Score → Score
  add_score property sum = elim (J.object_get property score_key) [
    | none ↦ sum
    | some score ↦
        if is_evaluated property
        then record sum { evaluated = int_add sum.evaluated (int_of J (some score)) }
        else record sum { non_evaluated = int_add sum.non_evaluated (int_of J (some score)) }
  ]

  -- The loop over the members of the candidate.
  unfoldable pub score_sum_from : J.Json → List String → Score → Score
  score_sum_from candidate [] sum = sum
  score_sum_from candidate (key ∷ keys) sum = elim (J.object_get candidate key) [
    | none ↦ score_sum_from candidate keys sum
    | some property ↦ score_sum_from candidate keys (add_score property sum)
  ]

  unfoldable pub property_score_sum : J.Json → Score
  property_score_sum candidate =
      score_sum_from candidate (J.keys candidate)
        (record { evaluated = zero_place; non_evaluated = zero_place })

-- The comparison of the two sums; `zero_place` is the answer 0.
unfoldable pub compare_scores : Score → Score → ℕ
compare_scores score1 score2 =
    if int_sub score2.evaluated score1.evaluated == zero_place
    then int_sub score2.non_evaluated score1.non_evaluated
    else int_sub score2.evaluated score1.evaluated

unfoldable pub cmp_score : (J : Jansson) → J.Json → J.Json → ℕ
cmp_score J json1 json2 = compare_scores (property_score_sum J json1) (property_score_sum J json2)

-- `i--` on a size_t.
abbrev pub size_before : ℕ → ℕ
size_before i = (i + 2 ^ 64 - 1) % 2 ^ 64

module _ {ℓ} {A : Type ℓ} where
  -- `json_array_remove`, which refuses an index out of range and leaves the array.
  abbrev pub array_remove : List A → ℕ → List A
  array_remove array i = take i array ++ drop (i + 1) array

  -- The loop from the index i down to the limit, with fuel; `none` if the fuel is used up.
  unfoldable pub limit_from : ℕ → List A → ℕ → ℕ → Option (List A)
  limit_from zero array i limit = none
  limit_from (suc fuel) array i limit =
      let rest = limit_from fuel (array_remove array i) (size_before i) limit in
      if leb limit i then rest else some array

  unfoldable pub limit_json_array : ℕ → List A → ℕ → Option (List A)
  limit_json_array fuel [] limit = some []
  limit_json_array fuel (x ∷ xs) limit = limit_from fuel (x ∷ xs) (length xs) limit

-- The end of `lookup`: the candidates are sorted and limited. The loop gets as much fuel as there are
-- candidates, and one more.
unfoldable pub best_candidates :
    (J : Jansson)
    → ((J.Json → J.Json → ℕ) → List J.Json → List J.Json)
    → List J.Json
    → Option (List J.Json)
best_candidates J qsort candidates =
    let sorted = qsort (cmp_score J) candidates in
    limit_json_array (length sorted + 1) sorted num_candidates
