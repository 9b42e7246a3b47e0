-- ===== src/PolicyManager/Ranking/Best.antt =====
-- The candidates that are kept are the best ones.
use neat.Base.{
  ℕ, zero, suc, ◌+◌, ◌<◌, ◌≤◌, ◌^◌, ◌≡◌, ◌≢◌, ◌⊎◌, refl, ap, sym, subst, ◌∙◌, min, false,
  Bool-cases, inl, inr, List, [], ◌∷◌, ◌++◌, some, arith, leb, ◌==◌, length, length-take, take,
  drop, take-append-drop, append-nil,
}
use neat.PolicyManager.Merge.{Jansson, zero_place}
use neat.PolicyManager.Ranking.{
  int_sub, Score, compare_scores, cmp_score, property_score_sum, num_candidates, array_remove,
  size_before, limit_from, limit_json_array, best_candidates,
}

module _ {ℓ} {A : Type ℓ} where
  drop_all : (n : ℕ) (xs : List A) → length xs ≤ n → drop n xs ≡ []
  drop_all zero [] l = refl
  drop_all zero (x ∷ xs) l = absurd (omega (arith, l))
  drop_all (suc n) [] l = refl
  drop_all (suc n) (x ∷ xs) l = drop_all n xs (omega (arith, l))

  take_all : (n : ℕ) (xs : List A) → length xs ≤ n → take n xs ≡ xs
  take_all zero [] l = refl
  take_all zero (x ∷ xs) l = absurd (omega (arith, l))
  take_all (suc n) [] l = refl
  take_all (suc n) (x ∷ xs) l = ap (λ ys. x ∷ ys) (take_all n xs (omega (arith, l)))

  take-take : (m n : ℕ) (xs : List A) → m ≤ n → take m (take n xs) ≡ take m xs
  take-take zero n xs l = refl
  take-take (suc m) zero xs l = absurd (omega (arith, l))
  take-take (suc m) (suc n) [] l = refl
  take-take (suc m) (suc n) (x ∷ xs) l = ap (λ ys. x ∷ ys) (take-take m n xs (omega (arith, l)))

  array_remove-last :
      (i : ℕ) (array : List A) → length array ≡ i + 1 → array_remove array i ≡ take i array
  array_remove-last i array e =
      ap (λ ys. take i array ++ ys) (drop_all (i + 1) array (omega (arith, e)))
      ∙ append-nil (take i array)

  -- From the last index down, the loop leaves what is below the limit.
  limit_from-take :
      (fuel : ℕ) (array : List A) (i limit : ℕ)
      → length array ≡ i + 1
      → i < fuel
      → i < 2 ^ 64
      → 0 < limit
      → limit_from fuel array i limit ≡ some (take limit array)
  unfolding limit_from
  limit_from-take zero array i limit e f b l = absurd (omega (arith, f))
  limit_from-take (suc fuel) array zero limit e f b l =
      let c : leb limit 0 ≡ false = ground (arith, l) in
      simp (c, take_all limit array (omega (arith, e, l))) refl
  limit_from-take (suc fuel) array (suc i) limit e f b l = elim (Bool-cases (leb limit (suc i))) [
    | inl c ↦
        let h : limit ≤ suc i = ground (arith, c) in
        let t : length (take (suc i) array) ≡ i + 1 = omega (arith, length-take (suc i) array, e) in
        let s : size_before (suc i) ≡ i = omega (arith, b) in
        let r =
          limit_from-take fuel (take (suc i) array) i limit t (omega (arith, f)) (omega (arith, b))
            l in
        simp (c, array_remove-last (suc i) array e, s)
          (r ∙ ap some (take-take limit (suc i) array h))
    | inr c ↦
        let h : length array ≤ limit = ground (arith, c, e) in simp (c, take_all limit array h) refl
  ]

  limit_json_array-take :
      (array : List A) (limit : ℕ)
      → 0 < limit
      → length array ≤ 2 ^ 64
      → limit_json_array (length array + 1) array limit ≡ some (take limit array)
  unfolding limit_json_array
  limit_json_array-take [] limit l b = ap some (sym (take_all limit [] (omega arith)))
  limit_json_array-take (x ∷ xs) limit l b =
      limit_from-take (length (x ∷ xs) + 1) (x ∷ xs) (length xs) limit (omega arith) (omega arith)
        (omega (arith, b)) l

-- In the order of the int places, the first sums are at least as good as the second.
pub AtLeast : Score → Score → Type 0
AtLeast a b =
    (b.evaluated < a.evaluated)
    ⊎ ((b.evaluated ≡ a.evaluated) × (b.non_evaluated ≤ a.non_evaluated))

-- The sums are so small that their difference is an int.
pub record IsSmall (s : Score) : Type 0 where
  pub evaluated_low : 2 ^ 30 ≤ s.evaluated
  pub evaluated_high : s.evaluated < 2 ^ 31 + 2 ^ 30
  pub non_evaluated_low : 2 ^ 30 ≤ s.non_evaluated
  pub non_evaluated_high : s.non_evaluated < 2 ^ 31 + 2 ^ 30

compare_scores-AtLeast :
    (a b : Score) → IsSmall a → IsSmall b → compare_scores a b ≤ zero_place → AtLeast a b
unfolding compare_scores AtLeast
compare_scores-AtLeast a b s t h =
    elim (Bool-cases (int_sub b.evaluated a.evaluated == zero_place)) [
      | inl e ↦
          let d : int_sub b.evaluated a.evaluated ≡ zero_place = ground (arith, e) in
          let f : b.evaluated ≡ a.evaluated = omega (arith, d) in
          let g : int_sub b.non_evaluated a.non_evaluated ≤ zero_place = ground (arith, h, e) in
          inr (f, omega (arith, g))
      | inr e ↦
          let g : int_sub b.evaluated a.evaluated ≤ zero_place = ground (arith, h, e) in
          let d : int_sub b.evaluated a.evaluated ≢ zero_place = ground (arith, e) in
          inl (omega (arith, g, d))
    ]

module _ {ℓ} {A : Type ℓ} where
  abbrev pub All : (A → Type 0) → List A → Type 0
  All P [] = Unit
  All P (x ∷ xs) = P x × All P xs

  -- Each element stands in the relation to all that come later.
  abbrev pub Ordered : (A → A → Type 0) → List A → Type 0
  Ordered R [] = Unit
  Ordered R (x ∷ xs) = All (R x) xs × Ordered R xs

  -- Each element of the first list stands in the relation to all of the second.
  abbrev pub Between : (A → A → Type 0) → List A → List A → Type 0
  Between R xs ys = All (λ x. All (R x) ys) xs

  module _ (R S : A → A → Type 0) (P : A → Type 0) where
    module _ (f : (a b : A) → P a → P b → R a b → S a b) where
      All-weaken : (x : A) (xs : List A) → P x → All P xs → All (R x) xs → All (S x) xs
      All-weaken x [] p ps rs = tt
      All-weaken x (y ∷ ys) p (q, ps) (r, rs) = (f x y p q r, All-weaken x ys p ps rs)

      Ordered-weaken : (xs : List A) → All P xs → Ordered R xs → Ordered S xs
      Ordered-weaken [] ps os = tt
      Ordered-weaken (x ∷ xs) (p, ps) (o, os) = (All-weaken x xs p ps o, Ordered-weaken xs ps os)

  All-append_right : (P : A → Type 0) (xs ys : List A) → All P (xs ++ ys) → All P ys
  All-append_right P [] ys ps = ps
  All-append_right P (x ∷ xs) ys (p, ps) = All-append_right P xs ys ps

  Ordered-Between : (R : A → A → Type 0) (xs ys : List A) → Ordered R (xs ++ ys) → Between R xs ys
  Ordered-Between R [] ys os = tt
  Ordered-Between R (x ∷ xs) ys (o, os) =
      (All-append_right (R x) xs ys o, Ordered-Between R xs ys os)

-- The sums of the first candidate are at least as good.
abbrev pub Ranks : (J : Jansson) → J.Json → J.Json → Type 0
Ranks J a b = AtLeast (property_score_sum J a) (property_score_sum J b)

-- If qsort has put the candidates in an order in which cmp_score is never positive, the sums are
-- so small that no difference of two of them wraps, and there are no more than 2 ^ 64, the
-- lookup ends with at most ten candidates: they are the first of those that qsort returned, and
-- each of them has sums at least as good as each that is dropped, the evaluated scores counting
-- before the others. The loop ends within a round for each candidate and one more.
pub best_candidates-Best :
    (J : Jansson) (qsort : (J.Json → J.Json → ℕ) → List J.Json → List J.Json)
    (candidates : List J.Json)
    → Ordered (λ a b. cmp_score J a b ≤ zero_place) (qsort (cmp_score J) candidates)
    → All (λ a. IsSmall (property_score_sum J a)) (qsort (cmp_score J) candidates)
    → length (qsort (cmp_score J) candidates) ≤ 2 ^ 64
    → (kept : List J.Json) × (dropped : List J.Json) × (best_candidates J qsort candidates
        ≡ some kept)
      × (kept ++ dropped ≡ qsort (cmp_score J) candidates)
      × (length kept ≡ min num_candidates (length (qsort (cmp_score J) candidates)))
      × Between (Ranks J) kept dropped
unfolding best_candidates cmp_score
best_candidates-Best J qsort candidates o s b =
    let sorted = qsort (cmp_score J) candidates in
    let kept = take num_candidates sorted in
    let dropped = drop num_candidates sorted in
    let whole = take-append-drop num_candidates sorted in
    let ranked =
      Ordered-weaken (λ x y. cmp_score J x y ≤ zero_place) (Ranks J)
        (λ x. IsSmall (property_score_sum J x))
        (λ x y p q r.
          compare_scores-AtLeast (property_score_sum J x) (property_score_sum J y) p q r)
        sorted s o in
    (
      kept,
      dropped,
      limit_json_array-take sorted num_candidates (omega arith) b,
      whole,
      length-take num_candidates sorted,
      Ordered-Between (Ranks J) kept dropped (subst (Ordered (Ranks J)) (sym whole) ranked),
    )
