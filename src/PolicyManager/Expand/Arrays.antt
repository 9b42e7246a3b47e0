-- ===== src/PolicyManager/Expand/Arrays.antt =====
-- The expansion of one request ends, and leaves no arrays among its properties.
use mathlib.Core.List.{Memᴰ}
use neat.Base.{
  String, same_string, same_string→≡, ℕ, zero, suc, ◌<◌, ◌≡◌, refl, ap, sym, subst, ◌∙◌, true,
  false, Bool-cases, inl, inr, List, [], ◌∷◌, Option, Option-cases, none, some, arith,
}
use neat.PolicyManager.Merge.{Jansson}
use neat.PolicyManager.Merge.Laws.{IsJansson}
use neat.PolicyManager.Expand.{expand_property, first_array, expand_element_property}
use neat.PolicyManager.Expand.Picked.{
  IsOrdered, whole, part, total, with_depth, total_falls, All, IsFilled, Nested, NestedIn, PickedIn,
  Picked, Expanded, All-Memᴰ, or_itself-Expanded, expand_property-Expanded,
}

module _ (J : Jansson) (laws : IsJansson J) (order : IsOrdered J) where
  -- What the search for an array has found among some keys.
  abbrev FoundIn : J.Json → List String → Option (String × J.Json) → Type 0
  FoundIn element keys none =
      (l : String) (p : J.Json)
      → Memᴰ l keys
      → J.object_get element l ≡ some p
      → J.is_array p ≡ false
  FoundIn element keys (some (key, p)) = (J.object_get element key ≡ some p) × (J.is_array p ≡ true)

  FoundIn-cons :
      (element : J.Json) (key : String) (keys : List String) (found : Option (String × J.Json))
      → ((p : J.Json) → J.object_get element key ≡ some p → J.is_array p ≡ false)
      → FoundIn element keys found
      → FoundIn element (key ∷ keys) found
  FoundIn-cons element key keys (some (l, p)) h f = f
  FoundIn-cons element key keys none h f = λ l p m e. elim m [
    | Memᴰ.head q ↦ h p (ap (J.object_get element) (sym q) ∙ e)
    | Memᴰ.tail n ↦ f l p n e
  ]

  first_array-FoundIn :
      (element : J.Json) (keys : List String) → FoundIn element keys (first_array J element keys)
  unfolding first_array
  first_array-FoundIn element [] = λ l p m e. absurd (elim m [ ])
  first_array-FoundIn element (key ∷ keys) =
      let i = first_array-FoundIn element keys in
      elim (Option-cases (J.object_get element key)) [
        | inl n ↦
            simp (n, first_array)
              (FoundIn-cons element key keys (first_array J element keys)
                (λ p e. absurd (let z = sym n ∙ e in cc)) i)
        | inr (property, n) ↦ elim (Bool-cases (J.is_array property)) [
          | inl b ↦ simp (n, b, first_array) (refl, refl)
          | inr b ↦
              simp (n, b, first_array)
                (FoundIn-cons element key keys (first_array J element keys)
                  (λ p e. let z : some property ≡ some p = sym n ∙ e in cc) i)
        ]
      ]

  Nested-array :
      (n : ℕ) (p : J.Json)
      → Nested J n p
      → J.is_array p ≡ true
      → (m : ℕ) × (n ≡ suc m) × IsFilled J (J.elements p) × All J (Nested J m) (J.elements p)
  Nested-array zero p d e = absurd (let z = sym d ∙ e in cc)
  Nested-array (suc n) p (inl d) e = absurd (let z = sym d ∙ e in cc)
  Nested-array (suc n) p (inr (d, f, a)) e = (n, refl, f, a)

  part_in :
      (p v : J.Json) (o : Option J.Json)
      → J.is_array p ≡ true
      → Memᴰ v (J.elements p)
      → PickedIn J (some v) o
      → PickedIn J (some p) o
  part_in p v none a m k = k
  part_in p v (some o) a m k = part a m k

  -- What is picked from a copy with an element of an array is picked from the original.
  Picked-object_set :
      (element : J.Json) (key : String) (p v : J.Json)
      → J.object_get element key ≡ some p
      → J.is_array p ≡ true
      → Memᴰ v (J.elements p)
      → (o : J.Json) → Picked J (J.object_set element key v) o
      → Picked J element o
  Picked-object_set element key p v g a m o k = λ l. elim (Bool-cases (same_string key l)) [
    | inl s ↦
        let q : key ≡ l = same_string→≡ key l s in
        let before : J.object_get element l ≡ some p = ap (J.object_get element) (sym q) ∙ g in
        let after : J.object_get (J.object_set element key v) l ≡ some v =
          ap (J.object_get (J.object_set element key v)) (sym q)
          ∙ laws.get-set_self element key v (laws.object_get-is_object element key p g) in
        subst (λ x. PickedIn J x (J.object_get o l)) (sym before)
          (part_in p v (J.object_get o l) a m
            (subst (λ x. PickedIn J x (J.object_get o l)) after (k l)))
    | inr s ↦
        subst (λ x. PickedIn J x (J.object_get o l)) (laws.get-set_other element key l v s) (k l)
  ]

  NestedIn-object_set :
      (element : J.Json) (depth : String → ℕ) (key : String) (n : ℕ) (p v : J.Json)
      → J.object_get element key ≡ some p
      → Nested J n v
      → ((l : String) → NestedIn J (depth l) (J.object_get element l))
      → (l : String)
      → NestedIn J (with_depth depth key n l) (J.object_get (J.object_set element key v) l)
  NestedIn-object_set element depth key n p v g d h l = elim (Bool-cases (same_string key l)) [
    | inl s ↦
        let q : key ≡ l = same_string→≡ key l s in
        let after : J.object_get (J.object_set element key v) l ≡ some v =
          ap (J.object_get (J.object_set element key v)) (sym q)
          ∙ laws.get-set_self element key v (laws.object_get-is_object element key p g) in
        simp (s, after) d
    | inr s ↦ simp (s, laws.get-set_other element key l v s) (h l)
  ]

  NestedIn-some :
      (n : ℕ) (o : Option J.Json) (p : J.Json) → o ≡ some p → NestedIn J n o → Nested J n p
  NestedIn-some n o p e d = subst (NestedIn J n) e d

  -- An element without arrays is picked from itself.
  Picked-refl :
      (element : J.Json) → FoundIn element (J.keys element) none → Picked J element element
  Picked-refl element f = λ l. elim (Option-cases (J.object_get element l)) [
    | inl n ↦ simp n tt
    | inr (p, n) ↦ simp n (whole (f l p (order.get-keys element l p n) n))
  ]

  -- One element in the place of its array needs less fuel.
  falls :
      (element : J.Json) (depth : String → ℕ) (fuel : ℕ) (key : String) (m : ℕ) (p v : J.Json)
      → J.object_get element key ≡ some p
      → depth key ≡ suc m
      → total depth (J.keys element) < suc fuel
      → total (with_depth depth key m) (J.keys (J.object_set element key v)) < fuel
  falls element depth fuel key m p v g e h =
      let less = total_falls depth key m (J.keys element) e (order.get-keys element key p g) in
      rw (order.keys-object_set element key v p g) (ground (arith, less, h))

  pub expand_depths-Expanded :
      (fuel : ℕ) (element : J.Json) (depth : String → ℕ)
      → ((l : String) → NestedIn J (depth l) (J.object_get element l))
      → total depth (J.keys element) < fuel
      → Expanded J element (expand_element_property J fuel element)
  unfolding expand_element_property
  expand_depths-Expanded zero element depth d h = absurd (ground arith)
  expand_depths-Expanded (suc fuel) element depth d h =
      let found = first_array-FoundIn element (J.keys element) in
      elim (Option-cases (first_array J element (J.keys element))) [
        | inl n ↦
            simp (n, expand_element_property)
              (tt, (Picked-refl element (subst (FoundIn element (J.keys element)) n found), tt))
        | inr ((key, p), n) ↦
            let (g, a) = subst (FoundIn element (J.keys element)) n found in
            let (m, e, f, all) =
              Nested-array (depth key) p
                (NestedIn-some (depth key) (J.object_get element key) p g (d key)) a in
            let expand = expand_element_property J fuel in
            simp (n, expand_element_property)
              (or_itself-Expanded J element (expand_property J expand element key (J.elements p)) (
                expand_property-Expanded J expand element key (J.elements p) f
                  (λ v i.
                    expand_depths-Expanded fuel (J.object_set element key v)
                      (with_depth depth key m)
                      (NestedIn-object_set element depth key m p v g
                        (All-Memᴰ J (Nested J m) (J.elements p) all i) d)
                      (falls element depth fuel key m p v g e h))
                  (λ v i. Picked-object_set element key p v g a i)))
      ]
