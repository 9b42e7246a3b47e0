-- ===== src/PolicyManager/Expand/Requests.antt =====
-- The expansion of the properties of requests.
use neat.Base.{
  String, ℕ, ◌*◌, ◌<◌, ◌≡◌, sym, subst, true, false, Bool-cases, inl, inr, List, [], ◌∷◌, ◌++◌,
  Option, none, some, arith, length,
}
use neat.PolicyManager.Merge.{Jansson}
use neat.PolicyManager.Merge.Laws.{IsJansson}
use neat.PolicyManager.Expand.{
  append_results, create_json_array, expand_element_property, expand_all, expand_properties,
}
use neat.PolicyManager.Expand.Picked.{IsOrdered, total, All, IsFilled, NestedIn, Picked, Expanded}
use neat.PolicyManager.Expand.Arrays.{expand_depths-Expanded}

total_constant : (n : ℕ) (keys : List String) → total (λ l. n) keys ≡ n * length keys
total_constant n [] = ground arith
total_constant n (l ∷ keys) = let i = total_constant n keys in ground (arith, i)

module _ (J : Jansson) where
  -- The properties of all objects are nested at most n deep, and the fuel is enough for each.
  abbrev pub Bounded : ℕ → ℕ → List J.Json → Type 0
  Bounded n fuel [] = Unit
  Bounded n fuel (element ∷ root) =
      ((l : String) → NestedIn J n (J.object_get element l))
      × (n * length (J.keys element) < fuel)
      × Bounded n fuel root

  -- The results of the elements in their order, those of each element picked from it.
  pub data Expansions : List J.Json → List J.Json → Type 0 where
    done : Expansions [] []
    skipped :
        {element : J.Json} {root results : List J.Json}
        → J.is_object element ≡ false
        → Expansions root results
        → Expansions (element ∷ root) results
    expanded :
        {element : J.Json} {root results : List J.Json} (first : List J.Json)
        → J.is_object element ≡ true
        → IsFilled J first
        → All J (Picked J element) first
        → Expansions root results
        → Expansions (element ∷ root) (first ++ results)

  abbrev pub ExpandsTo : List J.Json → Option (List J.Json) → Type 0
  ExpandsTo root none = ⊥
  ExpandsTo root (some results) = Expansions root results

  skip_one :
      (element : J.Json) (root : List J.Json) (results : Option (List J.Json))
      → J.is_object element ≡ false
      → ExpandsTo root results
      → ExpandsTo (element ∷ root) results
  skip_one element root none o x = x
  skip_one element root (some results) o x = skipped o x

  append_one :
      (element : J.Json) (root : List J.Json) (first results : Option (List J.Json))
      → J.is_object element ≡ true
      → Expanded J element first
      → ExpandsTo root results
      → ExpandsTo (element ∷ root) (append_results first results)
  append_one element root none results o e x = absurd e
  append_one element root (some first) none o e x = x
  append_one element root (some first) (some results) o (f, a) x = expanded first o f a x

module _ (J : Jansson) (laws : IsJansson J) (order : IsOrdered J) where
  expand_all-ExpandsTo :
      (fuel n : ℕ) (root : List J.Json)
      → Bounded J n fuel root
      → ExpandsTo J root (expand_all J fuel root)
  unfolding expand_all
  expand_all-ExpandsTo fuel n [] b = done
  expand_all-ExpandsTo fuel n (element ∷ root) (d, h, b) =
      let rest = expand_all-ExpandsTo fuel n root b in
      elim (Bool-cases (J.is_object element)) [
        | inl o ↦
            simp (o, expand_all)
              (append_one J element root (expand_element_property J fuel element)
                (expand_all J fuel root) o
                (expand_depths-Expanded J laws order fuel element (λ l. n) d
                  (subst (λ x. x < fuel) (sym (total_constant n (J.keys element))) h))
                rest)
        | inr o ↦ simp (o, expand_all) (skip_one J element root (expand_all J fuel root) o rest)
      ]

  -- If the properties of the requests are nested at most n deep in arrays that are not empty,
  -- then with more fuel than n for each property of any request the expansion of properties
  -- ends. Each request that is an object gives at least one result and the others none; the
  -- results have no arrays as properties, have the properties of their request, and each
  -- property is the request's own or picked from its array, from an array in that, and so on.
  -- Jansson behaves as documented.
  pub expand_properties-ExpandsTo :
      (fuel n : ℕ) (req : J.Json)
      → Bounded J n fuel (create_json_array J req)
      → ExpandsTo J (create_json_array J req) (expand_properties J fuel req)
  unfolding expand_properties
  expand_properties-ExpandsTo fuel n req b = expand_all-ExpandsTo fuel n (create_json_array J req) b
