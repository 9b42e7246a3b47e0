-- ===== src/PolicyManager/Expand/Picked.antt =====
-- Which requests the expansion of properties makes.
use mathlib.Core.List.{Memᴰ}
use neat.Base.{
  String, same_string, same_string→≡, same_string_refl, ℕ, zero, suc, ◌+◌, ◌<◌, ◌≡◌, refl, ap, sym,
  subst, ◌∙◌, true, false, Bool-cases, inl, inr, ◌⊎◌, List, [], ◌∷◌, ◌++◌, Option, none, some,
  arith, if◌then◌else◌,
}
use neat.PolicyManager.Merge.{Jansson}
use neat.PolicyManager.Expand.{append_results, or_itself, expand_property}

-- What the documentation of Jansson says of the keys of an object, which keep their order.
pub record IsOrdered (J : Jansson) : Type 0 where
  pub keys-object_set :
      (j : J.Json) (k : String) (v w : J.Json)
      → J.object_get j k ≡ some w
      → J.keys (J.object_set j k v) ≡ J.keys j
  pub get-keys :
      (j : J.Json) (k : String) (v : J.Json) → J.object_get j k ≡ some v → Memᴰ k (J.keys j)

-- The second value is the first one, or is picked from one of its elements if that is an array.
pub data Picks (J : Jansson) : J.Json → J.Json → Type 0 where
  whole : {p : J.Json} → J.is_array p ≡ false → Picks J p p
  part : {p e v : J.Json} → J.is_array p ≡ true → Memᴰ e (J.elements p) → Picks J e v → Picks J p v

-- The sum of the depths of some keys, and the depths when one of them has changed.
abbrev pub total : (String → ℕ) → List String → ℕ
total depth [] = 0
total depth (l ∷ keys) = depth l + total depth keys

abbrev pub with_depth : (String → ℕ) → String → ℕ → String → ℕ
with_depth depth key n l = if same_string key l then n else depth l

total_grows :
    (depth : String → ℕ) (key : String) (n : ℕ) (keys : List String)
    → depth key ≡ suc n
    → total (with_depth depth key n) keys < suc (total depth keys)
total_grows depth key n [] e = ground arith
total_grows depth key n (l ∷ keys) e =
    let i = total_grows depth key n keys e in
    elim (Bool-cases (same_string key l)) [
      | inl s ↦
          let d : depth l ≡ suc n = ap depth (sym (same_string→≡ key l s)) ∙ e in
          simp s (ground (arith, i, d))
      | inr s ↦ simp s (ground (arith, i))
    ]

pub total_falls :
    (depth : String → ℕ) (key : String) (n : ℕ) (keys : List String)
    → depth key ≡ suc n
    → Memᴰ key keys
    → total (with_depth depth key n) keys < total depth keys
total_falls depth key n [] e m = absurd (elim m [ ])
total_falls depth key n (l ∷ keys) e (Memᴰ.head q) =
    let i = total_grows depth key n keys e in
    let s : same_string key l ≡ true = ap (same_string key) (sym q) ∙ same_string_refl key in
    let d : depth l ≡ suc n = ap depth (sym q) ∙ e in simp s (ground (arith, i, d))
total_falls depth key n (l ∷ keys) e (Memᴰ.tail m) =
    let i = total_falls depth key n keys e m in
    elim (Bool-cases (same_string key l)) [
      | inl s ↦
          let d : depth l ≡ suc n = ap depth (sym (same_string→≡ key l s)) ∙ e in
          simp s (ground (arith, i, d))
      | inr s ↦ simp s (ground (arith, i))
    ]

module _ (J : Jansson) where
  -- A property holds of all elements.
  abbrev pub All : (J.Json → Type 0) → List J.Json → Type 0
  All P [] = Unit
  All P (e ∷ es) = P e × All P es

  abbrev pub IsFilled : List J.Json → Type 0
  IsFilled [] = ⊥
  IsFilled (e ∷ es) = Unit

  -- No array, or an array that is not empty, whose elements are nested less deep.
  abbrev pub Nested : ℕ → J.Json → Type 0
  Nested zero p = J.is_array p ≡ false
  Nested (suc n) p =
      (J.is_array p ≡ false)
      ⊎ ((J.is_array p ≡ true) × IsFilled (J.elements p) × All (Nested n) (J.elements p))

  abbrev pub NestedIn : ℕ → Option J.Json → Type 0
  NestedIn n none = Unit
  NestedIn n (some p) = Nested n p

  -- The property of a result is picked from that of the request.
  abbrev pub PickedIn : Option J.Json → Option J.Json → Type 0
  PickedIn none none = Unit
  PickedIn (some p) (some v) = Picks J p v
  PickedIn _ _ = ⊥

  abbrev pub Picked : J.Json → J.Json → Type 0
  Picked element result = (l : String) → PickedIn (J.object_get element l) (J.object_get result l)

  -- There are results, and all are picked from the element.
  abbrev pub Expanded : J.Json → Option (List J.Json) → Type 0
  Expanded element none = ⊥
  Expanded element (some results) = IsFilled results × All (Picked element) results

  -- Both hold of all elements of two lists, also of the appended ones.
  pub All-append :
      (P : J.Json → Type 0) (first second : List J.Json)
      → All P first
      → All P second
      → All P (first ++ second)
  All-append P [] second a b = b
  All-append P (e ∷ first) second (p, a) b = (p, All-append P first second a b)

  pub IsFilled-append : (first second : List J.Json) → IsFilled first → IsFilled (first ++ second)
  IsFilled-append [] second f = absurd f
  IsFilled-append (e ∷ first) second f = tt

  pub All-map :
      (P Q : J.Json → Type 0) (es : List J.Json) → ((e : J.Json) → P e → Q e) → All P es → All Q es
  All-map P Q [] f a = tt
  All-map P Q (e ∷ es) f (p, a) = (f e p, All-map P Q es f a)

  pub All-Memᴰ : (P : J.Json → Type 0) {e : J.Json} (es : List J.Json) → All P es → Memᴰ e es → P e
  All-Memᴰ P [] a m = absurd (elim m [ ])
  All-Memᴰ P (e ∷ es) (p, a) (Memᴰ.head q) = subst P (sym q) p
  All-Memᴰ P (e ∷ es) (p, a) (Memᴰ.tail m) = All-Memᴰ P es a m

  abbrev pub KeptIn : J.Json → Option (List J.Json) → Type 0
  KeptIn element none = ⊥
  KeptIn element (some results) = All (Picked element) results

  append_results-Expanded :
      (element e : J.Json) (first second : Option (List J.Json))
      → ((o : J.Json) → Picked e o → Picked element o)
      → Expanded e first
      → KeptIn element second
      → Expanded element (append_results first second)
  append_results-Expanded element e none second c x k = absurd x
  append_results-Expanded element e (some first) none c x k = absurd k
  append_results-Expanded element e (some first) (some second) c (f, a) k = (
    IsFilled-append first second f,
    All-append (Picked element) first second (All-map (Picked e) (Picked element) first c a) k,
  )

  Expanded-KeptIn :
      (element : J.Json) (results : Option (List J.Json))
      → Expanded element results
      → KeptIn element results
  Expanded-KeptIn element none x = x
  Expanded-KeptIn element (some results) (f, a) = a

  pub or_itself-Expanded :
      (element : J.Json) (results : Option (List J.Json))
      → Expanded element results
      → Expanded element (or_itself element results)
  or_itself-Expanded element none x = x
  or_itself-Expanded element (some []) (f, a) = absurd f
  or_itself-Expanded element (some (o ∷ os)) x = x

  expand_property-KeptIn :
      (expand : J.Json → Option (List J.Json)) (element : J.Json) (key : String)
      (values : List J.Json)
      → ((v : J.Json)
          → Memᴰ v values
          → Expanded (J.object_set element key v) (expand (J.object_set element key v)))
      → ((v : J.Json)
          → Memᴰ v values
          → (o : J.Json) → Picked (J.object_set element key v) o
          → Picked element o)
      → KeptIn element (expand_property J expand element key values)
  unfolding expand_property
  expand_property-KeptIn expand element key [] x c = tt
  expand_property-KeptIn expand element key (v ∷ values) x c =
      let e = J.object_set element key v in
      let rest =
        expand_property-KeptIn expand element key values (λ w m. x w (Memᴰ.tail m))
          (λ w m. c w (Memᴰ.tail m)) in
      Expanded-KeptIn element
        (append_results (expand e) (expand_property J expand element key values))
        (append_results-Expanded element e (expand e) (expand_property J expand element key values)
          (c v (Memᴰ.head refl)) (x v (Memᴰ.head refl)) rest)

  pub expand_property-Expanded :
      (expand : J.Json → Option (List J.Json)) (element : J.Json) (key : String)
      (values : List J.Json)
      → IsFilled values
      → ((v : J.Json)
          → Memᴰ v values
          → Expanded (J.object_set element key v) (expand (J.object_set element key v)))
      → ((v : J.Json)
          → Memᴰ v values
          → (o : J.Json) → Picked (J.object_set element key v) o
          → Picked element o)
      → Expanded element (expand_property J expand element key values)
  unfolding expand_property
  expand_property-Expanded expand element key [] f x c = absurd f
  expand_property-Expanded expand element key (v ∷ values) f x c =
      let e = J.object_set element key v in
      append_results-Expanded element e (expand e) (expand_property J expand element key values)
        (c v (Memᴰ.head refl)) (x v (Memᴰ.head refl))
        (expand_property-KeptIn expand element key values (λ w m. x w (Memᴰ.tail m))
          (λ w m. c w (Memᴰ.tail m)))
