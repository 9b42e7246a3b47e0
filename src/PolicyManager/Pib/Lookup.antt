-- ===== src/PolicyManager/Pib/Lookup.antt =====
-- The lookup of candidates keeps the immutable properties of the request.
use neat.Base.{
  same_string→≡, String, same_string, ◌≡◌, ap, sym, subst, ◌∙◌, true, false, Bool-cases, inl, inr,
  List, [], ◌∷◌, ◌++◌, map, Option, none, some, Option-cases,
}
use neat.PolicyManager.Merge.{
  Jansson, properties_key, match_key, merge_update_property, merge_property, merge_keys,
  merge_properties,
}
use neat.PolicyManager.Pib.{
  expand_json, replace_matched, matched, concat, apply_policy, lookup_from, pib_lookup,
}
use neat.PolicyManager.Merge.Laws.{IsJansson}
use neat.PolicyManager.Merge.Kept.{Immutable, IsBounded}
use neat.PolicyManager.Merge.Reverse.{merge_update_property-Immutable}

module _ (J : Jansson) (laws : IsJansson J) where
  -- A candidate whose property `key` is immutable, with a value that is equal to v.
  pub record Keeps (key : String) (v candidate : J.Json) : Type 0 where
    pub is_object : J.is_object candidate ≡ true
    pub property : J.Json
    pub has_property : J.object_get candidate key ≡ some property
    pub kept : Immutable J laws v property

  -- The properties that are merged into others have one of the three precedences.
  abbrev pub BoundedProperty : Option J.Json → Type 0
  BoundedProperty none = Unit
  BoundedProperty (some property) = IsBounded J laws property

  abbrev pub AllBounded : J.Json → List String → Type 0
  AllBounded properties [] = Unit
  AllBounded properties (key ∷ keys) =
      BoundedProperty (J.object_get properties key) × AllBounded properties keys

  abbrev pub AllExpanded : List J.Json → Type 0
  AllExpanded [] = Unit
  AllExpanded (properties ∷ rest) = AllBounded properties (J.keys properties) × AllExpanded rest

  -- A policy that does not replace what it matches.
  pub record IsMerging (empty policy : J.Json) : Type 0 where
    pub keeps_matched : replace_matched J policy ≡ false
    pub bounded : AllExpanded (expand_json J empty (J.object_get policy properties_key))

  abbrev pub AllMerging : J.Json → List J.Json → Type 0
  AllMerging empty [] = Unit
  AllMerging empty (policy ∷ policies) = IsMerging empty policy × AllMerging empty policies

  abbrev pub AllKeep : String → J.Json → List J.Json → Type 0
  AllKeep key v [] = Unit
  AllKeep key v (candidate ∷ candidates) = Keeps key v candidate × AllKeep key v candidates

  pub set-Keeps :
      (key l : String) (v candidate value : J.Json)
      → same_string l key ≡ false
      → Keeps key v candidate
      → Keeps key v (J.object_set candidate l value)
  set-Keeps key l v candidate value e k = record {
    is_object = laws.is_object-object_set candidate l value ∙ k.is_object;
    property = k.property;
    has_property = laws.get-set_other candidate l key value e ∙ k.has_property;
    kept = k.kept;
  }

  merge_property-Keeps :
      (key l : String) (v candidate value : J.Json)
      → IsBounded J laws value
      → Keeps key v candidate
      → Keeps key v (merge_property J candidate false l value)
  unfolding merge_property
  merge_property-Keeps key l v candidate value h k = elim (Bool-cases (same_string l key)) [
    | inl e ↦
        let same = same_string→≡ l key e in
        let found = ap (J.object_get candidate) same ∙ k.has_property in
        let after = merge_update_property J k.property value in
        let kept : Keeps key v (J.object_set candidate l after) = record {
          is_object = laws.is_object-object_set candidate l after ∙ k.is_object;
          property = after;
          has_property =
              ap (J.object_get (J.object_set candidate l after)) (sym same)
              ∙ laws.get-set_self candidate l after k.is_object;
          kept = merge_update_property-Immutable J laws v k.property value k.kept h;
        } in
        simp (found, merge_property) kept
    | inr e ↦ elim (Option-cases (J.object_get candidate l)) [
      | inl n ↦ simp (n, merge_property) (set-Keeps key l v candidate value e k)
      | inr (found, n) ↦
          simp (n, merge_property)
            (set-Keeps key l v candidate (merge_update_property J found value) e k)
    ]
  ]

  merge_keys-Keeps :
      (key : String) (v properties candidate : J.Json) (keys : List String)
      → AllBounded properties keys
      → Keeps key v candidate
      → Keeps key v (merge_keys J properties candidate false keys)
  unfolding merge_keys
  merge_keys-Keeps key v properties candidate [] b k = k
  merge_keys-Keeps key v properties candidate (l ∷ keys) (h, b) k =
      elim (Option-cases (J.object_get properties l)) [
        | inl e ↦ simp (e, merge_keys) (merge_keys-Keeps key v properties candidate keys b k)
        | inr (value, e) ↦
            simp (e, merge_keys)
              (merge_keys-Keeps key v properties (merge_property J candidate false l value) keys b (
                merge_property-Keeps key l v candidate value (subst (λ o. BoundedProperty o) e h)
                  k))
      ]

  pub AllKeep-append :
      (key : String) (v : J.Json) (xs ys : List J.Json)
      → AllKeep key v xs
      → AllKeep key v ys
      → AllKeep key v (xs ++ ys)
  AllKeep-append key v [] ys a b = b
  AllKeep-append key v (x ∷ xs) ys (k, a) b = (k, AllKeep-append key v xs ys a b)

  merge_all-AllKeep :
      (key : String) (v candidate : J.Json) (expanded : List J.Json)
      → AllExpanded expanded
      → Keeps key v candidate
      → AllKeep key v (map (λ e. merge_properties J e candidate false) expanded)
  unfolding merge_properties
  merge_all-AllKeep key v candidate [] b k = tt
  merge_all-AllKeep key v candidate (e ∷ es) (h, b) k =
      (merge_keys-Keeps key v e candidate (J.keys e) h k, merge_all-AllKeep key v candidate es b k)

  apply_policy-AllKeep :
      (empty policy candidate : J.Json) (key : String) (v : J.Json)
      → IsMerging empty policy
      → Keeps key v candidate
      → AllKeep key v (apply_policy J empty policy candidate)
  unfolding apply_policy
  apply_policy-AllKeep empty policy candidate key v m k =
      elim (Bool-cases (matched J (J.object_get policy match_key) candidate)) [
        | inl e ↦
            simp (e, m.keeps_matched, apply_policy)
              (merge_all-AllKeep key v candidate
                (expand_json J empty (J.object_get policy properties_key)) m.bounded k)
        | inr e ↦ simp (e, apply_policy) (k, tt)
      ]

  apply_all-AllKeep :
      (empty policy : J.Json) (key : String) (v : J.Json) (candidates : List J.Json)
      → IsMerging empty policy
      → AllKeep key v candidates
      → AllKeep key v (concat J (map (apply_policy J empty policy) candidates))
  apply_all-AllKeep empty policy key v [] m a = tt
  apply_all-AllKeep empty policy key v (c ∷ cs) m (k, a) =
      AllKeep-append key v (apply_policy J empty policy c) _
        (apply_policy-AllKeep empty policy c key v m k)
        (apply_all-AllKeep empty policy key v cs m a)

  lookup_from-AllKeep :
      (empty : J.Json) (policies candidates : List J.Json) (key : String) (v : J.Json)
      → AllMerging empty policies
      → AllKeep key v candidates
      → AllKeep key v (lookup_from J empty policies candidates)
  unfolding lookup_from
  lookup_from-AllKeep empty [] candidates key v m a = a
  lookup_from-AllKeep empty (policy ∷ policies) candidates key v (n, m) a =
      lookup_from-AllKeep empty policies _ key v m
        (apply_all-AllKeep empty policy key v candidates n a)

  -- In each candidate that a lookup makes of a request, an immutable property of the request
  -- is still there, still immutable, and its value is equal to the one in the request,
  -- whatever the policies match and set: the policies do not ask to replace what they match,
  -- and give their properties a precedence of at most PRECEDENCE_IMMUTABLE; Jansson behaves as
  -- documented.
  pub pib_lookup-AllKeep :
      (empty : J.Json) (policies : List J.Json) (input_props : J.Json) (key : String) (v : J.Json)
      → AllMerging empty policies
      → Keeps key v input_props
      → AllKeep key v (pib_lookup J empty policies input_props)
  unfolding pib_lookup
  pib_lookup-AllKeep empty policies input_props key v m k =
      lookup_from-AllKeep empty policies (input_props ∷ []) key v m (k, tt)
