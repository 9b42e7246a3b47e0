-- ===== src/PolicyManager/Collect/Keeps.antt =====
-- The whole lookup keeps the immutable properties of its requests.
use neat.Base.{
  String, same_string, ◌≡◌, refl, subst, true, false, Bool, Bool-cases, inl, inr, List, [], ◌∷◌,
  ◌++◌, Option, none, some, Option-cases, if◌then◌else◌,
}
use neat.PolicyManager.Merge.{Jansson, properties_key, merge_property, merge_keys, merge_properties}
use neat.PolicyManager.Merge.Laws.{IsJansson}
use neat.PolicyManager.Pib.{subset, pib_lookup}
use neat.PolicyManager.Pib.Lookup.{
  Keeps, AllKeep, AllMerging, set-Keeps, AllKeep-append, pib_lookup-AllKeep,
}
use neat.PolicyManager.Cib.{immutable_from, node_candidate, candidates_from, cib_lookup}
use neat.PolicyManager.Collect.{
  Repository, array_contains_value, add_new, append_new, add_cib_candidates, add_policy_candidates,
  collect_from, collect,
}

-- None of the keys is the one in question.
abbrev pub Others : String → List String → Type 0
Others key [] = Unit
Others key (l ∷ keys) = (same_string l key ≡ false) × Others key keys

module _ (J : Jansson) (laws : IsJansson J) (key : String) (v : J.Json) where
  -- A node of the CIB that does not set the property.
  abbrev pub SparesIn : Option J.Json → Type 0
  SparesIn none = Unit
  SparesIn (some properties) = Others key (J.keys properties)

  abbrev pub AllSpare : List J.Json → Type 0
  AllSpare [] = Unit
  AllSpare (node ∷ nodes) = SparesIn (J.object_get node properties_key) × AllSpare nodes

  merge_property-overwrite :
      (candidate value : J.Json) (l : String)
      → merge_property J candidate true l value ≡ J.object_set candidate l value
  unfolding merge_property
  merge_property-overwrite candidate value l = elim (Option-cases (J.object_get candidate l)) [
    | inl n ↦ simp (n, merge_property) refl
    | inr (found, n) ↦ simp (n, merge_property) refl
  ]

  overwrite_keys-Keeps :
      (properties candidate : J.Json) (keys : List String)
      → Others key keys
      → Keeps J laws key v candidate
      → Keeps J laws key v (merge_keys J properties candidate true keys)
  unfolding merge_keys
  overwrite_keys-Keeps properties candidate [] o k = k
  overwrite_keys-Keeps properties candidate (l ∷ keys) (e, o) k =
      elim (Option-cases (J.object_get properties l)) [
        | inl n ↦ simp (n, merge_keys) (overwrite_keys-Keeps properties candidate keys o k)
        | inr (value, n) ↦
            simp (n, merge_property-overwrite candidate value l, merge_keys)
              (overwrite_keys-Keeps properties (J.object_set candidate l value) keys o
                (set-Keeps J laws key l v candidate value e k))
      ]

  node_candidate-AllKeep :
      (empty input_props node : J.Json)
      → SparesIn (J.object_get node properties_key)
      → Keeps J laws key v input_props
      → AllKeep J laws key v (node_candidate J empty input_props node)
  unfolding node_candidate merge_properties
  node_candidate-AllKeep empty input_props node s k =
      elim (Option-cases (J.object_get node properties_key)) [
        | inl n ↦ simp (n, node_candidate) tt
        | inr (properties, n) ↦
            elim (Bool-cases
              (subset J properties (immutable_from J input_props (J.keys input_props) empty))) [
                | inl b ↦ simp (n, b, node_candidate) tt
                | inr b ↦
                    simp (n, b, node_candidate)
                      (
                        overwrite_keys-Keeps properties input_props (J.keys properties)
                            (subst (λ o. SparesIn o) n s) k,
                        tt,
                      )
              ]
      ]

  candidates_from-AllKeep :
      (empty input_props : J.Json) (nodes : List J.Json)
      → AllSpare nodes
      → Keeps J laws key v input_props
      → AllKeep J laws key v (candidates_from J empty input_props nodes)
  unfolding candidates_from
  candidates_from-AllKeep empty input_props [] s k = tt
  candidates_from-AllKeep empty input_props (node ∷ nodes) (n, s) k =
      AllKeep-append J laws key v (node_candidate J empty input_props node) _
        (node_candidate-AllKeep empty input_props node n k)
        (candidates_from-AllKeep empty input_props nodes s k)

  cib_lookup-AllKeep :
      (empty input_props : J.Json) (nodes : List J.Json)
      → AllSpare nodes
      → Keeps J laws key v input_props
      → AllKeep J laws key v (cib_lookup J empty input_props nodes)
  unfolding cib_lookup
  cib_lookup-AllKeep empty input_props nodes s k =
      (k, candidates_from-AllKeep empty input_props nodes s k)

  add_one-AllKeep :
      (candidates : List J.Json) (candidate : J.Json) (b : Bool)
      → AllKeep J laws key v candidates
      → Keeps J laws key v candidate
      → AllKeep J laws key v (if b then candidates else candidates ++ candidate ∷ [])
  add_one-AllKeep candidates candidate true a k = a
  add_one-AllKeep candidates candidate false a k =
      AllKeep-append J laws key v candidates (candidate ∷ []) a (k, tt)

  append_new-AllKeep :
      (candidates found : List J.Json)
      → AllKeep J laws key v candidates
      → AllKeep J laws key v found
      → AllKeep J laws key v (append_new J candidates found)
  unfolding append_new
  append_new-AllKeep candidates [] a f = a
  append_new-AllKeep candidates (c ∷ found) a (k, f) =
      append_new-AllKeep (add_new J candidates c) found
        (add_one-AllKeep candidates c (array_contains_value J candidates c) a k) f

  add_cib_candidates-AllKeep :
      (empty : J.Json) (nodes cib_candidates requests : List J.Json)
      → AllSpare nodes
      → AllKeep J laws key v cib_candidates
      → AllKeep J laws key v requests
      → AllKeep J laws key v (add_cib_candidates J empty nodes cib_candidates requests)
  unfolding add_cib_candidates
  add_cib_candidates-AllKeep empty nodes cib_candidates [] s a r = a
  add_cib_candidates-AllKeep empty nodes cib_candidates (request ∷ requests) s a (k, r) =
      add_cib_candidates-AllKeep empty nodes
        (append_new J cib_candidates (cib_lookup J empty request nodes)) requests s
        (append_new-AllKeep cib_candidates (cib_lookup J empty request nodes) a
          (cib_lookup-AllKeep empty request nodes s k))
        r

  add_policy_candidates-AllKeep :
      (empty : J.Json) (policies candidates cib_candidates : List J.Json)
      → AllMerging J laws empty policies
      → AllKeep J laws key v candidates
      → AllKeep J laws key v cib_candidates
      → AllKeep J laws key v (add_policy_candidates J empty policies candidates cib_candidates)
  unfolding add_policy_candidates
  add_policy_candidates-AllKeep empty policies candidates [] m a c = a
  add_policy_candidates-AllKeep empty policies candidates (candidate ∷ cib_candidates) m a (k, c) =
      add_policy_candidates-AllKeep empty policies
        (append_new J candidates (pib_lookup J empty policies candidate)) cib_candidates m
        (append_new-AllKeep candidates (pib_lookup J empty policies candidate) a
          (pib_lookup-AllKeep J laws empty policies candidate key v m k))
        c

  collect_from-AllKeep :
      (empty : J.Json) (repository : Repository J)
      (cib_candidates candidates requests : List J.Json)
      → AllMerging J laws empty repository.pib_profiles
      → AllSpare repository.cib_nodes
      → AllMerging J laws empty repository.pib_policies
      → AllKeep J laws key v cib_candidates
      → AllKeep J laws key v candidates
      → AllKeep J laws key v requests
      → AllKeep J laws key v (collect_from J empty repository cib_candidates candidates requests)
  unfolding collect_from
  collect_from-AllKeep empty repository cib_candidates candidates [] p s m b a r = a
  collect_from-AllKeep empty repository cib_candidates candidates (request ∷ requests) p s m b a
        (k, r) =
      let updated = pib_lookup J empty repository.pib_profiles request in
      let cib_candidates' =
        add_cib_candidates J empty repository.cib_nodes cib_candidates updated in
      let b' =
        add_cib_candidates-AllKeep empty repository.cib_nodes cib_candidates updated s b
          (pib_lookup-AllKeep J laws empty repository.pib_profiles request key v p k) in
      let a' =
        add_policy_candidates-AllKeep empty repository.pib_policies candidates cib_candidates' m a
          b' in
      collect_from-AllKeep empty repository cib_candidates'
        (add_policy_candidates J empty repository.pib_policies candidates cib_candidates') requests
        p s m b' a' r

  -- If an immutable property with equal values is in each request, it is still there, still
  -- immutable, and has an equal value in each candidate that the lookup collects from the
  -- profiles, the CIB and the policies: no node of the CIB describes that property, the
  -- profiles and policies do not ask to replace what they match, and give their properties a
  -- precedence of at most PRECEDENCE_IMMUTABLE; Jansson behaves as documented.
  pub collect-AllKeep :
      (empty : J.Json) (repository : Repository J) (requests : List J.Json)
      → AllMerging J laws empty repository.pib_profiles
      → AllSpare repository.cib_nodes
      → AllMerging J laws empty repository.pib_policies
      → AllKeep J laws key v requests
      → AllKeep J laws key v (collect J empty repository requests)
  unfolding collect
  collect-AllKeep empty repository requests p s m r =
      collect_from-AllKeep empty repository [] [] requests p s m tt tt r
