-- ===== src/PolicyManager/Collect.antt =====
-- The loops of `lookup` (policy_manager/pm.c) that collect the candidates of the requests, with
-- array_contains_value (policy_manager/pm_helper.c). The lists of policies and nodes are their JSON.
pub mod Keeps
use neat.Base.{Bool, true, false, ◌||◌, List, [], ◌∷◌, ◌++◌, if◌then◌else◌}
use neat.PolicyManager.Merge.{Jansson}
use neat.PolicyManager.Pib.{pib_lookup}
use neat.PolicyManager.Cib.{cib_lookup}

-- The lists that the process keeps: pib_profiles, cib_nodes and pib_policies.
pub record Repository (J : Jansson) : Type 0 where
  pub pib_profiles : List J.Json
  pub cib_nodes : List J.Json
  pub pib_policies : List J.Json

module _ (J : Jansson) where
  -- `array_contains_value`.
  unfoldable pub array_contains_value : List J.Json → J.Json → Bool
  array_contains_value [] value = false
  array_contains_value (elem ∷ array) value = J.equal elem value || array_contains_value array value

  -- What is not there yet is appended.
  abbrev pub add_new : List J.Json → J.Json → List J.Json
  add_new candidates candidate =
      if array_contains_value candidates candidate then candidates else candidates ++ candidate ∷ []

  -- The innermost loops.
  unfoldable pub append_new : List J.Json → List J.Json → List J.Json
  append_new candidates [] = candidates
  append_new candidates (candidate ∷ found) = append_new (add_new candidates candidate) found

  -- The CIB lookup of the updated requests; `empty` is the empty array.
  unfoldable pub add_cib_candidates : J.Json → List J.Json → List J.Json → List J.Json → List J.Json
  add_cib_candidates empty nodes cib_candidates [] = cib_candidates
  add_cib_candidates empty nodes cib_candidates (request ∷ requests) =
      add_cib_candidates empty nodes (append_new cib_candidates (cib_lookup J empty request nodes))
        requests

  -- The policy lookup of the CIB candidates.
  unfoldable pub add_policy_candidates :
      J.Json → List J.Json → List J.Json → List J.Json → List J.Json
  add_policy_candidates empty policies candidates [] = candidates
  add_policy_candidates empty policies candidates (candidate ∷ cib_candidates) =
      add_policy_candidates empty policies
        (append_new candidates (pib_lookup J empty policies candidate)) cib_candidates

  -- The outer loop. The CIB candidates of a request stay for the requests behind it.
  unfoldable pub collect_from :
      J.Json → Repository J → List J.Json → List J.Json → List J.Json → List J.Json
  collect_from empty repository cib_candidates candidates [] = candidates
  collect_from empty repository cib_candidates candidates (request ∷ requests) =
      let cib_candidates' =
        add_cib_candidates empty repository.cib_nodes cib_candidates
          (pib_lookup J empty repository.pib_profiles request) in
      collect_from empty repository cib_candidates'
        (add_policy_candidates empty repository.pib_policies candidates cib_candidates') requests

  unfoldable pub collect : J.Json → Repository J → List J.Json → List J.Json
  collect empty repository requests = collect_from empty repository [] [] requests
