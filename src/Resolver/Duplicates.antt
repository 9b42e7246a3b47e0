-- ===== src/Resolver/Duplicates.antt =====
-- `neat_resolver_helpers_check_duplicate` of neat_resolver_helpers.c. An address is the list of its
-- bytes, and inet_pton a parameter.
pub mod Seen
use neat.Base.{
  String, same_string, ℕ, zero, suc, Bool, true, false, not, ◌&&◌, ◌||◌, List, [], ◌∷◌, Option,
  none, some, ◌==◌, if◌then◌else◌,
}

-- The fields of the source address of a pair; AF_INET is 2.
pub record Source : Type 0 where
  pub if_idx : ℕ
  pub family : ℕ
  pub address : List ℕ

-- `struct neat_resolver_src_dst_addr`: a slot without a family is empty.
pub record Pair : Type 0 where
  pub src_addr : Source
  pub resolved_addr : List (Option (List ℕ))

-- MAX_NUM_RESOLVED.
abbrev pub max_num_resolved : ℕ
max_num_resolved = 3

-- inet_pton for the two families, if it returns a positive number.
pub record Pton : Type 0 where
  pub to_v4 : String → Option (List ℕ)
  pub to_v6 : String → Option (List ℕ)

-- The loop over the resolved addresses of a pair.
unfoldable pub check_resolved : ℕ → List (Option (List ℕ)) → List ℕ → Bool
check_resolved zero slots resolved = false
check_resolved (suc n) [] resolved = false
check_resolved (suc n) (none ∷ slots) resolved = false
check_resolved (suc n) (some a ∷ slots) resolved =
    same_string a resolved || check_resolved n slots resolved

-- The index, the family and the address of the sources agree.
unfoldable pub same_source : Source → Source → Bool
same_source a b =
    (a.if_idx == b.if_idx) && (a.family == b.family) && same_string b.address a.address

-- The loop over the pairs of the request.
unfoldable pub check_pairs : Source → List ℕ → List Pair → Bool
check_pairs src_addr resolved [] = false
check_pairs src_addr resolved (pair ∷ pairs) =
    (same_source src_addr pair.src_addr
      && check_resolved max_num_resolved pair.resolved_addr resolved)
    || check_pairs src_addr resolved pairs

abbrev pub convert : Pton → ℕ → String → Option (List ℕ)
convert pton family name = if family == 2 then pton.to_v4 name else pton.to_v6 name

-- `neat_resolver_helpers_check_duplicate`; `pairs` are those of the request of the pair.
unfoldable pub check_duplicate : Pton → Pair → List Pair → String → Bool
check_duplicate pton pair pairs resolved_addr_str =
    elim (convert pton pair.src_addr.family resolved_addr_str) [
      | none ↦ false
      | some resolved ↦ check_pairs pair.src_addr resolved pairs
    ]
