-- ===== src/Resolver/Duplicates/Seen.antt =====
-- Which addresses are duplicates.
use neat.Base.{
  String, same_string, same_string→≡, same_string_refl, ℕ, zero, suc, ◌≡◌, ◌↔◌, refl, ap, sym,
  subst, ◌∙◌, Bool, true, false, ◌&&◌, ◌||◌, Bool-cases, inl, inr, List, [], ◌∷◌, Option, none,
  some, arith,
}
use neat.Resolver.Duplicates.{
  Source, Pair, max_num_resolved, Pton, check_resolved, same_source, check_pairs, convert,
  check_duplicate,
}

-- An address stands in one of the first n slots, in front of the first empty one.
pub data InSlots (resolved : List ℕ) : ℕ → List (Option (List ℕ)) → Type 0 where
  first :
      (n : ℕ) (slots : List (Option (List ℕ))) → InSlots resolved (suc n) (some resolved ∷ slots)
  later :
      {n : ℕ} {slots : List (Option (List ℕ))} (a : List ℕ)
      → InSlots resolved n slots
      → InSlots resolved (suc n) (some a ∷ slots)

-- A pair with the same source has the address.
pub data IsSeen (src_addr : Source) (resolved : List ℕ) : List Pair → Type 0 where
  in_first :
      (pair : Pair) (pairs : List Pair)
      → pair.src_addr ≡ src_addr
      → InSlots resolved max_num_resolved pair.resolved_addr
      → IsSeen src_addr resolved (pair ∷ pairs)
  in_rest :
      {pairs : List Pair} (pair : Pair)
      → IsSeen src_addr resolved pairs
      → IsSeen src_addr resolved (pair ∷ pairs)

or_right : (a : Bool) {b : Bool} → b ≡ true → (a || b) ≡ true
or_right true e = refl
or_right false e = e

InSlots-check_resolved :
    (resolved : List ℕ) {n : ℕ} {slots : List (Option (List ℕ))}
    → InSlots resolved n slots
    → check_resolved n slots resolved ≡ true
unfolding check_resolved
InSlots-check_resolved resolved (first n slots) = rw (same_string_refl resolved) refl
InSlots-check_resolved resolved (later a s) =
    or_right (same_string a resolved) (InSlots-check_resolved resolved s)

check_resolved-InSlots :
    (n : ℕ) (slots : List (Option (List ℕ))) (resolved : List ℕ)
    → check_resolved n slots resolved ≡ true
    → InSlots resolved n slots
unfolding check_resolved
check_resolved-InSlots zero slots resolved e = absurd cc
check_resolved-InSlots (suc n) [] resolved e = absurd cc
check_resolved-InSlots (suc n) (none ∷ slots) resolved e = absurd cc
check_resolved-InSlots (suc n) (some a ∷ slots) resolved e =
    elim (Bool-cases (same_string a resolved)) [
      | inl s ↦
          subst (λ x. InSlots resolved (suc n) (some x ∷ slots)) (sym (same_string→≡ a resolved s))
            (first n slots)
      | inr s ↦ later a (check_resolved-InSlots n slots resolved (ground (arith, s, e)))
    ]

same_source_refl : (a : Source) → same_source a a ≡ true
unfolding same_source
same_source_refl a = ground (arith, same_string_refl a.address)

same_source→≡ : (a b : Source) → same_source a b ≡ true → b ≡ a
unfolding same_source
same_source→≡ a b e =
    let i : b.if_idx ≡ a.if_idx = ground (arith, e) in
    let f : b.family ≡ a.family = ground (arith, e) in
    let s : same_string b.address a.address ≡ true = ground (arith, e) in
    let t = same_string→≡ b.address a.address s in
    λ k. record { if_idx = i k; family = f k; address = t k }

IsSeen-check_pairs :
    (src_addr : Source) (resolved : List ℕ) {pairs : List Pair}
    → IsSeen src_addr resolved pairs
    → check_pairs src_addr resolved pairs ≡ true
unfolding check_pairs
IsSeen-check_pairs src_addr resolved (in_first pair pairs e s) =
    let a : same_source src_addr pair.src_addr ≡ true =
      ap (same_source src_addr) e ∙ same_source_refl src_addr in
    let b = InSlots-check_resolved resolved s in simp (a, b) refl
IsSeen-check_pairs src_addr resolved (in_rest pair s) =
    or_right _ (IsSeen-check_pairs src_addr resolved s)

check_pairs-IsSeen :
    (src_addr : Source) (resolved : List ℕ) (pairs : List Pair)
    → check_pairs src_addr resolved pairs ≡ true
    → IsSeen src_addr resolved pairs
unfolding check_pairs
check_pairs-IsSeen src_addr resolved [] e = absurd cc
check_pairs-IsSeen src_addr resolved (pair ∷ pairs) e =
    elim (Bool-cases (
      same_source src_addr pair.src_addr
      && check_resolved max_num_resolved pair.resolved_addr resolved)) [
        | inl s ↦
            let a : same_source src_addr pair.src_addr ≡ true = ground (arith, s) in
            let b : check_resolved max_num_resolved pair.resolved_addr resolved ≡ true =
              ground (arith, s) in
            in_first pair pairs (same_source→≡ src_addr pair.src_addr a)
              (check_resolved-InSlots max_num_resolved pair.resolved_addr resolved b)
        | inr s ↦ in_rest pair (check_pairs-IsSeen src_addr resolved pairs (ground (arith, s, e)))
      ]

-- A name that inet_pton takes for an address of the family of the pair is called a duplicate
-- exactly if a pair of the request with the same interface, family and source address has that
-- address among its first three resolved addresses, in front of the first empty slot.
pub check_duplicate-IsSeen :
    (pton : Pton) (pair : Pair) (pairs : List Pair) (name : String) (resolved : List ℕ)
    → convert pton pair.src_addr.family name ≡ some resolved
    → (check_duplicate pton pair pairs name ≡ true) ↔ IsSeen pair.src_addr resolved pairs
unfolding check_duplicate
check_duplicate-IsSeen pton pair pairs name resolved e =
    simp (e, check_duplicate)
      (
        λ c. check_pairs-IsSeen pair.src_addr resolved pairs c,
        λ s. IsSeen-check_pairs pair.src_addr resolved s,
      )
