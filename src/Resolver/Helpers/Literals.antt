-- ===== src/Resolver/Helpers/Literals.antt =====
-- What `nt_resolver_helpers_check_for_literal` has looked at when it says that a node is a literal.
use neat.Base.{
  String, ◌≡◌, refl, Bool, true, false, Bool-cases, inl, inr, List, [], ◌∷◌, Option, none, some,
  arith, not, ◌||◌, if◌then◌else◌,
}
use neat.Resolver.Helpers.{
  Pton, Family, Literal, unspec, v4, v6, unknown, failure, name, literal, has_comma, tokens,
  check_list, decide, is_unknown, check_for_literal,
}

-- Every name of the list is a literal.
abbrev pub AllLiterals : Pton → List String → Type 0
AllLiterals p [] = Unit {0}
AllLiterals p (t ∷ ts) = (p.is_v4 t || p.is_v6 t ≡ true) × AllLiterals p ts

-- The names that a node stands for.
abbrev pub names : String → List String
names node = if has_comma node then tokens node else node ∷ []

-- What a result says of the names: a decision that they are literals needs all of them to be.
abbrev pub Says : Pton → List String → Literal × Family → Type 0
Says p ts (literal, family) = AllLiterals p ts × (family ≡ unspec → ⊥)
Says p ts (name, family) = Unit {0}
Says p ts (failure, family) = Unit {0}

-- A list that has been walked to its end holds literals only.
abbrev pub Walked : Pton → List String → Option (Bool × Bool) → Type 0
Walked p ts none = Unit {0}
Walked p ts (some r) = AllLiterals p ts

check_list-Walked : (p : Pton) (ts : List String) (a b : Bool) → Walked p ts (check_list p ts a b)
unfolding check_list
check_list-Walked p [] a b = tt
check_list-Walked p (t ∷ ts) a b =
    go (p.is_v4 t || p.is_v6 t) refl _ (check_list-Walked p ts (p.is_v4 t) (p.is_v6 t))
  where
    go :
        (c : Bool)
        → p.is_v4 t || p.is_v6 t ≡ c
        → (r : Option (Bool × Bool)) → Walked p ts r
        → Walked p (t ∷ ts) (if not c then none else r)
    go false e r w = tt
    go true e none w = tt
    go true e (some r) w = (e, w)

decide-Says :
    (p : Pton) (ts : List String) (family : Family) (r : Option (Bool × Bool))
    → Walked p ts r
    → Says p ts (decide family r)
unfolding decide
decide-Says p ts family none w = tt
decide-Says p ts unspec (some (false, false)) w = tt
decide-Says p ts unspec (some (false, true)) w = (w, λ e. cc)
decide-Says p ts unspec (some (true, false)) w = (w, λ e. cc)
decide-Says p ts unspec (some (true, true)) w = (w, λ e. cc)
decide-Says p ts v4 (some (false, false)) w = tt
decide-Says p ts v4 (some (false, true)) w = tt
decide-Says p ts v4 (some (true, false)) w = (w, λ e. cc)
decide-Says p ts v4 (some (true, true)) w = tt
decide-Says p ts v6 (some (false, false)) w = tt
decide-Says p ts v6 (some (false, true)) w = (w, λ e. cc)
decide-Says p ts v6 (some (true, false)) w = tt
decide-Says p ts v6 (some (true, true)) w = tt
decide-Says p ts unknown (some (false, false)) w = tt
decide-Says p ts unknown (some (false, true)) w = (w, λ e. cc)
decide-Says p ts unknown (some (true, false)) w = (w, λ e. cc)
decide-Says p ts unknown (some (true, true)) w = (w, λ e. cc)

decide-none :
    (p : Pton) (ts : List String) (family : Family)
    → Says p ts (decide family (some (false, false)))
unfolding decide
decide-none p ts unspec = tt
decide-none p ts v4 = tt
decide-none p ts v6 = tt
decide-none p ts unknown = tt

decide-single :
    (p : Pton) (t : String) (family : Family)
    → Says p (t ∷ []) (decide family (some (p.is_v4 t, p.is_v6 t)))
decide-single p t family = go (p.is_v4 t) (p.is_v6 t) refl refl
  where
    go :
        (a b : Bool) → p.is_v4 t ≡ a → p.is_v6 t ≡ b → Says p (t ∷ []) (decide family (some (a, b)))
    go false false e f = decide-none p (t ∷ []) family
    go false true e f = decide-Says p (t ∷ []) family (some (false, true)) (ground arith, tt)
    go true b e f = decide-Says p (t ∷ []) family (some (true, b)) (ground arith, tt)

-- When the function says that a node is a literal, the node, or each of the addresses that its
-- commas separate, is a literal, and the family that it leaves is a definite one.
pub check_for_literal-Says :
    (p : Pton) (family : Family) (node : String)
    → Says p (names node) (check_for_literal p family node)
unfolding check_for_literal
check_for_literal-Says p family node = elim (Bool-cases (is_unknown family)) [
  | inl e ↦ simp (e) tt
  | inr e ↦ elim (Bool-cases (has_comma node)) [
    | inl c ↦
        simp (e, c)
          (decide-Says p (tokens node) family _ (check_list-Walked p (tokens node) false false))
    | inr c ↦ simp (e, c) (decide-single p node family)
  ]
]
