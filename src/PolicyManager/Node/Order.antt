-- ===== src/PolicyManager/Node/Order.antt =====
-- The order of the list of policy files.
use neat.Base.{
  ℕ, ◌+◌, ◌≤◌, ◌≡◌, refl, Bool, Bool-cases, inl, inr, List, [], ◌∷◌, some, arith, ltb,
  if◌then◌else◌,
}
use neat.PolicyManager.Node.{Jansson, Node, priority, insert_behind, add_node}

module _ (J : Jansson) where
  -- The priorities of the list do not fall, from at least p on.
  abbrev pub From : ℕ → List (Node J) → Type 0
  From p [] = Unit {0}
  From p (n ∷ l) = (p ≤ priority J n) × From (priority J n) l

  abbrev pub Sorted : List (Node J) → Type 0
  Sorted [] = Unit {0}
  Sorted (n ∷ l) = From (priority J n) l

  -- How often a test holds in the list.
  abbrev pub count : (Node J → Bool) → List (Node J) → ℕ
  count test [] = 0
  count test (n ∷ l) = (if test n then 1 else 0) + count test l

  insert_behind-From :
      (p : ℕ) (l : List (Node J)) (node : Node J)
      → From p l
      → p ≤ priority J node
      → From p (insert_behind J l node)
  unfolding insert_behind
  insert_behind-From p [] node s h = (h, tt)
  insert_behind-From p (n ∷ l) node (a, s) h =
      elim (Bool-cases (ltb (priority J node) (priority J n))) [
        | inl e ↦ simp (e) (h, (ground arith, s))
        | inr e ↦ simp (e) (a, insert_behind-From (priority J n) l node s (ground arith))
      ]

  insert_behind-count :
      (test : Node J → Bool) (l : List (Node J)) (node : Node J)
      → count test (insert_behind J l node) ≡ count test (node ∷ l)
  unfolding insert_behind
  insert_behind-count test [] node = refl
  insert_behind-count test (n ∷ l) node = ground (arith, insert_behind-count test l node)

  -- Adding a node to a list sorted by priority leaves it sorted, and with the nodes that it
  -- had and the new one: any test holds as often on it as on the list with the node in front.
  pub add_node-Sorted :
      (head : List (Node J)) (node : Node J)
      → Sorted head
      → Sorted (add_node J head (some node))
        × ((test : Node J → Bool)
            → count test (add_node J head (some node)) ≡ count test (node ∷ head))
  unfolding add_node
  add_node-Sorted [] node s = (tt, λ test. refl)
  add_node-Sorted (h ∷ l) node s = elim (Bool-cases (ltb (priority J node) (priority J h))) [
    | inl e ↦ simp (e) ((ground arith, s), λ test. refl)
    | inr e ↦ simp (e) (
      insert_behind-From (priority J h) l node s (ground arith),
      λ test. omega (arith, insert_behind-count test l node),
    )
  ]
