-- ===== src/PolicyManager/Node/Removal.antt =====
-- What `remove_node` takes off the list of policy files, and what `get_node` finds on it.
use neat.Base.{
  ◌≡◌, refl, ap, sym, ◌∙◌, true, false, Bool-cases, inl, inr, List, [], ◌∷◌, arith, String,
  same_string, same_string-sym, if◌then◌else◌,
}
use neat.PolicyManager.Node.{Jansson, Node, has_node, remove_node}
use neat.PolicyManager.Node.Names.{Unique}

same_string_trans : (x y z : String) → same_string x y ≡ true → same_string z y ≡ same_string z x
unfolding same_string
same_string_trans [] [] [] e = refl
same_string_trans [] [] (c ∷ z) e = refl
same_string_trans [] (b ∷ y) z e = cc
same_string_trans (a ∷ x) [] z e = cc
same_string_trans (a ∷ x) (b ∷ y) [] e = refl
same_string_trans (a ∷ x) (b ∷ y) (c ∷ z) e = ground (arith, same_string_trans x y z)

module _ (J : Jansson) where
  has_node-same_string :
      (l : List (Node J)) (x y : String) → same_string x y ≡ true → has_node J l y ≡ has_node J l x
  unfolding has_node
  has_node-same_string [] x y e = refl
  has_node-same_string (n ∷ l) x y e =
      rw (same_string_trans x y n.filename e, has_node-same_string l x y e) refl

  -- Removing a file from a list without two nodes of one name: there is no node of that name
  -- any more, and each other name is there if it was there before.
  pub remove_node-has_node :
      (l : List (Node J)) (x : String)
      → Unique J l
      → (has_node J (remove_node J l x) x ≡ false)
        × ((y : String)
            → same_string x y ≡ false
            → has_node J (remove_node J l x) y ≡ has_node J l y)
  unfolding remove_node has_node
  remove_node-has_node [] x u = (refl, λ y d. refl)
  remove_node-has_node (n ∷ l) x (a, u) = elim (Bool-cases (same_string n.filename x)) [
    | inl e ↦ simp (e) (
      has_node-same_string l n.filename x e ∙ a,
      λ y d.
          let other : same_string n.filename y ≡ false =
            same_string-sym n.filename y
            ∙ sym (same_string_trans n.filename x y e)
            ∙ same_string-sym y x
            ∙ d in
          simp (other) refl,
    )
    | inr e ↦
        let (gone, rest) = remove_node-has_node l x u in
        simp (e) (gone, λ y d. ap (λ t. if same_string n.filename y then true else t) (rest y d))
  ]
