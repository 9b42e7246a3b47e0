-- ===== src/PolicyManager/Node/Names.antt =====
-- The names of the list of policy files.
use neat.Base.{
  String, same_string, same_string-sym, ◌≡◌, refl, ap, ◌∙◌, Bool, true, false, Bool-cases, inl, inr,
  List, [], ◌∷◌, ◌++◌, Option, none, some, arith, ltb, leb, if◌then◌else◌,
}
use neat.PolicyManager.Node.{
  Jansson, Files, Node, priority, has_node, insert_behind, add_node, update_node_content, refreshed,
  update_in_place, update_node, create_node, read_entries, read_modified_files,
}

module _ (J : Jansson) where
  -- No two nodes have one name.
  abbrev pub Unique : List (Node J) → Type 0
  Unique [] = Unit {0}
  Unique (n ∷ l) = (has_node J l n.filename ≡ false) × Unique l

  has_node-insert_behind :
      (l : List (Node J)) (node : Node J) (x : String)
      → has_node J (insert_behind J l node) x ≡ has_node J (node ∷ l) x
  unfolding has_node insert_behind
  has_node-insert_behind [] node x = refl
  has_node-insert_behind (n ∷ l) node x = ground (arith, has_node-insert_behind l node x)

  has_node-add_node :
      (l : List (Node J)) (node : Node J) (x : String)
      → has_node J (add_node J l (some node)) x ≡ has_node J (node ∷ l) x
  unfolding has_node add_node
  has_node-add_node [] node x = refl
  has_node-add_node (n ∷ l) node x = ground (arith, has_node-insert_behind l node x)

  swapped :
      (l : List (Node J)) (node n : Node J)
      → Unique (node ∷ n ∷ l)
      → (has_node J (node ∷ l) n.filename ≡ false) × Unique (node ∷ l)
  unfolding has_node
  swapped l node n (a, (b, u)) = (
    ground (arith, same_string-sym n.filename node.filename),
    (ground (arith, same_string-sym n.filename node.filename), u),
  )

  insert_behind-Unique :
      (l : List (Node J)) (node : Node J) → Unique (node ∷ l) → Unique (insert_behind J l node)
  unfolding insert_behind
  insert_behind-Unique [] node u = u
  insert_behind-Unique (n ∷ l) node u =
      let (a, v) = swapped l node n u in
      elim (Bool-cases (ltb (priority J node) (priority J n))) [
        | inl e ↦ simp (e) u
        | inr e ↦
            simp (e) (has_node-insert_behind l node n.filename ∙ a, insert_behind-Unique l node v)
      ]

  add_node-Unique :
      (l : List (Node J)) (node : Node J) → Unique (node ∷ l) → Unique (add_node J l (some node))
  unfolding add_node
  add_node-Unique [] node u = u
  add_node-Unique (n ∷ l) node u =
      let (a, v) = swapped l node n u in
      elim (Bool-cases (ltb (priority J node) (priority J n))) [
        | inl e ↦ simp (e) u
        | inr e ↦
            simp (e) (has_node-insert_behind l node n.filename ∙ a, insert_behind-Unique l node v)
      ]

  filename-update_node_content :
      (files : Files J) (n : Node J) (j : Option J.Json)
      → (update_node_content J files n j).filename ≡ n.filename
  unfolding update_node_content
  filename-update_node_content files n none = refl
  filename-update_node_content files n (some j) = refl

  filename-when :
      (files : Files J) (n : Node J) (j : Option J.Json) (b : Bool)
      → (if b then update_node_content J files n j else n).filename ≡ n.filename
  filename-when files n j true = filename-update_node_content files n j
  filename-when files n j false = refl

  -- What an update in place finds and leaves.
  abbrev pub InPlace : List (Node J) → String → Option (List (Node J)) → Type 0
  InPlace l x none = has_node J l x ≡ false
  InPlace l x (some l') =
      ((y : String) → has_node J l' y ≡ has_node J l y)
      × (Unique l → Unique l')
      × (has_node J l x ≡ true)

  renamed :
      (l : List (Node J)) (n m : Node J) (x : String)
      → m.filename ≡ n.filename
      → same_string n.filename x ≡ true
      → InPlace (n ∷ l) x (some (m ∷ l))
  unfolding has_node
  renamed l n m x e h = (
    λ y. ap (λ f. if same_string f y then true else has_node J l y) e,
    λ u. (ap (has_node J l) e ∙ u.0, u.1),
    rw (h) refl,
  )

  behind :
      (l : List (Node J)) (n : Node J) (x : String) (o : Option (List (Node J)))
      → InPlace l x o
      → same_string n.filename x ≡ false
      → InPlace (n ∷ l) x (elim o [ none ↦ none | some l' ↦ some (n ∷ l') ])
  unfolding has_node
  behind l n x none i h = simp (h) i
  behind l n x (some l') (a, b, c) h = (
    λ y. ap (λ t. if same_string n.filename y then true else t) (a y),
    λ u. (a n.filename ∙ u.0, b u.1),
    simp (h) c,
  )

  has_node-nil : (x : String) → has_node J [] x ≡ false
  unfolding has_node
  has_node-nil x = refl

  update_in_place-InPlace :
      (files : Files J) (l : List (Node J)) (x : String) → InPlace l x (update_in_place J files l x)
  unfolding update_in_place
  update_in_place-InPlace files [] x = has_node-nil x
  update_in_place-InPlace files (n ∷ l) x = elim (Bool-cases (same_string n.filename x)) [
    | inl e ↦ simp (e) (
        renamed l n (refreshed J files n x) x
          (filename-when files n (files.load_json_file x)
            (leb n.last_updated (files.file_edit_time x)))
          e)
    | inr e ↦ simp (e) (behind l n x _ (update_in_place-InPlace files l x) e)
  ]

  abbrev pub Named : String → Option (Node J) → Type 0
  Named x none = Unit {0}
  Named x (some n) = n.filename ≡ x

  create_node-Named :
      (files : Files J) (x : String) (allocates : Bool) → Named x (create_node J files x allocates)
  unfolding create_node update_node_content
  create_node-Named files x allocates = go (files.load_json_file x) allocates
    where
      go :
          (o : Option J.Json) (b : Bool)
          → Named x (elim o [
            | none ↦ none
            | some json ↦
                if b
                then some (
                    update_node_content J files
                      (record { filename = x; last_updated = 0; json = none })
                      (some json))
                else none
          ])
      go none b = tt
      go (some json) true = refl
      go (some json) false = tt

  add_node-Named :
      (l : List (Node J)) (x : String) (o : Option (Node J))
      → has_node J l x ≡ false
      → Named x o
      → Unique l
      → Unique (add_node J l o)
  unfolding add_node
  add_node-Named [] x none h e u = u
  add_node-Named (n ∷ l) x none h e u = u
  add_node-Named l x (some n) h e u = add_node-Unique l n (ap (has_node J l) e ∙ h, u)

  -- An update leaves every name at most once.
  update_node-Unique :
      (files : Files J) (l : List (Node J)) (x : String) (allocates : Bool)
      → Unique l
      → Unique (update_node J files l x allocates)
  unfolding update_node
  update_node-Unique files l x allocates u =
      go (update_in_place J files l x) (update_in_place-InPlace files l x)
    where
      go :
          (o : Option (List (Node J)))
          → InPlace l x o
          → Unique (elim o [ none ↦ add_node J l (create_node J files x allocates) | some l' ↦ l' ])
      go none absent = add_node-Named l x _ absent (create_node-Named files x allocates) u
      go (some l') i = i.1 u

  -- A read of the directory, whatever it holds and whether it can be opened, keeps a list
  -- without two nodes of one name so.
  pub read_modified_files-Unique :
      (files : Files J) (l : List (Node J)) (dir_path : String)
      (entries : Option (List (String × Bool × Bool)))
      → Unique l
      → Unique (read_modified_files J files l dir_path entries)
  unfolding read_modified_files
  read_modified_files-Unique files l dir_path none u = tt
  read_modified_files-Unique files l dir_path (some es) u = go es l u
    where
      go :
          (es : List (String × Bool × Bool)) (l : List (Node J))
          → Unique l
          → Unique (read_entries J files l dir_path es)
      go [] l u = u
      go ((name, true, a) ∷ es) l u = go es _ (update_node-Unique files l (dir_path ++ name) a u)
      go ((name, false, a) ∷ es) l u = go es l u
