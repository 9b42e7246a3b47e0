-- ===== src/SocketApi/NotificationQueue/Chain.antt =====
-- Lists of nodes on the heap as lists of items.
use neat.Base.{
  ℕ, ◌≡◌, ◌≢◌, refl, ap, sym, subst, ◌∙◌, List, [], ◌∷◌, ◌++◌, Option, none, some, arith,
}
use neat.SocketApi.NotificationQueue.{Node, Heap, update, Ends, push}

-- A node with the type and the length of its notification.
pub record Item : Type 0 where
  pub address : ℕ
  pub type : ℕ
  pub length : ℕ

abbrev pub node_of : Item → Option ℕ → Node
node_of i next = record { next = next; nnh_type = i.type; nnh_flags = 0; nnh_length = i.length }

-- From a pointer on, the nodes of these items, up to NULL.
abbrev pub Chain : Heap → Option ℕ → List Item → Type 0
Chain heap p [] = p ≡ none
Chain heap p (i ∷ is) =
    (p ≡ some i.address)
    × (next : Option ℕ) × (heap i.address ≡ some (node_of i next))
    × Chain heap next is

-- None of the items stands at an address.
abbrev pub Avoids : ℕ → List Item → Type 0
Avoids p [] = Unit
Avoids p (i ∷ is) = (p ≢ i.address) × Avoids p is

abbrev pub Distinct : List Item → Type 0
Distinct [] = Unit
Distinct (i ∷ is) = Avoids i.address is × Distinct is

-- The items of two lists stand at different addresses.
abbrev pub Apart : List Item → List Item → Type 0
Apart [] ys = Unit
Apart (x ∷ xs) ys = Avoids x.address ys × Apart xs ys

abbrev pub last_address : List Item → Option ℕ
last_address [] = none
last_address (i ∷ []) = some i.address
last_address (i ∷ j ∷ is) = last_address (j ∷ is)

-- The nodes of a list, between the ends of a queue.
pub record Holds (heap : Heap) (ends : Ends) (is : List Item) : Type 0 where
  pub chain : Chain heap ends.first is
  pub tail : ends.last ≡ last_address is
  pub distinct : Distinct is

pub update_self : (heap : Heap) (p : ℕ) (v : Option Node) → update heap p v p ≡ v
update_self heap p v = ground arith

pub update_ne : (heap : Heap) {p q : ℕ} (v : Option Node) → p ≢ q → update heap p v q ≡ heap q
update_ne heap v h = ground (arith, h)

-- A write elsewhere.
pub Chain-update :
    (heap : Heap) (p : ℕ) (v : Option Node) (q : Option ℕ) (is : List Item)
    → Avoids p is
    → Chain heap q is
    → Chain (update heap p v) q is
Chain-update heap p v q [] a c = c
Chain-update heap p v q (i ∷ is) (h, a) (e, next, n, c) =
    (e, next, update_ne heap v h ∙ n, Chain-update heap p v next is a c)

-- A free address is not one of a list.
pub Chain-Avoids :
    (heap : Heap) (a : ℕ) (q : Option ℕ) (is : List Item)
    → heap a ≡ none
    → Chain heap q is
    → Avoids a is
Chain-Avoids heap a q [] f c = tt
Chain-Avoids heap a q (i ∷ is) f (e, next, n, c) =
    (λ h. let g = sym f ∙ ap heap h ∙ n in cc, Chain-Avoids heap a next is f c)

-- The last node of a list that is not empty.
last_node :
    (heap : Heap) (q : Option ℕ) (i : Item) (is : List Item)
    → Chain heap q (i ∷ is)
    → (p : ℕ) × (node : Node) × (last_address (i ∷ is) ≡ some p) × (heap p ≡ some node)
last_node heap q i [] (e, next, n, c) = (i.address, node_of i next, refl, n)
last_node heap q i (j ∷ js) (e, next, n, c) = last_node heap next j js c

pub Avoids-last :
    (a p : ℕ) (i : Item) (is : List Item)
    → Avoids a (i ∷ is)
    → last_address (i ∷ is) ≡ some p
    → a ≢ p
Avoids-last a p i [] (h, _) e = λ g. h (cc)
Avoids-last a p i (j ∷ js) (h, r) e = Avoids-last a p j js r e

-- The last node is linked to a new one.
Chain-extend :
    (heap : Heap) (q : Option ℕ) (i : Item) (is : List Item) (new : Item) (p : ℕ) (node : Node)
    → Chain heap q (i ∷ is)
    → Distinct (i ∷ is)
    → Avoids new.address (i ∷ is)
    → heap new.address ≡ some (node_of new none)
    → last_address (i ∷ is) ≡ some p
    → heap p ≡ some node
    → Chain (update heap p (some (record node { next = some new.address }))) q (i ∷ is ++ new ∷ [])
Chain-extend heap q i [] new p node (e, next, n, c) d (a, _) f l m =
    let same_address : i.address ≡ p = cc in
    let same : node ≡ node_of i next = cc in
    (
      e,
      some new.address,
      ap (update heap p _) same_address
          ∙ update_self heap p _
          ∙ ap (λ (x : Node). some (record x { next = some new.address })) same,
      (refl, none, update_ne heap _ (λ g. a (sym g ∙ sym same_address)) ∙ f, refl),
    )
Chain-extend heap q i (j ∷ js) new p node (e, next, n, c) (g, d) (h, a) f l m = (
  e,
  next,
  update_ne heap _ (λ x. Avoids-last i.address p j js g l (sym x)) ∙ n,
  Chain-extend heap next j js new p node c d a f l m,
)

pub Avoids-append :
    (a : ℕ) (is : List Item) (new : Item)
    → Avoids a is
    → a ≢ new.address
    → Avoids a (is ++ new ∷ [])
Avoids-append a [] new h g = (g, tt)
Avoids-append a (i ∷ is) new (h, r) g = (h, Avoids-append a is new r g)

Distinct-append :
    (is : List Item) (new : Item) → Distinct is → Avoids new.address is → Distinct (is ++ new ∷ [])
Distinct-append [] new d a = (tt, tt)
Distinct-append (i ∷ is) new (h, d) (g, a) =
    (Avoids-append i.address is new h (λ e. g (sym e)), Distinct-append is new d a)

last_address-append :
    (is : List Item) (new : Item) → last_address (is ++ new ∷ []) ≡ some new.address
last_address-append [] new = refl
last_address-append (i ∷ []) new = refl
last_address-append (i ∷ j ∷ is) new = last_address-append (j ∷ is) new

Apart-last :
    (i : Item) (is js : List Item) (p : ℕ)
    → Apart (i ∷ is) js
    → last_address (i ∷ is) ≡ some p
    → Avoids p js
Apart-last i [] js p (h, _) e = let g : i.address ≡ p = cc in subst (λ x. Avoids x js) g h
Apart-last i (j ∷ is) js p (h, r) e = Apart-last j is js p r e

-- The heap after `push`: nothing but the last node of the list has changed.
pub record Pushed (heap : Heap) (ends : Ends) (is : List Item) (new : Item) : Type 0 where
  pub after : Heap
  pub after_ends : Ends
  pub pushes : push heap ends new.address ≡ some (after, after_ends)
  pub holds : Holds after after_ends (is ++ new ∷ [])
  pub frame : (q : Option ℕ) (js : List Item) → Apart is js → Chain heap q js → Chain after q js

pub push-Pushed :
    (heap : Heap) (ends : Ends) (is : List Item) (new : Item)
    → Holds heap ends is
    → Avoids new.address is
    → heap new.address ≡ some (node_of new none)
    → Pushed heap ends is new
unfolding push
push-Pushed heap ends [] new h a n = record {
  after = heap;
  after_ends = record { first = some new.address; last = some new.address };
  pushes = rw (h.tail, push) refl;
  holds = record { chain = (refl, none, n, refl); tail = refl; distinct = (tt, tt) };
  frame = λ q js r c. c;
}
push-Pushed heap ends (i ∷ is) new h a n =
    let (p, node, l, m) = last_node heap ends.first i is h.chain in
    let t : ends.last ≡ some p = h.tail ∙ l in
    record {
      after = update heap p (some (record node { next = some new.address }));
      after_ends = record { first = ends.first; last = some new.address };
      pushes = rw (t, m, push) refl;
      holds = record {
        chain = Chain-extend heap ends.first i is new p node h.chain h.distinct a n l m;
        tail = sym (last_address-append (i ∷ is) new);
        distinct = Distinct-append (i ∷ is) new h.distinct a;
      };
      frame = λ q js r c. Chain-update heap p _ q js (Apart-last i is js p r l) c;
    }
