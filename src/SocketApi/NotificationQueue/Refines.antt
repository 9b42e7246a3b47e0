-- ===== src/SocketApi/NotificationQueue/Refines.antt =====
-- The notification queue implements two first-in-first-out queues.
use neat.Base.{
  ℕ, ◌≡◌, ◌<◌, refl, ap, sym, subst, ◌∙◌, Bool, true, false, Bool-cases, Option-cases, inl, inr,
  List, [], ◌∷◌, ◌++◌, map, map-append, Option, none, some, arith, ◌==◌, leb, if◌then◌else◌,
}
use neat.SocketApi.NotificationQueue.{
  Node, Heap, update, Ends, Queue, push, same_pointer, pop, is_requested, push_node, enqueue,
  dequeue, new_queue,
}
use neat.SocketApi.NotificationQueue.Chain.{
  Item, node_of, Avoids, Distinct, Apart, last_address, Holds, update_self, Chain-update,
  Chain-Avoids, Avoids-last, Avoids-append, push-Pushed,
}

-- The abstract queues: the notifications that wait, each a type and a length.
pub record Fifos : Type 0 where
  pub pre_read : List (ℕ × ℕ)
  pub post_read : List (ℕ × ℕ)
  pub event_mask : ℕ

abbrev pub add : Fifos → Bool → ℕ × ℕ → Fifos
add fifos true n = record fifos { pre_read = fifos.pre_read ++ n ∷ [] }
add fifos false n = record fifos { post_read = fifos.post_read ++ n ∷ [] }

abbrev pub take_first : {A : Type 0} → List A → Option A × List A
take_first [] = (none, [])
take_first (x ∷ xs) = (some x, xs)

abbrev pub remove : Fifos → Bool → Option (ℕ × ℕ) × Fifos
remove fifos true =
    ((take_first fifos.pre_read).0, record fifos { pre_read = (take_first fifos.pre_read).1 })
remove fifos false =
    ((take_first fifos.post_read).0, record fifos { post_read = (take_first fifos.post_read).1 })

-- Two lists that share no node.
pub record Two (heap : Heap) (mine other : Ends) (xs ys : List Item) : Type 0 where
  pub holds : Holds heap mine xs
  pub other_holds : Holds heap other ys
  pub apart : Apart xs ys
  pub other_apart : Apart ys xs

swap :
    {heap : Heap} {mine other : Ends} {xs ys : List Item}
    → Two heap mine other xs ys
    → Two heap other mine ys xs
swap t = record {
  holds = t.other_holds;
  other_holds = t.holds;
  apart = t.other_apart;
  other_apart = t.apart;
}

Holds-update :
    (heap : Heap) (a : ℕ) (v : Option Node) (ends : Ends) (is : List Item)
    → heap a ≡ none
    → Holds heap ends is
    → Holds (update heap a v) ends is
Holds-update heap a v ends is f h = record {
  chain = Chain-update heap a v ends.first is (Chain-Avoids heap a ends.first is f h.chain) h.chain;
  tail = h.tail;
  distinct = h.distinct;
}

Apart-append_left :
    (xs ys : List Item) (new : Item)
    → Apart xs ys
    → Avoids new.address ys
    → Apart (xs ++ new ∷ []) ys
Apart-append_left [] ys new a h = (h, tt)
Apart-append_left (x ∷ xs) ys new (g, a) h = (g, Apart-append_left xs ys new a h)

Apart-append_right :
    (ys xs : List Item) (new : Item)
    → Apart ys xs
    → Avoids new.address ys
    → Apart ys (xs ++ new ∷ [])
Apart-append_right [] xs new a h = tt
Apart-append_right (y ∷ ys) xs new (g, a) (n, h) =
    (Avoids-append y.address xs new g (λ e. n (sym e)), Apart-append_right ys xs new a h)

-- A new node behind one of the lists.
Two-push :
    (heap : Heap) (mine other : Ends) (xs ys : List Item) (new : Item)
    → Two heap mine other xs ys
    → heap new.address ≡ none
    → (after : Heap) × (ends : Ends) × (push
          (update heap new.address (some (node_of new none)))
          mine
          new.address
        ≡ some (after, ends))
      × Two after ends other (xs ++ new ∷ []) ys
Two-push heap mine other xs ys new t f =
    let fresh = update heap new.address (some (node_of new none)) in
    let ax = Chain-Avoids heap new.address mine.first xs f t.holds.chain in
    let ay = Chain-Avoids heap new.address other.first ys f t.other_holds.chain in
    let o = Holds-update heap new.address (some (node_of new none)) other ys f t.other_holds in
    let p =
      push-Pushed fresh mine xs new
        (Holds-update heap new.address (some (node_of new none)) mine xs f t.holds) ax
        (update_self heap new.address (some (node_of new none))) in
    (
      p.after,
      p.after_ends,
      p.pushes,
      record {
        holds = p.holds;
        other_holds = record {
          chain = p.frame other.first ys t.apart o.chain;
          tail = o.tail;
          distinct = o.distinct;
        };
        apart = Apart-append_left xs ys new t.apart ay;
        other_apart = Apart-append_right ys xs new t.other_apart ay;
      },
    )

abbrev pub content : Item → ℕ × ℕ
content i = (i.type, i.length)

-- What is returned: NULL for none, and otherwise a node with the notification.
pub data Returns (heap : Heap) : Option ℕ → Option (ℕ × ℕ) → Type 0 where
  null : Returns heap none none
  node :
      (p : ℕ) (n : Node) → heap p ≡ some n → Returns heap (some p) (some (n.nnh_type, n.nnh_length))

same_pointer_self : (p : ℕ) → same_pointer (some p) (some p) ≡ true
same_pointer_self p = ground arith

last_after :
    (i : Item) (is : List Item)
    → Distinct (i ∷ is)
    → (if same_pointer (some i.address) (last_address (i ∷ is))
        then none
        else last_address (i ∷ is))
      ≡ last_address is
last_after i [] d = rw (same_pointer_self i.address) refl
last_after i (j ∷ js) (a, d) = elim (Option-cases (last_address (j ∷ js))) [
  | inl e ↦ simp (e) refl
  | inr (p, e) ↦
      let h = Avoids-last i.address p j js a e in
      let n : (i.address == p) ≡ false = ground (arith, h) in simp (e, n) refl
]

Apart-tail : (ys : List Item) (x : Item) (xs : List Item) → Apart ys (x ∷ xs) → Apart ys xs
Apart-tail [] x xs a = tt
Apart-tail (y ∷ ys) x xs (h, a) = (h.1, Apart-tail ys x xs a)

-- The first node of one of the lists leaves it.
Two-pop :
    (heap : Heap) (mine other : Ends) (xs ys : List Item)
    → Two heap mine other xs ys
    → (r : Option ℕ) × (ends : Ends) × (pop heap mine ≡ some (r, ends))
      × Two heap ends other ((take_first xs).1) ys
      × Returns heap r ((take_first (map content xs)).0)
unfolding pop
Two-pop heap mine other [] ys t = (
  none,
  record { first = none; last = none },
  rw (t.holds.chain, t.holds.tail, pop) refl,
  record {
    holds = record { chain = refl; tail = refl; distinct = tt };
    other_holds = t.other_holds;
    apart = tt;
    other_apart = t.other_apart;
  },
  null,
)
Two-pop heap mine other (x ∷ xs) ys t =
    let (e, next, n, c) = t.holds.chain in
    (
      some x.address,
      record { first = next; last = last_address xs },
      rw (e, n, t.holds.tail, last_after x xs t.holds.distinct, pop) refl,
      record {
        holds = record { chain = c; tail = refl; distinct = t.holds.distinct.1 };
        other_holds = t.other_holds;
        apart = t.apart.1;
        other_apart = Apart-tail ys x xs t.other_apart;
      },
      node x.address (node_of x next) n,
    )

-- The two lists of a queue hold the notifications of the abstract queues, in their order.
pub record Refines (heap : Heap) (queue : Queue) (fifos : Fifos) : Type 0 where
  pub pre_items : List Item
  pub post_items : List Item
  pub lists : Two heap queue.pre_read queue.post_read pre_items post_items
  pub pre_contents : map content pre_items ≡ fifos.pre_read
  pub post_contents : map content post_items ≡ fifos.post_read
  pub same_mask : queue.event_mask ≡ fifos.event_mask

-- The abstract enqueue: nothing without a request, or without memory.
abbrev pub add_if : Bool → Option ℕ → Fifos → Bool → ℕ × ℕ → Fifos
add_if true (some a) fifos is_pre_read n = add fifos is_pre_read n
add_if _ _ fifos is_pre_read n = fifos

abbrev pub returned : Bool → Option ℕ → Option ℕ
returned true block = block
returned false block = none

-- What malloc returns is not allocated.
pub data IsFresh (heap : Heap) : Option ℕ → Type 0 where
  no_memory : IsFresh heap none
  free_block : (a : ℕ) → heap a ≡ none → IsFresh heap (some a)

append-content :
    (is : List Item) (new : Item) {ns : List (ℕ × ℕ)}
    → map content is ≡ ns
    → map content (is ++ new ∷ []) ≡ ns ++ content new ∷ []
append-content is new e = map-append content is (new ∷ []) ∙ ap (λ ns. ns ++ content new ∷ []) e

push_node-Refines :
    (heap : Heap) (queue : Queue) (fifos : Fifos) (is_pre_read : Bool) (new : Item)
    → Refines heap queue fifos
    → heap new.address ≡ none
    → (after : Heap) × (left : Queue) × (push_node
          (update heap new.address (some (node_of new none)))
          queue
          is_pre_read
          new.address
        ≡ some (some new.address, after, left))
      × Refines after left (add fifos is_pre_read (content new))
unfolding push_node
push_node-Refines heap queue fifos true new r f =
    let (after, ends, e, t) =
      Two-push heap queue.pre_read queue.post_read r.pre_items r.post_items new r.lists f in
    (
      after,
      record queue { pre_read = ends },
      rw (e, push_node) refl,
      record {
        pre_items = r.pre_items ++ new ∷ [];
        post_items = r.post_items;
        lists = t;
        pre_contents = append-content r.pre_items new r.pre_contents;
        post_contents = r.post_contents;
        same_mask = r.same_mask;
      },
    )
push_node-Refines heap queue fifos false new r f =
    let (after, ends, e, t) =
      Two-push heap queue.post_read queue.pre_read r.post_items r.pre_items new (swap r.lists) f in
    (
      after,
      record queue { post_read = ends },
      rw (e, push_node) refl,
      record {
        pre_items = r.pre_items;
        post_items = r.post_items ++ new ∷ [];
        lists = swap t;
        pre_contents = r.pre_contents;
        post_contents = append-content r.post_items new r.post_contents;
        same_mask = r.same_mask;
      },
    )

-- For a type below 31, whatever malloc answers, `nq_enqueue` on a queue that represents two
-- abstract queues is defined: it returns the new node if the type is requested and there is
-- memory, and NULL otherwise, and leaves a queue that represents them with the notification at
-- the end of the one that is asked for, if it is requested and there is memory.
pub enqueue-Refines :
    (heap : Heap) (queue : Queue) (fifos : Fifos) (is_pre_read : Bool) (type length : ℕ)
    (block : Option ℕ)
    → Refines heap queue fifos
    → type < 31
    → IsFresh heap block
    → (after : Heap) × (left : Queue) × (enqueue heap queue is_pre_read type length block
        ≡ some (returned (is_requested queue type) block, after, left))
      × Refines after left (add_if (is_requested queue type) block fifos is_pre_read (type, length))
unfolding enqueue
enqueue-Refines heap queue fifos is_pre_read type length block r h no_memory =
    let g : leb 31 type ≡ false = ground arith in
    elim (Bool-cases (is_requested queue type)) [
      | inr q ↦ simp (g, q) (heap, queue, refl, r)
      | inl q ↦ simp (g, q) (heap, queue, refl, r)
    ]
enqueue-Refines heap queue fifos is_pre_read type length block r h (free_block a e) =
    let g : leb 31 type ≡ false = ground arith in
    elim (Bool-cases (is_requested queue type)) [
      | inr q ↦ simp (g, q) (heap, queue, refl, r)
      | inl q ↦
          simp (g, q)
            (push_node-Refines heap queue fifos is_pre_read
              (record { address = a; type = type; length = length }) r e)
    ]

take_first-map :
    (is : List Item) {ns : List (ℕ × ℕ)}
    → map content is ≡ ns
    → map content ((take_first is).1) ≡ (take_first ns).1
take_first-map [] e = ap (λ ns. (take_first ns).1) e
take_first-map (i ∷ is) e = ap (λ ns. (take_first ns).1) e

-- `nq_dequeue` on a queue that represents two abstract queues is defined: it returns a node with
-- the oldest notification of the one that is asked for, or NULL if there is none, changes no
-- node, and leaves a queue that represents the abstract queues without that notification.
pub dequeue-Refines :
    (heap : Heap) (queue : Queue) (fifos : Fifos) (from_pre_read : Bool)
    → Refines heap queue fifos
    → (r : Option ℕ) × (left : Queue) × (dequeue heap queue from_pre_read ≡ some (r, heap, left))
      × Refines heap left ((remove fifos from_pre_read).1)
      × Returns heap r ((remove fifos from_pre_read).0)
unfolding dequeue
dequeue-Refines heap queue fifos true r =
    let (p, ends, e, t, n) =
      Two-pop heap queue.pre_read queue.post_read r.pre_items r.post_items r.lists in
    (
      p,
      record queue { pre_read = ends },
      rw (e, dequeue) refl,
      record {
        pre_items = (take_first r.pre_items).1;
        post_items = r.post_items;
        lists = t;
        pre_contents = take_first-map r.pre_items r.pre_contents;
        post_contents = r.post_contents;
        same_mask = r.same_mask;
      },
      subst (λ ns. Returns heap p ((take_first ns).0)) r.pre_contents n,
    )
dequeue-Refines heap queue fifos false r =
    let (p, ends, e, t, n) =
      Two-pop heap queue.post_read queue.pre_read r.post_items r.pre_items (swap r.lists) in
    (
      p,
      record queue { post_read = ends },
      rw (e, dequeue) refl,
      record {
        pre_items = r.pre_items;
        post_items = (take_first r.post_items).1;
        lists = swap t;
        pre_contents = r.pre_contents;
        post_contents = take_first-map r.post_items r.post_contents;
        same_mask = r.same_mask;
      },
      subst (λ ns. Returns heap p ((take_first ns).0)) r.post_contents n,
    )

-- A new queue represents empty queues, whatever events are then asked for.
pub new_queue-Refines :
    (heap : Heap) (mask : ℕ)
    → Refines heap
        (record new_queue { event_mask = mask })
        (record { pre_read = []; post_read = []; event_mask = mask })
new_queue-Refines heap mask = record {
  pre_items = [];
  post_items = [];
  lists = record {
    holds = record { chain = refl; tail = refl; distinct = tt };
    other_holds = record { chain = refl; tail = refl; distinct = tt };
    apart = tt;
    other_apart = tt;
  };
  pre_contents = refl;
  post_contents = refl;
  same_mask = refl;
}
