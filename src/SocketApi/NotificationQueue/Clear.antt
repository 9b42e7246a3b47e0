-- ===== src/SocketApi/NotificationQueue/Clear.antt =====
-- `nq_clear` ends, and frees the nodes of the queue and no others.
use neat.Base.{
  ℕ, zero, suc, ◌≡◌, ◌≤◌, refl, ap, sym, ◌∙◌, List, [], ◌∷◌, length, Option, none, some, arith,
  length-map,
}
use neat.SocketApi.NotificationQueue.{Heap, delete, Queue, empty_ends, clear_from, clear}
use neat.SocketApi.NotificationQueue.Chain.{
  Item, Chain, Avoids, Distinct, Apart, update_self, update_ne, Chain-update,
}
use neat.SocketApi.NotificationQueue.Refines.{Fifos, Refines, content}

-- None of the items is allocated.
abbrev pub AllFree : Heap → List Item → Type 0
AllFree heap [] = Unit
AllFree heap (i ∷ is) = (heap i.address ≡ none) × AllFree heap is

-- The end of the loop over one list.
record Frees (heap after : Heap) (is : List Item) : Type 0 where
  frees : AllFree after is
  frame : (a : ℕ) → Avoids a is → after a ≡ heap a

clear_from-Frees :
    (fuel : ℕ) (heap : Heap) (q : Option ℕ) (is : List Item)
    → Chain heap q is
    → Distinct is
    → length is ≤ fuel
    → (after : Heap) × (clear_from fuel heap q ≡ some after) × Frees heap after is
unfolding clear_from
clear_from-Frees fuel heap q [] c d f =
    (heap, rw (c, clear_from) refl, record { frees = tt; frame = λ a h. refl })
clear_from-Frees zero heap q (i ∷ is) c d f = absurd (omega arith)
clear_from-Frees (suc fuel) heap q (i ∷ is) (e, next, n, c) (a, d) f =
    let (after, r, z) =
      clear_from-Frees fuel (delete heap i.address) next is
        (Chain-update heap i.address none next is a c) d (omega arith) in
    (
      after,
      rw (e, n, clear_from) r,
      record {
        frees = (z.frame i.address a ∙ update_self heap i.address none, z.frees);
        frame = λ b h. z.frame b (h.1) ∙ update_ne heap none (λ g. h.0 (sym g));
      },
    )

-- A list apart from what was freed is as it was.
Chain-frame :
    (heap after : Heap) (xs : List Item) (q : Option ℕ) (ys : List Item)
    → Frees heap after xs
    → Apart ys xs
    → Chain heap q ys
    → Chain after q ys
Chain-frame heap after xs q [] z p c = c
Chain-frame heap after xs q (y ∷ ys) z (h, p) (e, next, n, c) =
    (e, next, z.frame y.address h ∙ n, Chain-frame heap after xs next ys z p c)

AllFree-frame :
    (heap after : Heap) (xs ys : List Item)
    → Frees heap after ys
    → Apart xs ys
    → AllFree heap xs
    → AllFree after xs
AllFree-frame heap after [] ys z p f = tt
AllFree-frame heap after (x ∷ xs) ys z (h, p) (n, f) =
    (z.frame x.address h ∙ n, AllFree-frame heap after xs ys z p f)

-- What `nq_clear` leaves: the nodes of the queue are free, and the others are as they were.
pub record Cleared (heap : Heap) (pre_items post_items : List Item) (after : Heap) : Type 0 where
  pub pre_freed : AllFree after pre_items
  pub post_freed : AllFree after post_items
  pub frame : (a : ℕ) → Avoids a pre_items → Avoids a post_items → after a ≡ heap a

-- With a round for each notification that waits, `nq_clear` on a queue that represents two
-- abstract queues ends: it leaves both lists empty and the event mask as it was, has freed each
-- node of the queue once, and no other.
pub clear-Cleared :
    (heap : Heap) (queue : Queue) (fifos : Fifos) (fuel : ℕ) (r : Refines heap queue fifos)
    → length fifos.pre_read ≤ fuel
    → length fifos.post_read ≤ fuel
    → (after : Heap) × (clear fuel heap queue
        ≡ some (after, record queue { pre_read = empty_ends; post_read = empty_ends }))
      × Cleared heap r.pre_items r.post_items after
unfolding clear
clear-Cleared heap queue fifos fuel r h g =
    let l = r.lists in
    let m = length-map r.pre_items content in
    let n = length-map r.post_items content in
    let (first, e, z) =
      clear_from-Frees fuel heap queue.pre_read.first r.pre_items l.holds.chain l.holds.distinct
        (omega (arith, m, ap length r.pre_contents)) in
    let (after, f, w) =
      clear_from-Frees fuel first queue.post_read.first r.post_items
        (Chain-frame heap first r.pre_items queue.post_read.first r.post_items z l.other_apart
          l.other_holds.chain)
        l.other_holds.distinct (omega (arith, n, ap length r.post_contents)) in
    (
      after,
      rw (e, f, clear) refl,
      record {
        pre_freed = AllFree-frame first after r.pre_items r.post_items w l.apart z.frees;
        post_freed = w.frees;
        frame = λ a p q. w.frame a q ∙ z.frame a p;
      },
    )
