-- ===== src/SocketApi/Examples.antt =====
-- Bitmaps and queues to run the functions of identifierbitmap.c and notificationqueue.c on.
use neat.Base.{ℕ, Option, ◌<◌, ◌≡◌, refl, true, false, [], ◌∷◌, some, none, arith, replicate}
use neat.SocketApi.IdentifierBitmap.{Bitmap, allocate_id, free_id}
use neat.SocketApi.IdentifierBitmap.Flat.{bits}
use neat.SocketApi.IdentifierBitmap.Marks.{IsValid, used, Took}
use neat.SocketApi.IdentifierBitmap.Allocate.{allocate_id-least}
use neat.SocketApi.IdentifierBitmap.Free.{free_id-allocate_id}
use neat.SocketApi.NotificationQueue.{
  Heap, Queue, update, new_queue, new_node, empty_ends, is_requested, enqueue, dequeue, clear,
}
use neat.SocketApi.NotificationQueue.Refines.{
  Fifos, Refines, Returns, add_if, remove, returned, free_block, enqueue-Refines, dequeue-Refines,
  new_queue-Refines,
}
use neat.SocketApi.NotificationQueue.Clear.{Cleared, clear-Cleared}

-- Three identifiers in one word, of which 0 is in use.
abbrev some_free : Bitmap
some_free = record {
  entries = 3;
  available = 2;
  slots = 1;
  bitmap = (true ∷ replicate 63 false) ∷ [];
}

some_free-IsValid : IsValid some_free
some_free-IsValid = record { shaped = (refl, tt); covered = omega arith; counted = refl }

allocate_id-least_example :
    (id : ℕ) × (ibm' : Bitmap) × (allocate_id some_free ≡ some (some id, ibm'))
    × Took some_free id ibm'
    × (id < 3)
    × (used some_free id ≡ some false)
    × ((k : ℕ) → k < id → used some_free k ≡ some true)
allocate_id-least_example = allocate_id-least some_free some_free-IsValid (omega arith)

free_id-allocate_id_example :
    (id : ℕ) × (ibm' back : Bitmap) × (allocate_id some_free ≡ some (some id, ibm'))
    × (free_id ibm' id ≡ some back)
    × (bits back.bitmap ≡ bits some_free.bitmap)
    × (back.available ≡ 2)
free_id-allocate_id_example = free_id-allocate_id some_free some_free-IsValid (omega arith)

abbrev unused_heap : Heap
unused_heap p = none

-- The types 1 and 2 are requested.
abbrev asking : Queue
asking = record new_queue { event_mask = 6 }

abbrev no_notifications : Fifos
no_notifications = record { pre_read = []; post_read = []; event_mask = 6 }

enqueue-Refines_example :
    (after : Heap) × (left : Queue) × (enqueue unused_heap asking true 1 8 (some 3)
      ≡ some (returned (is_requested asking 1) (some 3), after, left))
    × Refines after left (add_if (is_requested asking 1) (some 3) no_notifications true (1, 8))
enqueue-Refines_example =
    enqueue-Refines unused_heap asking no_notifications true 1 8 (some 3)
      (new_queue-Refines unused_heap 6) (omega arith) (free_block 3 refl)

-- A notification of type 1 that waits at the address 3.
abbrev heap_of_one : Heap
heap_of_one = update unused_heap 3 (some (new_node 1 8))

abbrev queue_of_one : Queue
queue_of_one = record asking { pre_read = record { first = some 3; last = some 3 } }

abbrev one_notification : Fifos
one_notification = record no_notifications { pre_read = (1, 8) ∷ [] }

abbrev one_waits : Refines heap_of_one queue_of_one one_notification
one_waits = record {
  pre_items = record { address = 3; type = 1; length = 8 } ∷ [];
  post_items = [];
  lists = record {
    holds = record { chain = (refl, none, refl, refl); tail = refl; distinct = (tt, tt) };
    other_holds = record { chain = refl; tail = refl; distinct = tt };
    apart = (tt, tt);
    other_apart = tt;
  };
  pre_contents = refl;
  post_contents = refl;
  same_mask = refl;
}

dequeue-Refines_example :
    (r : Option ℕ) × (left : Queue) × (dequeue heap_of_one queue_of_one true
      ≡ some (r, heap_of_one, left))
    × Refines heap_of_one left ((remove one_notification true).1)
    × Returns heap_of_one r ((remove one_notification true).0)
dequeue-Refines_example = dequeue-Refines heap_of_one queue_of_one one_notification true one_waits

clear-Cleared_example :
    (after : Heap) × (clear 1 heap_of_one queue_of_one
      ≡ some (after, record queue_of_one { pre_read = empty_ends; post_read = empty_ends }))
    × Cleared heap_of_one one_waits.pre_items one_waits.post_items after
clear-Cleared_example =
    clear-Cleared heap_of_one queue_of_one one_notification 1 one_waits (omega arith) (omega arith)
