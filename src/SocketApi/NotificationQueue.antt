-- ===== src/SocketApi/NotificationQueue.antt =====
-- The notification queue of socketapi/notificationqueue.c: two linked lists of nodes on a heap.
pub mod Chain
pub mod Refines
pub mod Clear
use neat.Base.{
  ℕ, zero, suc, ◌/◌, ◌%◌, ◌^◌, Bool, true, false, ◌||◌, Option, none, some, leb, ◌==◌,
  if◌then◌else◌,
}

-- `struct notification_queue_node` with the header of its content.
pub record Node : Type 0 where
  pub next : Option ℕ
  pub nnh_type : ℕ
  pub nnh_flags : ℕ
  pub nnh_length : ℕ

-- The nodes that are allocated, by their address.
abbrev pub Heap : Type 0
Heap = ℕ → Option Node

abbrev pub update : Heap → ℕ → Option Node → Heap
update heap p v q = if p == q then v else heap q

-- A list of a queue: its first and its last node, where none is NULL.
pub record Ends : Type 0 where
  pub first : Option ℕ
  pub last : Option ℕ

-- `struct notification_queue`.
pub record Queue : Type 0 where
  pub pre_read : Ends
  pub post_read : Ends
  pub event_mask : ℕ

abbrev pub empty_ends : Ends
empty_ends = record { first = none; last = none }

-- `nq_new`.
abbrev pub new_queue : Queue
new_queue = record { pre_read = empty_ends; post_read = empty_ends; event_mask = 0 }

abbrev pub is_some : {A : Type 0} → Option A → Bool
is_some none = false
is_some (some a) = true

-- `nq_has_data`.
unfoldable pub has_data : Queue → Bool
has_data queue = is_some queue.pre_read.first || is_some queue.post_read.first

-- What is behind the last node of a list is stored at `p`; none is a write to memory that is not
-- allocated.
abbrev pub link : Heap → ℕ → ℕ → Option Heap
link heap p a = elim (heap p) [
  | none ↦ none
  | some node ↦ some (update heap p (some (record node { next = some a })))
]

-- The end of `nq_enqueue` for one of the lists.
unfoldable pub push : Heap → Ends → ℕ → Option (Heap × Ends)
push heap ends a = elim ends.last [
  | none ↦ some (heap, record { first = some a; last = some a })
  | some p ↦ elim (link heap p a) [
    | none ↦ none
    | some linked ↦ some (linked, record { first = ends.first; last = some a })
  ]
]

-- A new node; `length` is the size of its content.
abbrev pub new_node : ℕ → ℕ → Node
new_node type length = record { next = none; nnh_type = type; nnh_flags = 0; nnh_length = length }

-- `(1 << type) & nq_event_mask`.
unfoldable pub is_requested : Queue → ℕ → Bool
is_requested queue type = queue.event_mask / 2 ^ type % 2 == 1

-- A run: none is undefined behaviour, else what is returned, the heap and the queue.
abbrev pub Run : Type 0
Run = Option (Option ℕ × Heap × Queue)

unfoldable pub push_node : Heap → Queue → Bool → ℕ → Run
push_node heap queue is_pre_read a =
    if is_pre_read
    then elim (push heap queue.pre_read a) [
      | none ↦ none
      | some pushed ↦ some (some a, pushed.0, record queue { pre_read = pushed.1 })
    ]
    else elim (push heap queue.post_read a) [
      | none ↦ none
      | some pushed ↦ some (some a, pushed.0, record queue { post_read = pushed.1 })
    ]

-- `nq_enqueue`; `block` is what malloc returns. A shift of the signed 1 by 31 or more is undefined.
unfoldable pub enqueue : Heap → Queue → Bool → ℕ → ℕ → Option ℕ → Run
enqueue heap queue is_pre_read type length block =
    if leb 31 type
    then none
    else if is_requested queue type
    then elim block [
      | none ↦ some (none, heap, queue)
      | some a ↦ push_node (update heap a (some (new_node type length))) queue is_pre_read a
    ]
    else some (none, heap, queue)

abbrev pub same_pointer : Option ℕ → Option ℕ → Bool
same_pointer none none = true
same_pointer (some p) (some q) = p == q
same_pointer _ _ = false

-- `nq_dequeue` for one of the lists.
unfoldable pub pop : Heap → Ends → Option (Option ℕ × Ends)
pop heap ends = elim ends.first [
  | none ↦ some (
    none,
    record { first = none; last = if same_pointer none ends.last then none else ends.last },
  )
  | some p ↦ elim (heap p) [
    | none ↦ none
    | some node ↦ some (
      some p,
      record {
        first = node.next;
        last = if same_pointer (some p) ends.last then none else ends.last;
      },
    )
  ]
]

-- `nq_dequeue`; the node that is returned is the caller's to delete.
unfoldable pub dequeue : Heap → Queue → Bool → Run
dequeue heap queue from_pre_read =
    if from_pre_read
    then elim (pop heap queue.pre_read) [
      | none ↦ none
      | some popped ↦ some (popped.0, heap, record queue { pre_read = popped.1 })
    ]
    else elim (pop heap queue.post_read) [
      | none ↦ none
      | some popped ↦ some (popped.0, heap, record queue { post_read = popped.1 })
    ]

-- `nqn_delete`: free.
abbrev pub delete : Heap → ℕ → Heap
delete heap p = update heap p none

-- The loop of `nq_clear` over one list, with fuel; none is a read of memory that is not allocated, or
-- too little fuel.
unfoldable pub clear_from : ℕ → Heap → Option ℕ → Option Heap
clear_from fuel heap none = some heap
clear_from zero heap (some p) = none
clear_from (suc fuel) heap (some p) = elim (heap p) [
  | none ↦ none
  | some node ↦ clear_from fuel (delete heap p) node.next
]

-- `nq_clear`, which is also `nq_delete`.
unfoldable pub clear : ℕ → Heap → Queue → Option (Heap × Queue)
clear fuel heap queue = elim (clear_from fuel heap queue.pre_read.first) [
  | none ↦ none
  | some cleared ↦ elim (clear_from fuel cleared queue.post_read.first) [
    | none ↦ none
    | some rest ↦ some (rest, record queue { pre_read = empty_ends; post_read = empty_ends })
  ]
]
