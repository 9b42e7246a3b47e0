-- ===== src/Flow/Fill.antt =====
-- `nt_write_fillbuffer` of neat_core.c. Whether an allocation succeeds is an argument.
pub mod Append
pub mod Queue
use neat.Base.{
  ℕ, ◌+◌, ◌*◌, ◌/◌, ◌%◌, ◌^◌, Bool, true, false, not, ◌||◌, List, [], ◌∷◌, none, some, length,
  replicate, leb, ◌==◌, if◌then◌else◌,
}
use neat.Flow.Stack.{is_tcp}
use neat.Flow.Memory.{cells, write_at, read_at, resize}
use neat.Flow.State.{Code, Message, Flow, Run, done, fault}

-- What a write asks for besides its bytes.
pub record Options : Type 0 where
  pub stream_id : ℕ
  pub unordered : Bool
  pub pr_method : ℕ
  pub pr_value : ℕ

abbrev pub empty_message : Options → Message
empty_message o = record {
  buffered = [];
  buffered_offset = 0;
  buffered_size = 0;
  buffered_allocation = 0;
  stream_id = o.stream_id % 2 ^ 16;
  unordered = o.unordered;
  pr_method = o.pr_method;
  pr_value = o.pr_value;
}

-- `(n + 8191) & ~8191`.
unfoldable pub round_up : ℕ → ℕ
round_up n = (n + 8191) / 8192 * 8192

-- memcpy of the new bytes behind the pending ones, `at` of the block.
unfoldable pub copy_in : Message → ℕ → List ℕ → Run Message
copy_in msg pos buffer = elim (write_at msg.buffered pos (cells buffer)) [
  | none ↦ fault
  | some mem ↦
      done Code.ok
        (record msg { buffered = mem; buffered_size = msg.buffered_size + length buffer })
]

-- The pending bytes move to the front of a new block.
unfoldable pub move_to_front : Message → ℕ → List ℕ → Run Message
unfolding copy_in
move_to_front msg needed buffer =
    elim (read_at msg.buffered msg.buffered_offset msg.buffered_size) [
      | none ↦ fault
      | some pending ↦ elim (write_at (replicate needed none) 0 pending) [
        | none ↦ fault
        | some mem ↦
            copy_in
              (record msg { buffered = mem; buffered_offset = 0; buffered_allocation = needed })
              msg.buffered_size buffer
      ]
    ]

-- The part of the function behind the choice of the message.
unfoldable pub append_bytes : Message → List ℕ → Bool → Run Message
unfolding copy_in move_to_front round_up
append_bytes msg buffer allocates =
    let needed = round_up (length buffer + msg.buffered_size) in
    if leb (msg.buffered_offset + msg.buffered_size + length buffer) msg.buffered_allocation
    then copy_in msg (msg.buffered_offset + msg.buffered_size) buffer
    else if msg.buffered_offset == 0
    then (if allocates
        then copy_in
            (record msg { buffered = resize msg.buffered needed; buffered_allocation = needed })
            msg.buffered_size buffer
        else done Code.out_of_memory (record msg { buffered = [] }))
    else (if allocates then move_to_front msg needed buffer else done Code.out_of_memory msg)

abbrev pub map_run : {A B : Type 0} → (A → B) → Run A → Run B
map_run f (done c a) = done c (f a)
map_run f fault = fault

-- Update of the last message of the queue; the empty queue has none.
unfoldable pub on_last : (Message → Run Message) → List Message → Run (List Message)
on_last f [] = fault
on_last f (m ∷ []) = map_run (λ m'. m' ∷ []) (f m)
on_last f (m ∷ n ∷ ms) = map_run (λ ms'. m ∷ ms') (on_last f (n ∷ ms))

unfoldable pub is_empty {ℓ} : {A : Type ℓ} → List A → Bool
is_empty [] = true
is_empty (x ∷ xs) = false

-- TAILQ_INSERT_TAIL.
abbrev pub insert_tail {ℓ} : {A : Type ℓ} → List A → A → List A
insert_tail [] a = a ∷ []
insert_tail (x ∷ xs) a = x ∷ insert_tail xs a

-- Every stack but TCP starts a message for each write.
unfoldable pub starts_message : Flow → Bool
unfolding is_empty
starts_message flow = not (is_tcp flow.socket.stack) || is_empty flow.buffered_messages

-- `nt_write_fillbuffer`.
unfoldable pub write_fillbuffer : Flow → List ℕ → Options → Bool → Bool → Run Flow
unfolding append_bytes on_last starts_message
write_fillbuffer flow buffer o new_message allocates =
    if length buffer == 0
    then done Code.ok flow
    else if starts_message flow
    then (if new_message
        then map_run (λ ms. record flow { buffered_messages = ms })
            (on_last (λ m. append_bytes m buffer allocates)
              (insert_tail flow.buffered_messages (empty_message o)))
        else done Code.out_of_memory flow)
    else if o.stream_id == 0
    then map_run (λ ms. record flow { buffered_messages = ms })
        (on_last (λ m. append_bytes m buffer allocates) flow.buffered_messages)
    else fault
