-- ===== src/Flow/Read/Conserves.antt =====
-- Reads of the read buffer keep and hand over the bytes that wait in it in order.
use neat.Base.{
  ℕ, ◌+◌, ◌-◌, ◌≤◌, ◌<◌, ◌≡◌, refl, ap, sym, ◌∙◌, true, false, ◌||◌, Bool-cases, inl, inr, List,
  ◌++◌, some, arith, length, ltb, ◌==◌, min, append-nil,
}
use neat.Flow.Memory.{Block}
use neat.Flow.Memory.Window.{window, write_at-Written, read_at-window, window_split, length-window}
use neat.Flow.State.{Code, Flow, Run, done}
use neat.Flow.Stack.{base_stack}
use neat.Flow.Read.{
  ReadTag, Received, Reading, reading, nothing_read, shift, take_buffer, is_webrtc,
  is_message_stack, read_message, read_from_lower_layer,
}

-- The read buffer is allocated and holds what it counts.
pub record IsReadable (flow : Flow) : Type 0 where
  pub allocated : 0 < length flow.read_buffer
  pub within : flow.read_buffer_size ≤ length flow.read_buffer

-- The bytes that wait to be read.
abbrev pub waiting : Flow → Block
waiting flow = window flow.read_buffer 0 flow.read_buffer_size

-- A read of k bytes: they are the front of what waited, and the rest still waits.
pub record Took (flow : Flow) (k : ℕ) (r : Reading) : Type 0 where
  pub actual_set : r.actual ≡ some k
  pub count : length r.bytes ≡ k
  pub in_order : r.bytes ++ waiting r.flow ≡ waiting flow
  pub readable : IsReadable r.flow

-- A successful read that took k bytes.
abbrev pub TakesBytes : Flow → ℕ → Run Reading → Type 0
TakesBytes flow k run = (r : Reading) × (run ≡ done Code.ok r) × Took flow k r

shift-TakesBytes :
    (flow : Flow) (amt : ℕ) (optional : List ReadTag)
    → IsReadable flow
    → amt < flow.read_buffer_size
    → TakesBytes flow amt (shift flow amt (window flow.read_buffer 0 amt) optional)
unfolding shift
shift-TakesBytes flow amt optional v h =
    let size = flow.read_buffer_size in
    let rest = window flow.read_buffer amt (size - amt) in
    let l : length rest ≡ size - amt =
      length-window flow.read_buffer amt (size - amt) (omega (arith, v.within)) in
    let (mem, e, w) =
      write_at-Written flow.read_buffer rest 0 0 0 (omega arith) (omega (arith, v.within, l)) in
    let f : length (window flow.read_buffer 0 amt) ≡ amt =
      length-window flow.read_buffer 0 amt (omega (arith, v.within)) in
    let z : 0 + amt ≡ amt = omega arith in
    let split : window flow.read_buffer 0 amt ++ rest ≡ waiting flow =
      ap (λ a. window flow.read_buffer 0 amt ++ window flow.read_buffer a (size - amt)) (sym z)
      ∙ (window_split flow.read_buffer 0 size amt (omega arith)) in
    let q =
      ap (λ z. window flow.read_buffer 0 amt ++ z) (w.extended (size - amt) (omega (arith, l))) in
    rw (read_at-window flow.read_buffer amt (size - amt) (omega (arith, v.within)), e, shift)
      (
        reading _ _ optional,
        refl,
        record {
          actual_set = ap (λ n. some n) f;
          count = f;
          in_order = q ∙ split;
          readable = record {
            allocated = omega (arith, v.allocated, w.same_length);
            within = omega (arith, v.within, w.same_length);
          };
        },
      )

take_buffer-TakesBytes :
    (flow : Flow) (amt : ℕ) (optional : List ReadTag)
    → IsReadable flow
    → TakesBytes flow (min amt flow.read_buffer_size) (take_buffer flow amt optional)
unfolding take_buffer
take_buffer-TakesBytes flow amt optional v =
    let some_cells : (length flow.read_buffer == 0) ≡ false = ground (arith, v.allocated) in
    elim (Bool-cases (ltb amt flow.read_buffer_size)) [
      | inl e ↦
          let h : amt < flow.read_buffer_size = ground arith in
          let m : min amt flow.read_buffer_size ≡ amt = omega arith in
          rw (some_cells, e, read_at-window flow.read_buffer 0 amt (omega (arith, v.within)), m)
            (shift-TakesBytes flow amt optional v h)
      | inr e ↦
          let h : flow.read_buffer_size ≤ amt = ground arith in
          let m : min amt flow.read_buffer_size ≡ flow.read_buffer_size = omega arith in
          let l =
            length-window flow.read_buffer 0 flow.read_buffer_size (omega (arith, v.within)) in
          rw
            (
              some_cells,
              e,
              read_at-window flow.read_buffer 0 flow.read_buffer_size (omega (arith, v.within)),
              m,
            )
            (
              reading _ _ optional,
              refl,
              record {
                actual_set = ap (λ n. some n) l;
                count = l;
                in_order = append-nil _;
                readable = record { allocated = v.allocated; within = omega arith };
              },
            )
    ]

-- A successful read that took all that waits, after which the flow waits for another message.
abbrev pub TakesMessage : Flow → Run Reading → Type 0
TakesMessage flow run =
    (r : Reading) × (run ≡ done Code.ok r)
    × Took flow flow.read_buffer_size r
    × (r.flow.read_buffer_size ≡ 0)
    × (r.flow.read_buffer_msg_complete ≡ false)

take_buffer-TakesMessage :
    (flow : Flow) (amt : ℕ) (optional : List ReadTag)
    → IsReadable flow
    → flow.read_buffer_size ≤ amt
    → TakesMessage flow (take_buffer flow amt optional)
unfolding take_buffer
take_buffer-TakesMessage flow amt optional v h =
    let some_cells : (length flow.read_buffer == 0) ≡ false = ground (arith, v.allocated) in
    let e : ltb amt flow.read_buffer_size ≡ false = ground arith in
    let l = length-window flow.read_buffer 0 flow.read_buffer_size (omega (arith, v.within)) in
    rw
      (
        some_cells,
        e,
        read_at-window flow.read_buffer 0 flow.read_buffer_size (omega (arith, v.within)),
      )
      (
        reading _ _ optional,
        refl,
        record {
          actual_set = ap (λ n. some n) l;
          count = l;
          in_order = append-nil _;
          readable = record { allocated = v.allocated; within = omega arith };
        },
        refl,
        refl,
      )

-- A read of a flow that keeps message boundaries, by what is in the read buffer.
pub data ReadsMessage (flow : Flow) (amt : ℕ) : Run Reading → Type 0 where
  incomplete :
      flow.read_buffer_msg_complete ≡ false
      → ReadsMessage flow amt (done Code.would_block (nothing_read flow))
  too_big :
      flow.read_buffer_msg_complete ≡ true
      → amt < flow.read_buffer_size
      → ReadsMessage flow amt (done Code.message_too_big (nothing_read flow))
  whole :
      (run : Run Reading)
      → flow.read_buffer_msg_complete ≡ true
      → flow.read_buffer_size ≤ amt
      → TakesMessage flow run
      → ReadsMessage flow amt run

-- On UDP, UDP-Lite and SCTP, a read of a flow with a read buffer that preserves message
-- boundaries, blocks until a message is complete, refuses a message that is larger than the
-- caller's buffer and then leaves the flow as it was, and otherwise hands over the whole message
-- and leaves an empty buffer without a complete message, so that the next read blocks.
pub read_from_lower_layer-boundaries :
    (flow : Flow) (amt : ℕ) (optional : List ReadTag) (answer : Received)
    → IsReadable flow
    → is_webrtc flow.socket.stack ≡ false
    → is_message_stack (base_stack flow.socket.stack) ≡ true
    → flow.preserve_message_boundaries ≡ true
    → ReadsMessage flow amt (read_from_lower_layer flow amt optional answer)
unfolding read_from_lower_layer
read_from_lower_layer-boundaries flow amt optional answer v w m p =
    elim (Bool-cases flow.read_buffer_msg_complete) [
      | inl c ↦ elim (Bool-cases (ltb amt flow.read_buffer_size)) [
        | inl e ↦
            simp (w, m, p, c, e, read_from_lower_layer, read_message) (too_big c (ground arith))
        | inr e ↦
            let h : flow.read_buffer_size ≤ amt = ground arith in
            simp (w, m, p, c, e, read_from_lower_layer, read_message)
              (whole _ c h (take_buffer-TakesMessage flow amt optional v h))
      ]
      | inr c ↦ simp (w, m, p, c, read_from_lower_layer, read_message) (incomplete c)
    ]

-- On the stacks that fill the read buffer, WebRTC, UDP, UDP-Lite and SCTP, a read of a flow
-- without message boundaries that has bytes waiting takes as many of them as fit, in order, and
-- the rest still waits.
pub read_from_lower_layer-stream :
    (flow : Flow) (amt : ℕ) (optional : List ReadTag) (answer : Received)
    → IsReadable flow
    → is_webrtc flow.socket.stack || is_message_stack (base_stack flow.socket.stack) ≡ true
    → flow.preserve_message_boundaries ≡ false
    → 0 < flow.read_buffer_size
    → TakesBytes flow
        (min amt flow.read_buffer_size)
        (read_from_lower_layer flow amt optional answer)
unfolding read_from_lower_layer
read_from_lower_layer-stream flow amt optional answer v s p b =
    let n : (flow.read_buffer_size == 0) ≡ false = ground arith in
    let t = take_buffer-TakesBytes flow amt optional v in
    elim (Bool-cases (is_webrtc flow.socket.stack)) [
      | inl w ↦ simp (w, read_from_lower_layer) t
      | inr w ↦
          let m : is_message_stack (base_stack flow.socket.stack) ≡ true = ground arith in
          simp (w, m, p, n, read_from_lower_layer, read_message) t
    ]
