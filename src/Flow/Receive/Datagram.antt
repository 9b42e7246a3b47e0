-- ===== src/Flow/Receive/Datagram.antt =====
-- What `io_readable` does with a datagram: it goes to the flow itself, or to the flow that it opens.
use neat.Base.{
  ℕ, ◌≤◌, ◌<◌, ◌≡◌, refl, ap, sym, ◌∙◌, Bool, true, false, not, ◌&&◌, Bool-cases, subst, inl, inr,
  List, [], ◌∷◌, Option, none, some, arith, length, take, ltb, ◌==◌, length-take, length-map,
}
use neat.Flow.Stack.{udp}
use neat.Flow.Memory.{Block, cells, write_at}
use neat.Flow.Memory.Window.{window, write_at-Written, read_at-window, length-window}
use neat.Flow.State.{Flow}
use neat.Flow.Callbacks.{Event}
use neat.Flow.Notifications.{read_with_zero}
use neat.Flow.Read.{resize_read_buffer}
use neat.Flow.Read.Conserves.{waiting}
use neat.Flow.Read.Resize.{IsSized, Known}
use neat.Flow.Receive.{
  Kernel, Acceptance, Handled, accept_datagram, received_datagram, receive_datagram, io_readable,
}
use neat.Flow.Receive.Growth.{resize_read_buffer-Roomy, conclude-flow}

-- A write that does not fit faults.
write_at-too_long : (mem bs : Block) → length mem < length bs → write_at mem 0 bs ≡ none
unfolding write_at
write_at-too_long mem [] h = absurd (omega arith)
write_at-too_long [] (b ∷ bs) h = refl
write_at-too_long (c ∷ mem) (b ∷ bs) h = rw (write_at-too_long mem bs (omega arith)) refl

-- A write at the front of a block that is long enough.
write_at-fits :
    (mem bs : Block)
    → length bs ≤ length mem
    → (mem' : Block) × (write_at mem 0 bs ≡ some mem')
      × (length mem' ≡ length mem)
      × (window mem' 0 (length bs) ≡ bs)
write_at-fits mem bs h =
    let (mem', e, w) = write_at-Written mem bs 0 0 0 (omega arith) (omega arith) in
    (mem', e, w.same_length, w.extended (length bs) (omega arith))

-- What becomes of n bytes that an accepting flow has received, and of which `space` fit in the
-- buffer of the new flow.
pub data Accepted (bytes : Block) (space : ℕ) : Option Handled → Type 0 where
  overflow : space < length bytes → Accepted bytes space none
  hands_over :
      (left : Handled) (new_flow : Flow) (events : List Event)
      → length bytes ≤ space
      → left.verdict ≡ read_with_zero
      → left.accepted ≡ some (new_flow, events)
      → new_flow.read_buffer_msg_complete ≡ true
      → new_flow.accept_pending ≡ false
      → waiting new_flow ≡ bytes
      → Accepted bytes space (some left)

-- The buffer of the new flow after `resize_read_buffer`.
abbrev pub space : Acceptance → ℕ
space acceptance =
    (resize_read_buffer acceptance.new_flow acceptance.kernel.allocates).1.read_buffer_allocation

accept_datagram-Accepted :
    (flow : Flow) (n : ℕ) (acceptance : Acceptance)
    → n ≤ length flow.read_buffer
    → Known acceptance.new_flow
    → IsSized acceptance.new_flow
    → acceptance.kernel.allocates ≡ true
    → Accepted (window flow.read_buffer 0 n) (space acceptance) (accept_datagram flow n acceptance)
unfolding accept_datagram
accept_datagram-Accepted flow n acceptance h k v a =
    let (mem, allocation, e, r) = resize_read_buffer-Roomy acceptance.new_flow k v in
    let bytes = window flow.read_buffer 0 n in
    let l : length bytes ≡ n = length-window flow.read_buffer 0 n (omega arith) in
    let s : length mem ≡ allocation = r.has_room.sized.recorded in
    let sp : space acceptance ≡ allocation =
      ap (λ b. (resize_read_buffer acceptance.new_flow b).1.read_buffer_allocation) a
      ∙ ap (λ x. x.1.read_buffer_allocation) e in
    subst (λ m. Accepted bytes m (accept_datagram flow n acceptance)) (sym sp)
      (elim (Bool-cases (ltb allocation (length bytes))) [
        | inl g ↦
            let f = write_at-too_long mem bytes (ground (arith, s)) in
            simp (a, e, read_at-window flow.read_buffer 0 n (omega arith), f)
              (overflow (ground arith))
        | inr g ↦
            let (mem', f, _, w) = write_at-fits mem bytes (ground (arith, s)) in
            let q =
              conclude-flow
                (record acceptance.new_flow {
                  read_buffer = mem';
                  read_buffer_size = n;
                  read_buffer_allocation = allocation;
                  read_buffer_msg_complete = true;
                  accept_pending = false;
                })
                0 acceptance.kernel.has_byte in
            simp (a, e, read_at-window flow.read_buffer 0 n (omega arith), f)
              (hands_over _ _ _ (ground arith) refl refl (ap (λ f. f.read_buffer_msg_complete) q)
                (ap (λ f. f.accept_pending) q) (ap waiting q ∙ ap (window mem' 0) (sym l) ∙ w))
      ])

and_last : (b : Bool) → (b && false) ≡ false
and_last true = refl
and_last false = refl

-- An open UDP flow, or one that accepts, without a complete datagram.
pub record Listens (flow : Flow) : Type 0 where
  pub over_udp : flow.socket.stack ≡ udp
  pub known : Known flow
  pub sized : IsSized flow
  pub open_message : flow.read_buffer_msg_complete ≡ false

-- How many bytes of a datagram a flow takes.
abbrev pub capacity : Flow → ℕ
capacity flow = (resize_read_buffer flow true).1.read_buffer_allocation

-- After the first steps, the datagram stands at the front of a buffer of the same length.
received :
    (flow : Flow) (kernel : Kernel) (acceptance : Acceptance) (bytes : List ℕ)
    → Listens flow
    → kernel.allocates ≡ true
    → kernel.datagram ≡ some bytes
    → (not flow.accept_pending && not flow.operations.on_readable) ≡ false
    → (mem : Block) × (allocation : ℕ) × (io_readable flow kernel acceptance
        ≡ received_datagram
            (record flow {
              read_buffer = mem;
              read_buffer_allocation = allocation;
              read_buffer_size = length (take allocation bytes);
            })
            (length (take allocation bytes))
            kernel
            acceptance)
      × (length mem ≡ allocation)
      × (window mem 0 (length (take allocation bytes)) ≡ cells (take allocation bytes))
      × (0 < allocation)
      × (capacity flow ≡ allocation)
unfolding io_readable receive_datagram
received flow kernel acceptance bytes v a d g =
    let (mem, allocation, e, r) = resize_read_buffer-Roomy flow v.known v.sized in
    let s : length mem ≡ allocation = r.has_room.sized.recorded in
    let t = length-take allocation bytes in
    let m : length (cells (take allocation bytes)) ≡ length (take allocation bytes) =
      length-map (take allocation bytes) some in
    let (mem', f, k, w) =
      write_at-fits mem (cells (take allocation bytes)) (omega (arith, t, s, m)) in
    let first : (not flow.operations.on_readable && flow.accept_pending && false) ≡ false =
      and_last (not flow.operations.on_readable && flow.accept_pending) in
    simp (first, v.over_udp, v.open_message, a, e, d, g, f)
      (
        mem',
        allocation,
        refl,
        k ∙ s,
        ap (window mem' 0) (sym m) ∙ w,
        omega (arith, r.has_room.positive),
        ap (λ x. x.1.read_buffer_allocation) e,
      )

received_datagram-accepts :
    (flow : Flow) (n : ℕ) (kernel : Kernel) (acceptance : Acceptance)
    → (n == 0) ≡ false
    → flow.accept_pending ≡ true
    → received_datagram flow n kernel acceptance
      ≡ accept_datagram (record flow { read_buffer_msg_complete = false }) n acceptance
unfolding received_datagram
received_datagram-accepts flow n kernel acceptance z p = simp (z, p) refl

-- When a datagram that is not empty comes to an accepting UDP flow, with memory to be had and
-- both buffers of the recorded size, `io_readable` hands over what the accepting flow has room
-- for: the new flow has exactly these bytes as a complete message and accepts no more. If they
-- are more than the buffer of the new flow has room for, the copy writes beyond that buffer.
pub io_readable-Accepted :
    (flow : Flow) (kernel : Kernel) (acceptance : Acceptance) (bytes : List ℕ)
    → Listens flow
    → flow.accept_pending ≡ true
    → kernel.allocates ≡ true
    → kernel.datagram ≡ some bytes
    → 0 < length bytes
    → Known acceptance.new_flow
    → IsSized acceptance.new_flow
    → acceptance.kernel.allocates ≡ true
    → Accepted
        (cells (take (capacity flow) bytes))
        (space acceptance)
        (io_readable flow kernel acceptance)
io_readable-Accepted flow kernel acceptance bytes v p a d h k s b =
    let (mem, allocation, e, l, w, o, c) =
      received flow kernel acceptance bytes v a d (simp (p) refl) in
    let n = length (take allocation bytes) in
    let t = length-take allocation bytes in
    let after = record flow {
      read_buffer = mem;
      read_buffer_allocation = allocation;
      read_buffer_size = n;
    } in
    let f = e ∙ received_datagram-accepts after n kernel acceptance (ground (arith, t)) p in
    let q =
      accept_datagram-Accepted (record after { read_buffer_msg_complete = false }) n acceptance
        (omega (arith, t, l)) k s b in
    rw (c, f)
      (subst
        (λ m.
          Accepted m (space acceptance)
            (accept_datagram (record after { read_buffer_msg_complete = false }) n acceptance))
        w q)
