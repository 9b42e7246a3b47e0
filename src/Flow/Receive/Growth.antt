-- ===== src/Flow/Receive/Growth.antt =====
-- What a call of `io_readable` does to the read buffer of an SCTP flow.
use neat.Base.{
  ℕ, zero, suc, [], ◌∷◌, ◌≤◌, ◌+◌, ◌-◌, ◌<◌, ◌≡◌, refl, ap, ◌∙◌, Bool, true, false, not, ◌&&◌, ◌||◌,
  Bool-cases, subst, inl, inr, List, ◌++◌, Option, none, some, arith, length, take, ltb, leb, ◌==◌,
  min, length-take, length-map, if◌then◌else◌,
}
use neat.Flow.Stack.{sctp, base_stack}
use neat.Flow.Memory.{Block, cells, write_at, resize}
use neat.Flow.Memory.Window.{window, write_at-Written, Written}
use neat.Flow.State.{Flow}
use neat.Flow.Read.{resize_read_buffer, threshold, needed}
use neat.Flow.Read.Conserves.{waiting}
use neat.Flow.Read.Resize.{IsSized, Known, Resized, resize_read_buffer-Resized}
use neat.Flow.Receive.{
  Kernel, message, Acceptance, Handled, room, received_message, receive_arrival, receive_sctp,
  io_readable, conclude, see_eof,
}

-- A flow whose buffer holds what it says, with room behind it.
pub record HasRoom (flow : Flow) : Type 0 where
  pub sized : IsSized flow
  pub positive : flow.read_buffer_size < flow.read_buffer_allocation

abbrev pub with_buffer : Flow → Block → ℕ → Flow
with_buffer flow mem allocation = record flow {
  read_buffer = mem;
  read_buffer_allocation = allocation;
}

-- The flow with another buffer, that holds the same bytes and has room.
pub record Roomy (flow : Flow) (mem : Block) (allocation : ℕ) : Type 0 where
  pub has_room : HasRoom (with_buffer flow mem allocation)
  pub same_waiting : window mem 0 flow.read_buffer_size ≡ waiting flow

resize_read_buffer-with_buffer :
    (flow : Flow)
    → (mem : Block) × (allocation : ℕ) × (resize_read_buffer flow true
        ≡ (true, with_buffer flow mem allocation))
unfolding resize_read_buffer
resize_read_buffer-with_buffer flow =
    elim (Bool-cases (ltb (flow.read_buffer_allocation - flow.read_buffer_size) (threshold flow))) [
      | inl e ↦ simp (e) (resize flow.read_buffer (needed flow), needed flow, refl)
      | inr e ↦ simp (e) (flow.read_buffer, flow.read_buffer_allocation, refl)
    ]

-- `resize_read_buffer` changes the buffer alone.
pub resize_read_buffer-Roomy :
    (flow : Flow)
    → Known flow
    → IsSized flow
    → (mem : Block) × (allocation : ℕ) × (resize_read_buffer flow true
        ≡ (true, with_buffer flow mem allocation))
      × Roomy flow mem allocation
resize_read_buffer-Roomy flow k v =
    let (mem, allocation, e) = resize_read_buffer-with_buffer flow in
    let r : Resized flow (true, with_buffer flow mem allocation) =
      subst (λ x. Resized flow x) e (resize_read_buffer-Resized flow k v) in
    (
      mem,
      allocation,
      e,
      record {
        has_room = record { sized = r.sized; positive = r.has_room };
        same_waiting = r.kept;
      },
    )

take-min {ℓ} : {A : Type ℓ} (m n : ℕ) (xs : List A) → take m (take n xs) ≡ take (min m n) xs
take-min zero n xs = let z : min 0 n ≡ 0 = omega arith in rw z refl
take-min (suc m) zero xs = let z : min (suc m) 0 ≡ 0 = omega arith in rw z refl
take-min (suc m) (suc n) [] = let z : min (suc m) (suc n) ≡ suc (min m n) = omega arith in rw z refl
take-min (suc m) (suc n) (x ∷ xs) =
    let z : min (suc m) (suc n) ≡ suc (min m n) = omega arith in
    rw z (ap (λ l. x ∷ l) (take-min m n xs))

-- The write of r bytes that fit behind the bytes that wait.
write_at-room :
    (flow : Flow) (bytes : List ℕ) (r : ℕ)
    → HasRoom flow
    → r ≤ room flow
    → (mem : Block) × (write_at flow.read_buffer flow.read_buffer_size (cells (take r bytes))
        ≡ some mem)
      × Written flow.read_buffer 0 flow.read_buffer_size (cells (take r bytes)) mem
write_at-room flow bytes r v h =
    let l = length-take r bytes in
    let m = length-map (take r bytes) some in
    write_at-Written flow.read_buffer (cells (take r bytes)) 0 flow.read_buffer_size
      flow.read_buffer_size (omega arith)
      (omega (arith, l, m, h, v.sized.recorded, v.positive, v.sized.fits))

-- What a call leaves that received `bytes`: the buffer, the number of bytes in it and whether the
-- message is complete.
abbrev pub refilled : Flow → Block → ℕ → ℕ → Bool → Flow
refilled flow mem allocation size complete = record flow {
  read_buffer = mem;
  read_buffer_allocation = allocation;
  read_buffer_size = size;
  read_buffer_msg_complete = complete;
}

-- A call that took r of the bytes and put them behind those that waited.
pub record Advances (flow : Flow) (bytes : List ℕ) (run : Option Handled) : Type 0 where
  pub mem : Block
  pub allocation : ℕ
  pub r : ℕ
  pub left : Handled
  pub returned : run ≡ some left
  pub after :
      left.flow
      ≡ refilled flow mem allocation
          (flow.read_buffer_size + length (take r bytes))
          (leb (length bytes) r)
  pub positive : 0 < r
  pub sized : IsSized (
      refilled flow mem allocation
        (flow.read_buffer_size + length (take r bytes))
        (leb (length bytes) r))
  pub appended :
      window mem 0 (flow.read_buffer_size + length (take r bytes))
      ≡ waiting flow ++ cells (take r bytes)

flow_if :
    (b : Bool) (x y : Handled) (flow : Flow)
    → x.flow ≡ flow
    → y.flow ≡ flow
    → (if b then x else y).flow ≡ flow
flow_if true x y flow e f = e
flow_if false x y flow e f = f

-- What follows the receipt of bytes does not change the flow.
pub conclude-flow : (flow : Flow) (n : ℕ) (has_byte : Bool) → (conclude flow n has_byte).flow ≡ flow
unfolding conclude
conclude-flow flow n has_byte = flow_if _ _ _ flow refl refl

received_message-flow :
    (flow : Flow) (n : ℕ) (e : Bool) (kernel : Kernel)
    → flow.read_buffer_msg_complete ≡ false
    → 0 < n
    → (received_message flow n e kernel).flow
      ≡ record flow { read_buffer_size = flow.read_buffer_size + n; read_buffer_msg_complete = e }
unfolding received_message
received_message-flow flow n e kernel c h =
    let z : flow.read_buffer_msg_complete || e || (n == 0) ≡ e = ground arith in
    flow_if _ _ _ _
      (ap
        (λ b. record flow {
          read_buffer_size = flow.read_buffer_size + n;
          read_buffer_msg_complete = b;
        })
        z)
      (conclude-flow _ n kernel.has_byte
        ∙ ap
            (λ b. record flow {
              read_buffer_size = flow.read_buffer_size + n;
              read_buffer_msg_complete = b;
            })
            z)

-- The kernel at a call that has to do with an SCTP message: of the bytes that are still to come it
-- has at most `limit` at hand, and MSG_EOR goes with the last one.
abbrev pub delivering : ℕ → List ℕ → Kernel
delivering limit bytes = record {
  allocates = true;
  allocates_again = true;
  datagram = none;
  arrival = message (take limit bytes) (leb (length bytes) limit);
  has_byte = true;
}

receive_arrival-Advances :
    (flow : Flow) (limit : ℕ) (bytes : List ℕ) (kernel : Kernel)
    → HasRoom flow
    → flow.read_buffer_msg_complete ≡ false
    → 0 < limit
    → 0 < length bytes
    → Advances flow bytes
        (receive_arrival flow (message (take limit bytes) (leb (length bytes) limit)) kernel)
unfolding receive_arrival
receive_arrival-Advances flow limit bytes kernel v c p h =
    let r = min (room flow) limit in
    let (mem, e, w) = write_at-room flow bytes r v (omega arith) in
    let l = length-take r bytes in
    let t = length-take limit bytes in
    let m = length-map (take r bytes) some in
    let n : (length (take r bytes) == 0) ≡ false = ground (arith, l, v.positive, p, h) in
    let ends : (leb (length bytes) limit && leb (length (take limit bytes)) (room flow))
        ≡ leb (length bytes) r =
      ground (arith, t) in
    let q =
      received_message-flow (see_eof (record flow { read_buffer = mem }) (length (take r bytes)))
        (length (take r bytes)) (leb (length bytes) r) kernel c
        (omega (arith, l, v.positive, p, h)) in
    let still : (length (take r bytes) == 0) || flow.eof_seen ≡ flow.eof_seen = simp (n) refl in
    simp (take-min (room flow) limit bytes, e, ends, receive_arrival)
      (record {
        mem = mem;
        allocation = flow.read_buffer_allocation;
        r = r;
        left = _;
        returned = refl;
        after =
            q
            ∙ ap
                (λ seen.
                  record (refilled flow mem flow.read_buffer_allocation
                    (flow.read_buffer_size + length (take r bytes)) (leb (length bytes) r)) {
                      eof_seen = seen;
                    })
                still;
        positive = omega (arith, v.positive, p);
        sized = record {
          recorded = w.same_length ∙ v.sized.recorded;
          fits = omega (arith, l, v.sized.fits);
        };
        appended = w.extended _ (omega (arith, m));
      })

-- An SCTP flow that waits for the rest of a message.
pub record Expects (flow : Flow) : Type 0 where
  pub over_sctp : flow.socket.stack ≡ sctp
  pub known : Known flow
  pub sized : IsSized flow
  pub open_message : flow.read_buffer_msg_complete ≡ false
  pub not_accepting : flow.accept_pending ≡ false

receive_sctp-Advances :
    (flow : Flow) (limit : ℕ) (bytes : List ℕ)
    → Expects flow
    → 0 < limit
    → 0 < length bytes
    → Advances flow bytes (receive_sctp flow (delivering limit bytes))
unfolding receive_sctp
receive_sctp-Advances flow limit bytes v p h =
    let (mem, allocation, e, r) = resize_read_buffer-Roomy flow v.known v.sized in
    let (mem', allocation', e', r') =
      resize_read_buffer-Roomy (with_buffer flow mem allocation) v.known r.has_room.sized in
    let a =
      receive_arrival-Advances (with_buffer flow mem' allocation') limit bytes
        (delivering limit bytes) r'.has_room v.open_message p h in
    rw (e, e', receive_sctp)
      (record {
        mem = a.mem;
        allocation = a.allocation;
        r = a.r;
        left = a.left;
        returned = a.returned;
        after = a.after;
        positive = a.positive;
        sized = a.sized;
        appended =
            a.appended ∙ ap (λ w. w ++ cells (take a.r bytes)) (r'.same_waiting ∙ r.same_waiting);
      })

and_middle : (a c : Bool) {b : Bool} → b ≡ false → (a && b && c) ≡ false
and_middle true c e = rw (e) refl
and_middle false c e = refl

-- A call of `io_readable` for an SCTP flow that waits for a message takes some of its bytes and
-- puts them behind those that wait.
pub io_readable-Advances :
    (flow : Flow) (limit : ℕ) (bytes : List ℕ) (acceptance : Acceptance)
    → Expects flow
    → 0 < limit
    → 0 < length bytes
    → Advances flow bytes (io_readable flow (delivering limit bytes) acceptance)
unfolding io_readable base_stack
io_readable-Advances flow limit bytes acceptance v p h =
    let guard : (not flow.operations.on_readable && flow.accept_pending && true) ≡ false =
      and_middle (not flow.operations.on_readable) true v.not_accepting in
    simp (guard, v.over_sctp, v.open_message) (receive_sctp-Advances flow limit bytes v p h)
