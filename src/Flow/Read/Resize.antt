-- ===== src/Flow/Read/Resize.antt =====
-- What `resize_read_buffer` leaves.
use neat.Base.{◌-◌, ◌≤◌, ◌<◌, ◌≡◌, ◌⊎◌, refl, Bool, true, Bool-cases, inl, inr, arith, length, ltb}
use neat.Flow.Memory.Window.{length-resize, take-resize}
use neat.Flow.State.{Flow}
use neat.Flow.Read.{threshold, needed, resize_read_buffer}
use neat.Flow.Read.Conserves.{waiting}

-- The read buffer has the size that is recorded, and what waits fits in it.
pub record IsSized (flow : Flow) : Type 0 where
  pub recorded : length flow.read_buffer ≡ flow.read_buffer_allocation
  pub fits : flow.read_buffer_size ≤ flow.read_buffer_allocation

-- The size of the receive buffer is unknown or at least 4 bytes.
abbrev pub Known : Flow → Type 0
Known flow = (flow.socket.read_size ≡ 0) ⊎ (4 ≤ flow.socket.read_size)

-- A call that returns READ_OK: what waited still waits, and there is room for more.
pub record Resized (flow : Flow) (result : Bool × Flow) : Type 0 where
  pub read_ok : result.0 ≡ true
  pub sized : IsSized result.1
  pub has_room : result.1.read_buffer_size < result.1.read_buffer_allocation
  pub kept : waiting result.1 ≡ waiting flow

threshold_lower : (flow : Flow) → Known flow → 8192 ≤ threshold flow
unfolding threshold
threshold_lower flow (inl e) = ground arith
threshold_lower flow (inr h) = ground arith

needed_lower :
    (flow : Flow)
    → Known flow
    → IsSized flow
    → (flow.read_buffer_size < needed flow) × (flow.read_buffer_allocation ≤ needed flow)
needed_lower flow k v = let t = threshold_lower flow k in ground (arith, v.fits)

-- With memory to be had, a buffer of the recorded size, and the receive buffer of the socket
-- unknown or of at least 4 bytes, the function returns READ_OK; what waited to be read still
-- waits, and there is room behind it.
pub resize_read_buffer-Resized :
    (flow : Flow) → Known flow → IsSized flow → Resized flow (resize_read_buffer flow true)
unfolding resize_read_buffer
resize_read_buffer-Resized flow k v =
    let t = threshold_lower flow k in
    let (room, grown) = needed_lower flow k v in
    elim (Bool-cases (ltb (flow.read_buffer_allocation - flow.read_buffer_size) (threshold flow))) [
      | inl e ↦ simp (e) (record {
        read_ok = refl;
        sized = record {
          recorded = length-resize flow.read_buffer (needed flow);
          fits = omega arith;
        };
        has_room = room;
        kept =
            take-resize flow.read_buffer flow.read_buffer_size (needed flow)
              (omega (arith, v.fits, v.recorded)) (omega arith);
      })
      | inr e ↦
          simp (e)
            (record { read_ok = refl; sized = v; has_room = ground (arith, v.fits); kept = refl })
    ]
