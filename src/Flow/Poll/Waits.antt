-- ===== src/Flow/Poll/Waits.antt =====
-- What a flow waits for, and that `nt_update_poll_handle` has the event loop wait for it.
use neat.Base.{
  ◌≡◌, ◌↔◌, ◌⊎◌, refl, sym, ◌∙◌, Bool, true, false, not, ◌||◌, Bool-cases, inl, inr, Option, none,
  some, arith, if◌then◌else◌,
}
use neat.Flow.Stack.{base_stack, is_sctp}
use neat.Flow.State.{Events, Flow}
use neat.Flow.Poll.{wants_read, wants_write, update_poll_handle}

-- What a flow waits to read: data for its application, the events of an SCTP association that its
-- application follows, or a notification.
pub data WaitsToRead (flow : Flow) : Type 0 where
  data_asked : flow.operations.on_readable ≡ true → WaitsToRead flow
  close_asked :
      is_sctp (base_stack flow.socket.stack) ≡ true
      → flow.operations.on_close ≡ true
      → WaitsToRead flow
  network_asked :
      is_sctp (base_stack flow.socket.stack) ≡ true
      → flow.operations.on_network_status_changed ≡ true
      → WaitsToRead flow
  failure_asked :
      is_sctp (base_stack flow.socket.stack) ≡ true
      → flow.operations.on_send_failure ≡ true
      → WaitsToRead flow
  notice_due : flow.socket.sctp_notification_wait ≡ true → WaitsToRead flow

-- Why a flow waits to write: its application asked for it, the connection of an SCTP flow is to be
-- reported, or bytes are left to send.
pub data WaitsToWrite (flow : Flow) : Type 0 where
  room_asked : flow.operations.on_writable ≡ true → WaitsToWrite flow
  connect_due :
      is_sctp (base_stack flow.socket.stack) ≡ true
      → flow.first_write_pending ≡ true
      → WaitsToWrite flow
  bytes_left : flow.is_draining ≡ true → WaitsToWrite flow

-- The event loop polls for exactly that, and not at all if it is nothing.
pub data Polls (flow : Flow) : Type 0 where
  polls :
      (mask : Events)
      → flow.is_polling ≡ true
      → flow.polled ≡ some mask
      → ((mask.readable ≡ true) ↔ WaitsToRead flow)
      → ((mask.writable ≡ true) ↔ WaitsToWrite flow)
      → Polls flow
  is_idle :
      flow.is_polling ≡ false
      → flow.polled ≡ none
      → ¬ (WaitsToRead flow)
      → ¬ (WaitsToWrite flow)
      → Polls flow

read_waits : (flow : Flow) → wants_read flow ≡ true → WaitsToRead flow
unfolding wants_read
read_waits flow e = elim (Bool-cases flow.operations.on_readable) [
  | inl a ↦ data_asked a
  | inr a ↦ elim (Bool-cases flow.socket.sctp_notification_wait) [
    | inl n ↦ notice_due n
    | inr n ↦
        let s : is_sctp (base_stack flow.socket.stack) ≡ true = ground (arith, e, a, n) in
        elim (Bool-cases flow.operations.on_close) [
          | inl c ↦ close_asked s c
          | inr c ↦ elim (Bool-cases flow.operations.on_network_status_changed) [
            | inl w ↦ network_asked s w
            | inr w ↦ failure_asked s (ground (arith, e, a, n, c, w))
          ]
        ]
  ]
]

waits_read : (flow : Flow) → WaitsToRead flow → wants_read flow ≡ true
unfolding wants_read
waits_read flow (data_asked a) = ground (arith, a)
waits_read flow (close_asked s a) = ground (arith, s, a)
waits_read flow (network_asked s a) = ground (arith, s, a)
waits_read flow (failure_asked s a) = ground (arith, s, a)
waits_read flow (notice_due a) = ground (arith, a)

write_waits : (flow : Flow) → wants_write flow ≡ true → WaitsToWrite flow
unfolding wants_write
write_waits flow e = elim (Bool-cases flow.operations.on_writable) [
  | inl a ↦ room_asked a
  | inr a ↦ elim (Bool-cases flow.is_draining) [
    | inl d ↦ bytes_left d
    | inr d ↦ connect_due (ground (arith, e, a, d)) (ground (arith, e, a, d))
  ]
]

waits_write : (flow : Flow) → WaitsToWrite flow → wants_write flow ≡ true
unfolding wants_write
waits_write flow (room_asked a) = ground (arith, a)
waits_write flow (connect_due s a) = ground (arith, s, a)
waits_write flow (bytes_left a) = ground (arith, a)

-- A registration does not change what a flow waits for.
abbrev with_poll : Flow → Bool → Option Events → Flow
with_poll flow b mask = record flow { is_polling = b; polled = mask }

Polls-with_poll :
    (flow : Flow)
    → Polls (
        with_poll flow (wants_read flow || wants_write flow) (
          if wants_read flow || wants_write flow
          then some (record { readable = wants_read flow; writable = wants_write flow })
          else none))
unfolding wants_read wants_write
Polls-with_poll flow = elim (Bool-cases (wants_read flow || wants_write flow)) [
  | inl e ↦
      let mask : Events = record { readable = wants_read flow; writable = wants_write flow } in
      let after = with_poll flow true (some mask) in
      simp (e) (
        polls mask refl refl (read_waits after, waits_read after)
          (write_waits after, waits_write after))
  | inr e ↦
      let after = with_poll flow false none in
      let r : wants_read after ≡ false = ground (arith, e) in
      let w : wants_write after ≡ false = ground (arith, e) in
      simp (e) (
        is_idle refl refl (λ h. absurd (let z = sym r ∙ waits_read after h in cc))
          (λ h. absurd (let z = sym w ∙ waits_write after h in cc)))
]

closed_or_Polls :
    (b : Bool) (x y : Flow)
    → (b ≡ false → x.handle_open ≡ false)
    → Polls y
    → ((if not b then x else y).handle_open ≡ false) ⊎ Polls (if not b then x else y)
closed_or_Polls true x y h p = inr p
closed_or_Polls false x y h p = inl (h refl)

-- After a registration the event loop polls for exactly what the flow waits for, if its handle is
-- open.
pub update_poll_handle-Polls :
    (flow : Flow)
    → ((update_poll_handle flow).handle_open ≡ false) ⊎ Polls (update_poll_handle flow)
unfolding update_poll_handle
update_poll_handle-Polls flow =
    closed_or_Polls flow.handle_open flow _ (λ e. e) (Polls-with_poll flow)
