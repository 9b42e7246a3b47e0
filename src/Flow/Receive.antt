-- ===== src/Flow/Receive.antt =====
-- `io_readable` of neat_core.c, in a build with neither SCTP_MULTISTREAMING nor usrsctp nor DTLS over
-- SCTP, where no socket is multistreaming. What the kernel answers is an argument.
pub mod Growth
pub mod Delivery
pub mod Datagram
use neat.Base.{
  ℕ, ◌+◌, ◌-◌, Bool, true, false, not, ◌&&◌, ◌||◌, List, [], ◌∷◌, Option, none, some, length, take,
  ltb, leb, ◌==◌, if◌then◌else◌,
}
use neat.Flow.Stack.{Stack, udp, udplite, base_stack, is_sctp, is_tcp}
use neat.Flow.Memory.{cells, read_at, write_at}
use neat.Flow.State.{Flow}
use neat.Flow.Callbacks.{Event, readable, if_set}
use neat.Flow.Notifications.{
  Verdict, read_ok, read_with_error, read_with_zero, Notification, handle_sctp_event,
}
use neat.Flow.Read.{resize_read_buffer}

-- What `recvmsg` finds on an SCTP socket: an error, the rest of a user message with whether it ends
-- the message, or a notification with its bytes. The kernel hands over what fits, and MSG_EOR with
-- the last byte.
pub data Arrival : Type 0 where
  refused : Arrival
  message : List ℕ → Bool → Arrival
  notification : List ℕ → Notification → Arrival

-- The kernel during one call: the answers to both reallocs, the datagram that waits, if `recvfrom`
-- does not fail, what waits on an SCTP socket, and whether `recv` with MSG_PEEK finds a byte.
pub record Kernel : Type 0 where
  pub allocates : Bool
  pub allocates_again : Bool
  pub datagram : Option (List ℕ)
  pub arrival : Arrival
  pub has_byte : Bool

-- The flow that `nt_find_flow` finds for the sender of a datagram, or that `do_accept` makes, and the
-- kernel while it is told.
pub record Acceptance : Type 0 where
  pub new_flow : Flow
  pub kernel : Kernel

-- What a call leaves: what it returns, the flow, whether `is_closed` of the socket was set, the
-- callbacks, and the flow that was accepted with its callbacks.
pub record Handled : Type 0 where
  pub verdict : Verdict
  pub flow : Flow
  pub closed : Bool
  pub events : List Event
  pub accepted : Option (Flow × List Event)

abbrev pub handled : Verdict → Flow → Handled
handled verdict flow = record {
  verdict = verdict;
  flow = flow;
  closed = false;
  events = [];
  accepted = none;
}

abbrev pub is_udp : Stack → Bool
is_udp udp = true
is_udp udplite = true
is_udp _ = false

-- From the peek on, with `n` bytes received: the end of a connection, or the callback.
unfoldable pub conclude : Flow → ℕ → Bool → Handled
conclude flow n has_byte =
    if (is_tcp flow.socket.stack && not has_byte)
      || (is_sctp flow.socket.stack && (n == 0) && (flow.read_buffer_size == 0))
    then record (handled read_with_zero flow) { closed = true }
    else record (handled read_ok flow) { events = if_set flow.operations.on_readable readable }

-- The part of an accepting flow from `nt_find_flow` on. The call for the new flow, whose message is
-- complete and which accepts nothing, goes straight to the peek.
unfoldable pub accept_datagram : Flow → ℕ → Acceptance → Option Handled
accept_datagram flow n acceptance =
    let resized = resize_read_buffer acceptance.new_flow acceptance.kernel.allocates in
    if not (resized.0)
    then some (record (handled read_with_error flow) { accepted = some (resized.1, []) })
    else elim (read_at flow.read_buffer 0 n) [
      | none ↦ none
      | some bytes ↦ elim (write_at (resized.1).read_buffer 0 bytes) [
        | none ↦ none
        | some mem ↦
            let told =
              conclude
                (record (resized.1) {
                  read_buffer = mem;
                  read_buffer_size = n;
                  read_buffer_msg_complete = true;
                  accept_pending = false;
                })
                0 acceptance.kernel.has_byte in
            some (record (handled read_with_zero flow) { accepted = some (told.flow, told.events) })
      ]
    ]

-- After `recvfrom` has left n bytes at the front of the buffer.
unfoldable pub received_datagram : Flow → ℕ → Kernel → Acceptance → Option Handled
received_datagram flow n kernel acceptance =
    if n == 0
    then some (handled read_with_zero (record flow { read_buffer_msg_complete = false }))
    else if flow.accept_pending
    then accept_datagram (record flow { read_buffer_msg_complete = false }) n acceptance
    else some (conclude (record flow { read_buffer_msg_complete = true }) n kernel.has_byte)

-- The branch of UDP and UDP-Lite.
unfoldable pub receive_datagram : Flow → Kernel → Acceptance → Option Handled
receive_datagram flow kernel acceptance =
    let resized = resize_read_buffer flow kernel.allocates in
    if not (resized.0)
    then some (handled read_with_error (resized.1))
    else if not flow.accept_pending && not flow.operations.on_readable
    then some (handled read_with_error (resized.1))
    else elim kernel.datagram [
      | none ↦ some (handled read_with_error (resized.1))
      | some bytes ↦
          let got = take (resized.1).read_buffer_allocation bytes in
          elim (write_at (resized.1).read_buffer 0 (cells got)) [
            | none ↦ none
            | some mem ↦
                received_datagram
                  (record (resized.1) { read_buffer = mem; read_buffer_size = length got })
                  (length got) kernel acceptance
          ]
    ]

-- After `recvmsg` has put n bytes behind those that wait, by MSG_EOR.
unfoldable pub received_message : Flow → ℕ → Bool → Kernel → Handled
received_message flow n end_of_record kernel =
    let complete = flow.read_buffer_msg_complete || end_of_record || (n == 0) in
    let received = record flow {
      read_buffer_size = flow.read_buffer_size + n;
      read_buffer_msg_complete = complete;
    } in
    if not complete && flow.preserve_message_boundaries
    then handled read_with_error received
    else conclude received n kernel.has_byte

-- A notification is read only when all of it fits.
unfoldable pub received_notification : Flow → Bool → Notification → Handled
received_notification flow end_of_record notice =
    if not end_of_record
    then handled read_with_error flow
    else let told = handle_sctp_event flow notice in
      record (handled (told.0) (told.1)) { events = told.2 }

-- `eofSeen`, set when `recvmsg` returns 0.
abbrev pub see_eof : Flow → ℕ → Flow
see_eof flow n = record flow { eof_seen = (n == 0) || flow.eof_seen }

-- The room behind the bytes that wait.
abbrev pub room : Flow → ℕ
room flow = flow.read_buffer_allocation - flow.read_buffer_size

-- The branch of SCTP behind both calls of `resize_read_buffer`.
unfoldable pub receive_arrival : Flow → Arrival → Kernel → Option Handled
receive_arrival flow refused kernel = some (handled read_with_error flow)
receive_arrival flow (message bytes ends) kernel =
    let got = take (room flow) bytes in
    elim (write_at flow.read_buffer flow.read_buffer_size (cells got)) [
      | none ↦ none
      | some mem ↦ some (
          received_message (see_eof (record flow { read_buffer = mem }) (length got)) (length got)
            (ends && leb (length bytes) (room flow)) kernel)
    ]
receive_arrival flow (notification bytes notice) kernel =
    let got = take (room flow) bytes in
    elim (write_at flow.read_buffer flow.read_buffer_size (cells got)) [
      | none ↦ none
      | some mem ↦ some (
          received_notification (see_eof (record flow { read_buffer = mem }) (length got))
            (leb (length bytes) (room flow)) notice)
    ]

-- The branch of SCTP.
unfoldable pub receive_sctp : Flow → Kernel → Option Handled
receive_sctp flow kernel =
    let first = resize_read_buffer flow kernel.allocates in
    if not (first.0)
    then some (handled read_with_error (first.1))
    else let second = resize_read_buffer (first.1) kernel.allocates_again in
      if not (second.0)
      then some (handled read_with_error (second.1))
      else receive_arrival (second.1) kernel.arrival kernel

-- `io_readable`; none is an access outside a buffer.
unfoldable pub io_readable : Flow → Kernel → Acceptance → Option Handled
io_readable flow kernel acceptance =
    if not flow.operations.on_readable && flow.accept_pending && not (is_udp flow.socket.stack)
    then some (handled read_with_error flow)
    else if is_udp flow.socket.stack && not flow.read_buffer_msg_complete
    then receive_datagram flow kernel acceptance
    else if is_sctp (base_stack flow.socket.stack) && not flow.read_buffer_msg_complete
    then receive_sctp flow kernel
    else some (conclude flow 0 kernel.has_byte)
