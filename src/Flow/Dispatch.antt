-- ===== src/Flow/Dispatch.antt =====
-- `uvpollable_cb` and `io_connected` of neat_core.c, for a socket that carries one flow, in a build
-- with neither SCTP_MULTISTREAMING nor DTLS over SCTP.
pub mod Polls
use neat.Base.{
  ℕ, Bool, true, false, not, ◌&&◌, ◌||◌, List, [], ◌∷◌, ◌++◌, Option, none, some, if◌then◌else◌,
}
use neat.Flow.Stack.{Stack, base_stack, is_sctp, is_tcp}
use neat.Flow.State.{Code, Flow}
use neat.Flow.Callbacks.{
  Event, writable, connected, shut_down, closes, accepts, if_set, io_error, io_timeout,
  notify_aborted, notify_close,
}
use neat.Flow.Flush.{Answer, Chunk}
use neat.Flow.Poll.{update_poll_handle}
use neat.Flow.Receive.{Kernel, Acceptance, Handled, is_udp, io_readable}
use neat.Flow.Writable.{Wrote, wrote, running as in_flush, fault as write_fault, io_writable}

-- SO_ERROR.
pub data SocketError : Type 0 where
  etimedout econnreset epipe another_error : SocketError

-- What libuv and the kernel tell during one call: whether the status is negative, the events,
-- SO_ERROR and the number of streams of SCTP_STATUS if getsockopt does not fail, and the answers to
-- the flush and to the receipt.
pub record Signals : Type 0 where
  pub poll_failed : Bool
  pub is_readable : Bool
  pub is_writable : Bool
  pub so_error : Option SocketError
  pub streams : Option ℕ
  pub answers : List Answer
  pub kernel : Kernel
  pub acceptance : Acceptance

-- A call: it returns with the flow, or the flow was closed and freed; or it is still in the flush.
pub data Dispatch : Type 0 where
  returns : Flow → List Event → List Chunk → Dispatch
  freed : List Event → List Chunk → Dispatch
  running : Flow → List Chunk → Dispatch
  fault : Dispatch

-- What the application's callbacks make of the flow; `io_writable` has called on_writable already.
abbrev pub replay : (Event → Flow → Flow) → List Event → Flow → Flow
replay application [] flow = flow
replay application (writable ∷ events) flow = replay application events flow
replay application (shut_down ∷ events) flow = replay application events flow
replay application (event ∷ events) flow = replay application events (application event flow)

abbrev pub streams_or_one : Option ℕ → ℕ
streams_or_one none = 1
streams_or_one (some n) = n

-- `io_connected`, up to the callback.
unfoldable pub io_connected : Flow → Option ℕ → Flow × List Event
io_connected flow streams = (
  record flow {
    socket = record flow.socket {
      sctp_streams_available =
          if is_sctp flow.socket.stack
          then streams_or_one streams
          else flow.socket.sctp_streams_available;
    };
    state_closed = false;
  },
  if_set flow.operations.on_connected connected,
)

abbrev pub socket_error_events : Flow → SocketError → List Event
socket_error_events flow etimedout = io_timeout flow
socket_error_events flow econnreset = notify_aborted flow ++ io_error flow Code.internal
socket_error_events flow epipe = notify_aborted flow ++ io_error flow Code.internal
socket_error_events flow another_error = io_error flow Code.internal

-- The branch of a negative status.
unfoldable pub poll_error : Flow → Option SocketError → List Event
poll_error flow so_error =
    if is_tcp (base_stack flow.socket.stack) || is_sctp (base_stack flow.socket.stack)
    then elim so_error [
      | none ↦ io_error flow Code.internal
      | some error ↦ socket_error_events flow error
    ]
    else io_error flow Code.internal

-- The end: the flow is closed, or its events are registered again.
unfoldable pub finish : Flow → Bool → List Event → List Chunk → Dispatch
finish flow closed events log =
    if closed
    then freed (events ++ closes ∷ notify_close flow) log
    else returns (update_poll_handle flow) events log

-- The socket is readable.
unfoldable pub read_step :
    (Event → Flow → Flow) → Signals → Flow → List Event → List Chunk → Dispatch
read_step application signals flow events log =
    if signals.is_readable
    then elim (io_readable flow signals.kernel signals.acceptance) [
      | none ↦ fault
      | some h ↦ finish (replay application h.events h.flow) h.closed (events ++ h.events) log
    ]
    else finish flow false events log

unfoldable pub after_write : (Event → Flow → Flow) → Signals → List Event → Wrote → Dispatch
after_write application signals before write_fault = fault
after_write application signals before (in_flush flow log) = running flow log
after_write application signals before (wrote flow events log) =
    read_step application signals (replay application events flow) (before ++ events) log

-- The socket is writable.
unfoldable pub write_step : (Event → Flow → Flow) → Signals → Flow → List Event → Dispatch
write_step application signals flow before =
    if signals.is_writable
    then after_write application signals before
        (io_writable (application writable) flow signals.answers)
    else read_step application signals flow before []

-- A newly created flow.
unfoldable pub connect_step : (Event → Flow → Flow) → Signals → Flow → Dispatch
connect_step application signals flow =
    if signals.is_writable && flow.first_write_pending
    then (let told = io_connected (record flow { first_write_pending = false }) signals.streams in
        write_step application signals (replay application (told.1) (told.0)) (told.1))
    else write_step application signals flow []

-- A flow that accepts: `io_readable`, or do_accept.
unfoldable pub accept_step : Signals → Flow → Dispatch
accept_step signals flow =
    if is_udp flow.socket.stack
    then elim (io_readable flow signals.kernel signals.acceptance) [
      | none ↦ fault
      | some h ↦ returns h.flow h.events []
    ]
    else returns flow (accepts ∷ []) []

-- `uvpollable_cb`; `application` is what a callback makes of the flow.
unfoldable pub uvpollable_cb : (Event → Flow → Flow) → Signals → Flow → Dispatch
uvpollable_cb application signals flow =
    if signals.is_readable && flow.accept_pending
    then accept_step signals flow
    else if signals.poll_failed
    then returns flow (poll_error flow signals.so_error) []
    else connect_step application signals flow
