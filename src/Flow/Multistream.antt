-- ===== src/Flow/Multistream.antt =====
-- Flows that share an SCTP association (the build with SCTP_MULTISTREAMING): the lookup by stream,
-- the opening of a stream by nt_he_open (neat_he.c), the delivery in io_readable, the read in
-- nt_read_from_lower_layer and the reset of streams (neat_core.c). `none` is a failed assertion or an
-- access through NULL or to a flow that is gone.
pub mod Streams
pub mod Demultiplex
pub mod Collision
pub mod Changes
pub mod Resets
mod Examples
use neat.Base.{
  ℕ, ◌+◌, ◌%◌, ◌^◌, Bool, true, false, not, ◌&&◌, List, [], ◌∷◌, ◌++◌, Option, none, some, ltb,
  ◌==◌, length, if◌then◌else◌,
}
use neat.Flow.State.{Code, ok, would_block, message_too_big}

-- `struct neat_flow` as a flow of the association. `name` tells flows with one multistream_id apart.
pub record Stream : Type 0 where
  pub name : ℕ
  pub multistream_id : ℕ
  pub read_queue : List (List ℕ)
  pub reset_in : Bool
  pub reset_out : Bool
  pub is_open : Bool

-- `struct neat_pollable_socket` with multistream set; the streams are `sctp_multistream_flows`.
pub record Association : Type 0 where
  pub streams : List Stream
  pub sctp_streams_used : ℕ
  pub sctp_streams_available : ℕ
  pub sctp_neat_peer : Bool
  pub is_closed : Bool

-- The calls of the application's callbacks, with the name of the flow; all of them are set.
pub data Event : Type 0 where
  connected readable closed : ℕ → Event

-- The loop of `nt_sctp_get_flow_by_sid`.
unfoldable pub get_flow_by_sid : List Stream → ℕ → Option Stream
get_flow_by_sid [] sid = none
get_flow_by_sid (flow ∷ streams) sid =
    if flow.multistream_id == sid then some flow else get_flow_by_sid streams sid

-- A change of the flow that the lookup finds.
unfoldable pub update : List Stream → ℕ → (Stream → Stream) → List Stream
update [] sid f = []
update (flow ∷ streams) sid f =
    if flow.multistream_id == sid then f flow ∷ streams else flow ∷ update streams sid f

-- LIST_REMOVE of the flow that the lookup finds.
unfoldable pub remove : List Stream → ℕ → List Stream
remove [] sid = []
remove (flow ∷ streams) sid =
    if flow.multistream_id == sid then streams else flow ∷ remove streams sid

abbrev pub new_stream : ℕ → ℕ → Stream
new_stream name sid = record {
  name = name;
  multistream_id = sid;
  read_queue = [];
  reset_in = false;
  reset_out = false;
  is_open = true;
}

-- A uint16_t that is incremented or decremented.
abbrev pub plus_one : ℕ → ℕ
plus_one n = (n + 1) % 2 ^ 16

abbrev pub minus_one : ℕ → ℕ
minus_one n = (n + 65535) % 2 ^ 16

-- The test of `nt_find_multistream_socket` on the streams of the association.
unfoldable pub has_stream : Association → Bool
has_stream socket =
    socket.sctp_neat_peer && ltb socket.sctp_streams_used socket.sctp_streams_available

-- A flow that uses the association, in `nt_he_open`.
unfoldable pub open_stream : Association → ℕ → Association
open_stream socket name =
    let used = plus_one socket.sctp_streams_used in
    record socket { streams = new_stream name used ∷ socket.streams; sctp_streams_used = used }

-- A new incoming flow, in `io_readable`, by whether neat_new_flow and strdup succeed; its message is
-- thrown away.
unfoldable pub accept_stream : Bool → Association → ℕ → ℕ → Association × List Event
accept_stream false socket name sid = (socket, [])
accept_stream true socket name sid = (
  record socket {
    streams = new_stream name sid ∷ socket.streams;
    sctp_streams_used = plus_one socket.sctp_streams_used;
  },
  connected name ∷ [],
)

abbrev pub enqueue : List ℕ → Stream → Stream
enqueue message flow = record flow { read_queue = flow.read_queue ++ message ∷ [] }

-- A message that is queued for its flow; it is lost if calloc fails.
abbrev pub queued : Bool → Association → ℕ → List ℕ → Stream → Association × List Event
queued false socket sid message flow = (socket, [])
queued true socket sid message flow = (
  record socket { streams = update socket.streams sid (enqueue message) },
  readable flow.name ∷ [],
)

-- The delivery of n > 0 bytes to their flow, which has to be there, by whether calloc succeeds; the
-- realloc that makes the buffer smaller does. recvmsg returns 0 at the end of the association: no
-- bytes are buffered elsewhere, and the socket is to be closed.
unfoldable pub deliver : Bool → Association → ℕ → List ℕ → Option (Association × List Event)
deliver allocates socket sid [] = some (record socket { is_closed = true }, [])
deliver allocates socket sid (byte ∷ bytes) = elim (get_flow_by_sid socket.streams sid) [
  | none ↦ none
  | some flow ↦ some (queued allocates socket sid (byte ∷ bytes) flow)
]

-- What `io_readable` does with what recvmsg has read from a stream; name is for a new flow.
unfoldable pub receive :
    Bool → Bool → Association → ℕ → ℕ → List ℕ → Option (Association × List Event)
receive creates allocates socket name sid message =
    if ltb 0 sid && socket.sctp_neat_peer
    then elim (get_flow_by_sid socket.streams sid) [
      | none ↦ some (accept_stream creates socket name sid)
      | some flow ↦ deliver allocates socket sid message
    ]
    else deliver allocates socket sid message

-- `nt_read_from_lower_layer` for a flow of an association; amt is the size of the buffer.
unfoldable pub read : Stream → ℕ → Code × List ℕ × Stream
read flow amt = elim flow.read_queue [
  | [] ↦ if flow.reset_in then (ok, [], flow) else (would_block, [], flow)
  | message ∷ messages ↦
      if ltb amt (length message)
      then (message_too_big, [], flow)
      else (ok, message, record flow { read_queue = messages })
]

-- A flow that is reset in both directions is closed, and leaves the list if its state is open.
unfoldable pub close_stream : Association → Stream → Association × List Event
close_stream socket flow =
    let counted = record socket { sctp_streams_used = minus_one socket.sctp_streams_used } in
    if flow.is_open
    then (
      record counted { streams = remove socket.streams flow.multistream_id },
      closed flow.name ∷ [],
    )
    else (counted, [])

abbrev pub reset_in_of : Stream → Stream
reset_in_of flow = record flow { reset_in = true }

abbrev pub reset_out_of : Stream → Stream
reset_out_of flow = record flow { reset_out = true }

-- SCTP_STREAM_RESET_INCOMING_SSN for a flow.
unfoldable pub reset_incoming : Association → Stream → Option (Association × List Event)
reset_incoming socket flow =
    if flow.reset_in
    then none
    else let marked = record socket {
      streams = update socket.streams flow.multistream_id reset_in_of;
    } in
      if flow.reset_out
      then some (close_stream marked flow)
      else some (marked, readable flow.name ∷ [])

-- SCTP_STREAM_RESET_OUTGOING_SSN for a flow.
unfoldable pub reset_outgoing : Association → Stream → Option (Association × List Event)
reset_outgoing socket flow =
    if flow.reset_out
    then none
    else let marked = record socket {
      streams = update socket.streams flow.multistream_id reset_out_of;
    } in
      if flow.reset_in then some (close_stream marked flow) else some (marked, [])

-- The direction of an event that resets streams.
pub data Direction : Type 0 where
  incoming outgoing : Direction

unfoldable pub reset_one : Direction → Association → Stream → Option (Association × List Event)
reset_one incoming socket flow = reset_incoming socket flow
reset_one outgoing socket flow = reset_outgoing socket flow

-- `nt_sctp_handle_reset_stream` for an event with one direction; the context of a flow that is not
-- found is read through NULL.
unfoldable pub handle_reset_stream :
    Direction → List ℕ → Association → Option (Association × List Event)
handle_reset_stream direction [] socket = some (socket, [])
handle_reset_stream direction (sid ∷ sids) socket = elim (get_flow_by_sid socket.streams sid) [
  | none ↦ none
  | some flow ↦ elim (reset_one direction socket flow) [
    | none ↦ none
    | some (socket', events) ↦ elim (handle_reset_stream direction sids socket') [
      | none ↦ none
      | some (last, more) ↦ some (last, events ++ more)
    ]
  ]
]
