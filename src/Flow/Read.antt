-- ===== src/Flow/Read.antt =====
-- `nt_read_from_lower_layer` and `resize_read_buffer` of neat_core.c, in a build without
-- SCTP_MULTISTREAMING, where no socket is multistreaming.
pub mod Conserves
pub mod Resize
use neat.Base.{
  ℕ, ◌+◌, ◌-◌, ◌*◌, ◌/◌, ◌%◌, ◌^◌, Bool, true, false, not, ◌&&◌, ◌||◌, List, [], ◌∷◌, map, Option,
  none, some, take, length, min, ltb, ◌==◌, if◌then◌else◌,
}
use neat.Flow.Stack.{Stack, udp, udplite, sctp, webrtc, base_stack}
use neat.Flow.Memory.{Block, cells, write_at, read_at, resize}
use neat.Flow.State.{Code, Flow, Run, done, fault}

-- The answer of `recv`: the bytes that have arrived, of which it takes what fits, or -1 with errno
-- ECONNRESET, EWOULDBLOCK or another.
pub data Received : Type 0 where
  arrived : List ℕ → Received
  connection_reset would_block failed : Received

-- The tags of the optional arguments that a read knows, and the value that it fills in.
pub data ReadTag : Type 0 where
  stream_id partial_message_received partial_seqnum unordered unordered_seqnum : ReadTag
  transport_stack unknown : ReadTag

pub data ReadValue : Type 0 where
  integer : ℕ → ReadValue
  stack : Stack → ReadValue
  untouched : ReadValue

unfoldable pub filled : Flow → ReadTag → ReadValue
filled flow transport_stack = stack flow.socket.stack
filled flow unknown = untouched
filled flow _ = integer 0

-- What a read leaves: the flow, the bytes in the caller's buffer, `actualAmt` if it is set, the
-- optional values and whether the flow was reported as aborted.
pub record Reading : Type 0 where
  pub flow : Flow
  pub bytes : Block
  pub actual : Option ℕ
  pub values : List ReadValue
  pub aborted : Bool

abbrev pub nothing_read : Flow → Reading
nothing_read flow = record { flow = flow; bytes = []; actual = none; values = []; aborted = false }

-- The end of a read that has taken `bytes`.
abbrev pub reading : Flow → Block → List ReadTag → Reading
reading flow bytes optional = record {
  flow = flow;
  bytes = bytes;
  actual = some (length bytes);
  values = map (filled flow) optional;
  aborted = false;
}

abbrev pub finish : Flow → Block → List ReadTag → Run Reading
finish flow bytes optional = done Code.ok (reading flow bytes optional)

abbrev pub after_move : Flow → ℕ → Block → List ReadTag → Option Block → Run Reading
after_move flow amt bytes optional none = fault
after_move flow amt bytes optional (some mem) =
    finish (record flow { read_buffer = mem; read_buffer_size = flow.read_buffer_size - amt }) bytes
      optional

-- memmove of the rest to the front.
unfoldable pub shift : Flow → ℕ → Block → List ReadTag → Run Reading
shift flow amt bytes optional = elim (read_at flow.read_buffer amt (flow.read_buffer_size - amt)) [
  | none ↦ fault
  | some rest ↦ after_move flow amt bytes optional (write_at flow.read_buffer 0 rest)
]

-- From `assert(flow->readBuffer)` on: the front of the buffer, or all of it.
unfoldable pub take_buffer : Flow → ℕ → List ReadTag → Run Reading
take_buffer flow amt optional =
    if length flow.read_buffer == 0
    then fault
    else if ltb amt flow.read_buffer_size
    then elim (read_at flow.read_buffer 0 amt) [
      | none ↦ fault
      | some bytes ↦ shift flow amt bytes optional
    ]
    else elim (read_at flow.read_buffer 0 flow.read_buffer_size) [
      | none ↦ fault
      | some bytes ↦
          finish (record flow { read_buffer_size = 0; read_buffer_msg_complete = false }) bytes
            optional
    ]

abbrev pub is_message_stack : Stack → Bool
is_message_stack udp = true
is_message_stack udplite = true
is_message_stack sctp = true
is_message_stack _ = false

abbrev pub is_webrtc : Stack → Bool
is_webrtc webrtc = true
is_webrtc _ = false

-- The branch of UDP, UDP-Lite and SCTP.
unfoldable pub read_message : Flow → ℕ → List ReadTag → Run Reading
read_message flow amt optional =
    if flow.preserve_message_boundaries
    then (if not flow.read_buffer_msg_complete
        then done Code.would_block (nothing_read flow)
        else if ltb amt flow.read_buffer_size
        then done Code.message_too_big (nothing_read flow)
        else take_buffer flow amt optional)
    else if flow.read_buffer_size == 0
    then (if flow.eof_seen
        then done Code.ok (nothing_read (record flow { eof_seen = false }))
        else done Code.would_block (nothing_read flow))
    else take_buffer flow amt optional

-- The branch of the other stacks; the statistics are a 64-bit counter.
unfoldable pub read_socket : Flow → ℕ → List ReadTag → Received → Run Reading
read_socket flow amt optional (arrived bytes) =
    finish
      (record flow { bytes_received = (flow.bytes_received + length (take amt bytes)) % 2 ^ 64 })
      (cells (take amt bytes)) optional
read_socket flow amt optional connection_reset =
    done Code.io (record (nothing_read flow) { aborted = true })
read_socket flow amt optional would_block = done Code.would_block (nothing_read flow)
read_socket flow amt optional failed = done Code.io (nothing_read flow)

-- `nt_read_from_lower_layer`.
unfoldable pub read_from_lower_layer : Flow → ℕ → List ReadTag → Received → Run Reading
unfolding read_message
read_from_lower_layer flow amt optional answer =
    if is_webrtc flow.socket.stack
    then take_buffer flow amt optional
    else if is_message_stack (base_stack flow.socket.stack)
    then read_message flow amt optional
    else read_socket flow amt optional answer

-- `spaceThreshold`: a quarter of the receive buffer of the socket, rounded up to a multiple of 8192.
unfoldable pub threshold : Flow → ℕ
threshold flow =
    if ltb 0 flow.socket.read_size then (flow.socket.read_size / 4 + 8191) / 8192 * 8192 else 8192

abbrev pub needed : Flow → ℕ
needed flow =
    if flow.read_buffer_allocation == 0 then threshold flow else 2 * flow.read_buffer_allocation

-- `resize_read_buffer`, with whether it returns READ_OK; `allocates`: realloc succeeds.
unfoldable pub resize_read_buffer : Flow → Bool → Bool × Flow
unfolding threshold
resize_read_buffer flow allocates =
    if ltb (flow.read_buffer_allocation - flow.read_buffer_size) (threshold flow)
    then (if allocates
        then (
          true,
          record flow {
            read_buffer = resize flow.read_buffer (needed flow);
            read_buffer_allocation = needed flow;
          },
        )
        else (false, record flow { read_buffer = []; read_buffer_allocation = 0 }))
    else (true, flow)
