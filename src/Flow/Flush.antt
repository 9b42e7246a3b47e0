-- ===== src/Flow/Flush.antt =====
-- `nt_write_flush` of neat_core.c, in a build with neither usrsctp nor DTLS over SCTP. What the
-- kernel answers to each `sendmsg` is a list; a run that has used it up is still in the loop.
pub mod Conserves
pub mod Progress
pub mod Tidy
use neat.Base.{
  ℕ, ◌+◌, ◌-◌, Bool, true, false, not, ◌&&◌, ◌||◌, List, [], ◌∷◌, ◌++◌, Option, none, some, take,
  min, ltb, ◌==◌, if◌then◌else◌,
}
use neat.Flow.Stack.{base_stack, is_sctp}
use neat.Flow.Memory.{Block, read_at}
use neat.Flow.State.{Code, Message, Flow}
use neat.Flow.Fill.{is_empty}

-- `room n`: the kernel takes n bytes, or all that it is offered if that is less; `failed b`:
-- another error, ENOENT if b.
pub data Answer : Type 0 where
  room : ℕ → Answer
  would_block : Answer
  failed : Bool → Answer

-- What one `sendmsg` handed over: the bytes taken, and the ancillary data of an SCTP message.
pub record Chunk : Type 0 where
  pub bytes : Block
  pub sid : Option ℕ
  pub unordered : Bool
  pub end_of_record : Bool
  pub partial_reliability : Option (ℕ × ℕ)

pub data Flush (A : Type 0) : Type 0 where
  finished : Code → A → List Chunk → Flush A
  running : A → List Chunk → Flush A
  fault : Flush A

abbrev pub on_sctp : Flow → Bool
on_sctp flow = is_sctp (base_stack flow.socket.stack)

-- The length of the next `iov`, of `size` bytes that wait.
unfoldable pub offered : Flow → ℕ → ℕ
offered flow size =
    if on_sctp flow
      && flow.socket.sctp_explicit_eor
      && ltb 0 flow.socket.write_limit
      && ltb flow.socket.write_limit size
    then flow.socket.write_limit
    else size

abbrev pub chunk : Flow → Message → ℕ → Block → Chunk
chunk flow m len bytes = record {
  bytes = bytes;
  sid = if on_sctp flow then some m.stream_id else none;
  unordered = on_sctp flow && m.unordered;
  end_of_record = on_sctp flow && flow.socket.sctp_explicit_eor && (len == m.buffered_size);
  partial_reliability = none;
}

abbrev pub consume : Message → ℕ → Message
consume m rv = record m {
  buffered_offset = m.buffered_offset + rv;
  buffered_size = m.buffered_size - rv;
}

abbrev pub logged : {A : Type 0} → List Chunk → Flush A → Flush A
logged c (finished code a log) = finished code a (c ++ log)
logged c (running a log) = running a (c ++ log)
logged c fault = fault

pub data Round : Type 0 where
  stop : Code → Round
  went : Message → List Chunk → Round
  out_of_bounds : Round

-- A negative result ends the flush, unless the flow asks for security: then nobody looks at it.
abbrev pub negative : Flow → Message → Code → Round
negative flow m code = if flow.security_needed then went m [] else stop code

-- One round of the inner loop. The bytes taken leave the message, unless the flow asks for security.
unfoldable pub round : Flow → Message → Answer → Round
unfolding offered
round flow m answer =
    if flow.socket.has_fd
    then elim (read_at m.buffered m.buffered_offset (offered flow m.buffered_size)) [
      | none ↦ out_of_bounds
      | some bytes ↦ elim answer [
        | would_block ↦ negative flow m Code.would_block
        | failed _ ↦ negative flow m Code.io
        | room n ↦
            let rv = min n (offered flow m.buffered_size) in
            went (if flow.security_needed then m else consume m rv)
              (chunk flow m (offered flow m.buffered_size) (take rv bytes) ∷ [])
      ]
    ]
    else out_of_bounds

-- The two loops. Without DTLS over SCTP the body of the inner loop is empty for a secure SCTP flow,
-- so that it never ends while bytes wait.
unfoldable pub flush_from : Flow → List Answer → List Message → Flush (List Message)
unfolding round
flush_from flow answers [] = finished Code.ok [] []
flush_from flow [] (m ∷ ms) = running (m ∷ ms) []
flush_from flow (a ∷ answers) (m ∷ ms) = elim (flow.security_needed && on_sctp flow) [
  | true ↦ elim (ltb 0 m.buffered_size) [
    | true ↦ running (m ∷ ms) []
    | false ↦ flush_from flow (a ∷ answers) ms
  ]
  | false ↦ elim (round flow m a) [
    | stop code ↦ finished code (m ∷ ms) []
    | out_of_bounds ↦ fault
    | went m' log ↦ elim (ltb 0 m'.buffered_size) [
      | true ↦ logged log (flush_from flow answers (m' ∷ ms))
      | false ↦ logged log (flush_from flow answers ms)
    ]
  ]
]

abbrev in_flow : Flow → Flush (List Message) → Flush Flow
in_flow flow (finished code ms log) =
    finished code
      (record flow {
        buffered_messages = ms;
        is_draining = if is_empty ms then false else flow.is_draining;
      })
      log
in_flow flow (running ms log) = running (record flow { buffered_messages = ms }) log
in_flow flow fault = fault

-- `nt_write_flush`: with nothing buffered it returns at once.
unfoldable pub write_flush : Flow → List Answer → Flush Flow
unfolding flush_from is_empty
write_flush flow answers =
    if is_empty flow.buffered_messages
    then finished Code.ok flow []
    else in_flow flow (flush_from flow answers flow.buffered_messages)
