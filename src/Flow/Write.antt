-- ===== src/Flow/Write.antt =====
-- `nt_write_to_lower_layer` of neat_core.c, in the build of Flush.antt, without DTLS over SCTP.
pub mod Conserves
pub mod Watches
use neat.Base.{
  ℕ, ◌+◌, ◌-◌, ◌%◌, ◌^◌, ℤ, pos, negsuc, is_negative, to_word, Bool, true, false, not, ◌&&◌, ◌||◌,
  List, [], ◌∷◌, Option, none, some, length, take, drop, min, ltb, ◌==◌, if◌then◌else◌,
}
use neat.Flow.Stack.{Stack, tcp, mptcp, sctp, sctp_udp, is_sctp}
use neat.Flow.Memory.{Block, cells}
use neat.Flow.State.{Code, Flow, Run, done, fault}
use neat.Flow.Fill.{Options, is_empty, write_fillbuffer}
use neat.Flow.Flush.{Answer, room, would_block, failed, Chunk, offered, on_sctp}
use neat.Flow.Poll.{update_poll_handle}

-- `struct neat_tlv`: a tag and a value; `none` stands for a value of another type than integer.
pub data Tag : Type 0 where
  tag_stream_id tag_pr_method tag_pr_value tag_unordered tag_other : Tag

pub record Tlv : Type 0 where
  pub tag : Tag
  pub integer : Option ℤ

-- The locals that the optional arguments set; `none` is a cleared `has_` flag.
pub record Arguments : Type 0 where
  pub stream_id : Option ℤ
  pub pr_method : Option ℤ
  pub pr_value : Option ℤ
  pub unordered : Option ℤ

abbrev pub no_arguments : Arguments
no_arguments = record { stream_id = none; pr_method = none; pr_value = none; unordered = none }

abbrev pub set_argument : Tag → ℤ → Arguments → Arguments
set_argument tag_stream_id v a = record a { stream_id = some v }
set_argument tag_pr_method v a = record a { pr_method = some v }
set_argument tag_pr_value v a = record a { pr_value = some v }
set_argument tag_unordered v a = record a { unordered = some v }
set_argument tag_other v a = a

unfoldable pub read_arguments : List Tlv → Arguments → Arguments
read_arguments [] a = a
read_arguments (t ∷ ts) a =
    read_arguments ts (elim t.integer [ none ↦ a | some v ↦ set_argument t.tag v a ])

abbrev pub or_zero : Option ℤ → ℤ
or_zero none = pos 0
or_zero (some v) = v

-- The stream that the write goes to, before the override by `multistream_id`; none is a bad argument.
unfoldable pub chosen_stream : Flow → Option ℤ → Option ℕ
chosen_stream flow none = some 0
chosen_stream flow (some (negsuc n)) = none
chosen_stream flow (some (pos n)) =
    if flow.socket.sctp_streams_available == 1 && not (n == 0)
    then some 0
    else if not (is_sctp flow.socket.stack)
    then some 0
    else some n

abbrev pub stream_of : Flow → ℕ → ℕ
stream_of flow n = if flow.multistream_id == 0 then n else flow.multistream_id

-- Whether the stack takes a message whole or not at all.
unfoldable pub atomic : Flow → Stack → Bool
atomic flow tcp = false
atomic flow mptcp = false
atomic flow sctp_udp = not flow.socket.sctp_explicit_eor
atomic flow sctp = not flow.socket.sctp_explicit_eor
atomic flow _ = true

unfoldable pub too_big : Flow → ℕ → Bool
unfolding atomic
too_big flow amt =
    atomic flow flow.socket.stack && ltb 0 flow.socket.write_size && ltb flow.socket.write_size amt

abbrev pub is_set : Option ℤ → Bool
is_set none = false
is_set (some (pos n)) = not (n == 0)
is_set (some (negsuc n)) = true

abbrev pub reliability : Option ℤ → Option ℤ → ℕ × ℕ
reliability (some m) (some v) = (to_word 16 m, to_word 32 v)
reliability _ _ = (0, 0)

-- The ancillary data of the direct `sendmsg`: that of SCTP goes with plain flows only.
abbrev pub direct_chunk : Flow → Arguments → ℕ → ℕ → ℕ → Block → Chunk
direct_chunk flow a stream len amt bytes =
    let described = on_sctp flow && not flow.security_needed in
    record {
      bytes = bytes;
      sid = if described then some (stream % 2 ^ 16) else none;
      unordered = described && is_set a.unordered;
      end_of_record = described && flow.socket.sctp_explicit_eor && (len == amt);
      partial_reliability = if described then some (reliability a.pr_method a.pr_value) else none;
    }

-- The direct `sendmsg`: how many bytes the kernel takes, what `rv` adds to a counter modulo 2 ^ 64,
-- and what goes out; or the end of the write with an error.
pub data Direct : Type 0 where
  sent : ℕ → ℕ → List Chunk → Direct
  broken : Bool → Direct

unfoldable pub send_direct : Flow → Arguments → ℕ → List ℕ → Answer → Direct
unfolding offered
send_direct flow a stream buffer answer =
    if is_empty flow.buffered_messages && ltb 0 (length buffer) && flow.socket.has_fd
    then elim answer [
      | would_block ↦ sent 0 (2 ^ 64 - 1) []
      | failed no_entry ↦ broken no_entry
      | room n ↦
          let len = offered flow (length buffer) in
          sent (min n len) (min n len) (
            direct_chunk flow a stream len (length buffer)
              (take (min n len) (take len (cells buffer)))
            ∷ [])
    ]
    else sent 0 0 []

-- What the buffering of the rest leaves: draining exactly if something is buffered.
abbrev pub settled : Flow → Flow
settled flow =
    update_poll_handle (record flow { is_draining = not (is_empty flow.buffered_messages) })

abbrev pub after_fill : Run Flow → List Chunk → Run (Flow × List Chunk)
after_fill (done Code.ok flow) log = done Code.ok (settled flow, log)
after_fill (done code flow) log = done code (flow, log)
after_fill fault log = fault

abbrev pub buffer_options : Arguments → ℕ → Options
buffer_options a stream = record {
  stream_id = stream;
  unordered = not (to_word 8 (or_zero a.unordered) == 0);
  pr_method = to_word 8 (or_zero a.pr_method);
  pr_value = to_word 32 (or_zero a.pr_value);
}

-- The part behind the checks: send what the kernel takes, count it and buffer the rest.
unfoldable pub send_or_buffer :
    Flow → Arguments → ℕ → List ℕ → Answer → Bool → Bool → Run (Flow × List Chunk)
unfolding send_direct
send_or_buffer flow a stream buffer answer new_message allocates =
    elim (send_direct flow a stream buffer answer) [
      | broken no_entry ↦
          done Code.io (record flow { is_closing = flow.is_closing || no_entry }, [])
      | sent n counted log ↦
          after_fill
            (write_fillbuffer (record flow { bytes_sent = (flow.bytes_sent + counted) % 2 ^ 64 })
              (drop n buffer) (buffer_options a stream) new_message allocates)
            log
    ]

-- `nt_write_to_lower_layer`.
unfoldable pub write_to_lower_layer :
    Flow → List ℕ → List Tlv → Answer → Bool → Bool → Run (Flow × List Chunk)
unfolding read_arguments chosen_stream too_big send_or_buffer
write_to_lower_layer flow buffer optional answer new_message allocates =
    let a = read_arguments optional no_arguments in
    elim (chosen_stream flow a.stream_id) [
      | none ↦ done Code.bad_argument (flow, [])
      | some n ↦
          if too_big flow (length buffer)
          then done Code.message_too_big (flow, [])
          else send_or_buffer flow a (stream_of flow n) buffer answer new_message allocates
    ]
