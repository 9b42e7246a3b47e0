-- ===== src/Flow/Write/Watches.antt =====
-- After a write, the event loop waits for the socket to become writable if bytes are left.
use neat.Base.{
  [], ◌+◌, ◌%◌, ◌^◌, drop, ◌≡◌, ap, ℕ, Bool, true, false, not, ◌||◌, Bool-cases, inl, inr, List,
  Option, some, none, length, arith, if◌then◌else◌,
}
use neat.Flow.State.{Code, Flow, Events, Run, done, fault}
use neat.Flow.Fill.{is_empty, write_fillbuffer}
use neat.Flow.Flush.{Answer, Chunk}
use neat.Flow.Poll.{wants_write, wants_read, update_poll_handle}
use neat.Flow.Write.{
  Tlv, Arguments, buffer_options, Direct, sent, broken, after_fill, read_arguments, no_arguments,
  chosen_stream, stream_of, too_big, send_direct, send_or_buffer, write_to_lower_layer,
}

-- A flow with a usable handle that drains is polled for writing.
abbrev pub WatchesFlow : Flow → Type 0
WatchesFlow flow =
    flow.handle_open ≡ true
    → flow.is_draining ≡ true
    → (events : Events) × (flow.polled ≡ some events) × (events.writable ≡ true)

abbrev pub Watches : Run (Flow × List Chunk) → Type 0
Watches (done Code.ok (flow, log)) = WatchesFlow flow
Watches (done _ (flow, log)) = Unit {0}
Watches fault = Unit {0}

wants_write_draining : (flow : Flow) → flow.is_draining ≡ true → wants_write flow ≡ true
unfolding wants_write
wants_write_draining flow d = ground arith

update_poll_handle-WatchesFlow : (flow : Flow) → WatchesFlow (update_poll_handle flow)
unfolding update_poll_handle
update_poll_handle-WatchesFlow flow = elim (Bool-cases flow.handle_open) [
  | inl e ↦ simp (e) (λ h d.
      let w = wants_write_draining flow d in
      let any : wants_read flow || wants_write flow ≡ true = ground arith in
      (
        record { readable = wants_read flow; writable = wants_write flow },
        ap
            (λ b.
              if b
              then some (record { readable = wants_read flow; writable = wants_write flow })
              else none)
            any,
        w,
      ))
  | inr e ↦ simp (e) (λ h d. cc)
]

after_fill-Watches : (run : Run Flow) (log : List Chunk) → Watches (after_fill run log)
after_fill-Watches (done Code.ok flow) log =
    update_poll_handle-WatchesFlow
      (record flow { is_draining = not (is_empty flow.buffered_messages) })
after_fill-Watches (done Code.would_block flow) log = tt
after_fill-Watches (done Code.bad_argument flow) log = tt
after_fill-Watches (done Code.io flow) log = tt
after_fill-Watches (done Code.dns flow) log = tt
after_fill-Watches (done Code.internal flow) log = tt
after_fill-Watches (done Code.security flow) log = tt
after_fill-Watches (done Code.unable flow) log = tt
after_fill-Watches (done Code.message_too_big flow) log = tt
after_fill-Watches (done Code.remote flow) log = tt
after_fill-Watches (done Code.out_of_memory flow) log = tt
after_fill-Watches fault log = tt

-- After a write that returns NEAT_OK, whatever the kernel and the allocations answered, a flow
-- whose poll handle is usable and that drains is polled for writing, so that its backlog will be
-- flushed.
pub write_to_lower_layer-Watches :
    (flow : Flow) (buffer : List ℕ) (optional : List Tlv) (answer : Answer)
    (new_message allocates : Bool)
    → Watches (write_to_lower_layer flow buffer optional answer new_message allocates)
unfolding write_to_lower_layer send_or_buffer
write_to_lower_layer-Watches flow buffer optional answer new_message allocates =
    go (chosen_stream flow (read_arguments optional no_arguments).stream_id)
  where
    a : Arguments
    a = read_arguments optional no_arguments

    chosen :
        (n : ℕ) (direct : Direct)
        → Watches (elim direct [
          | broken no_entry ↦
              done Code.io (record flow { is_closing = flow.is_closing || no_entry }, [])
          | sent k counted log ↦
              after_fill
                (write_fillbuffer
                  (record flow { bytes_sent = (flow.bytes_sent + counted) % 2 ^ 64 })
                  (drop k buffer)
                  (buffer_options a n)
                  new_message
                  allocates)
                log
        ])
    chosen n (broken no_entry) = tt
    chosen n (sent k counted log) = after_fill-Watches _ log

    sized :
        (n : ℕ) (big : Bool)
        → Watches (
            if big
            then done Code.message_too_big (flow, [])
            else send_or_buffer flow a (stream_of flow n) buffer answer new_message allocates)
    sized n true = tt
    sized n false = chosen (stream_of flow n) (send_direct flow a (stream_of flow n) buffer answer)

    go :
        (c : Option ℕ)
        → Watches (elim c [
          | none ↦ done Code.bad_argument (flow, [])
          | some n ↦
              if too_big flow (length buffer)
              then done Code.message_too_big (flow, [])
              else send_or_buffer flow a (stream_of flow n) buffer answer new_message allocates
        ])
    go none = tt
    go (some n) = sized n (too_big flow (length buffer))
