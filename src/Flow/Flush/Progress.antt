-- ===== src/Flow/Flush/Progress.antt =====
-- When the loops of the flush end: always for a plain flow that the kernel serves, and never for a
-- flow that asks for security over another stack than SCTP.
use neat.Base.{
  ℕ, ◌+◌, ◌-◌, ◌≤◌, ◌<◌, ◌≡◌, refl, ap, ◌∙◌, List, [], ◌∷◌, ◌++◌, true, false, ◌&&◌, some, arith,
  length, ltb, ltb→lt, Bool-cases, inl, inr, take, min,
}
use neat.Flow.Memory.{read_at}
use neat.Flow.Memory.Window.{window, read_at-window}
use neat.Flow.State.{Code, Message, Flow}
use neat.Flow.Fill.{is_empty}
use neat.Flow.Fill.Append.{IsValid}
use neat.Flow.Fill.Queue.{AllValid}
use neat.Flow.Flush.Conserves.{offered-le}
use neat.Flow.Flush.{
  Answer, room, would_block, failed, Chunk, finished, running, offered, chunk, consume, logged,
  went, round, flush_from, in_flow, write_flush, on_sctp,
}

-- The kernel takes at least a byte each time.
abbrev pub AllRoom : List Answer → Type 0
AllRoom [] = Unit {0}
AllRoom (room n ∷ answers) = (0 < n) × AllRoom answers
AllRoom (would_block ∷ answers) = ⊥
AllRoom (failed b ∷ answers) = ⊥

-- A round for each byte and one for each message are enough.
abbrev pub work : List Message → ℕ
work [] = 0
work (m ∷ ms) = m.buffered_size + 1 + work ms

read_offered :
    (flow : Flow) (m : Message)
    → IsValid m
    → read_at m.buffered m.buffered_offset (offered flow m.buffered_size)
      ≡ some (window m.buffered m.buffered_offset (offered flow m.buffered_size))
read_offered flow m v =
    read_at-window m.buffered m.buffered_offset (offered flow m.buffered_size)
      (omega (arith, offered-le flow m.buffered_size, v.sized, v.inside))

offered-pos : (flow : Flow) (size : ℕ) → 0 < size → 0 < offered flow size
unfolding offered
offered-pos flow size h = ground arith

-- One round that goes on with the same message, and one that ends it.
module _ (flow : Flow) (a : Answer) (answers : List Answer) (m m' : Message) (ms : List Message)
    (log : List Chunk) (sends : (flow.security_needed && on_sctp flow) ≡ false)
    (e : round flow m a ≡ went m' log) where
  step_again :
      ltb 0 m'.buffered_size ≡ true
      → flush_from flow (a ∷ answers) (m ∷ ms) ≡ logged log (flush_from flow answers (m' ∷ ms))
  unfolding flush_from
  step_again more = rw (sends, e, more, flush_from) refl

  step_next :
      ltb 0 m'.buffered_size ≡ false
      → flush_from flow (a ∷ answers) (m ∷ ms) ≡ logged log (flush_from flow answers ms)
  unfolding flush_from
  step_next spent = rw (sends, e, spent, flush_from) refl

module _ (flow : Flow) (open_fd : flow.socket.has_fd ≡ true) where
  round-room :
      (m : Message) (n : ℕ)
      → flow.security_needed ≡ false
      → IsValid m
      → (log : List Chunk) × (round flow m (room n)
          ≡ went (consume m (min n (offered flow m.buffered_size))) log)
  unfolding round
  round-room m n plain v = (
    chunk flow m len (take (min n len) (window m.buffered m.buffered_offset len)) ∷ [],
    rw (open_fd, read_offered flow m v, plain, round) refl,
  )
    where
      len : ℕ
      len = offered flow m.buffered_size

  flush_from-finishes :
      (answers : List Answer) (ms : List Message)
      → flow.security_needed ≡ false
      → AllValid ms
      → AllRoom answers
      → work ms ≤ length answers
      → (log : List Chunk) × (flush_from flow answers ms ≡ finished Code.ok [] log)
  unfolding flush_from
  flush_from-finishes answers [] plain vs rs h = ([], refl)
  flush_from-finishes [] (m ∷ ms) plain vs rs h = absurd (omega arith)
  flush_from-finishes (would_block ∷ answers) (m ∷ ms) plain vs rs h = elim rs [ ]
  flush_from-finishes (failed b ∷ answers) (m ∷ ms) plain vs rs h = elim rs [ ]
  flush_from-finishes (room n ∷ answers) (m ∷ ms) plain (v, vs) (r, rs) h =
      let (log, e) = round-room m n plain v in
      let rv = min n (offered flow m.buffered_size) in
      let sends : (flow.security_needed && on_sctp flow) ≡ false = ground arith in
      elim (Bool-cases (ltb 0 (m.buffered_size - rv))) [
        | inl more ↦
            let (later, q) =
              flush_from-finishes answers (consume m rv ∷ ms) plain
                (
                  record {
                    sized = v.sized;
                    inside = omega (arith, v.inside, offered-le flow m.buffered_size);
                  },
                  vs,
                )
                rs (fewer more) in
            (
              log ++ later,
              step_again flow (room n) answers m (consume m rv) ms log sends e more
                  ∙ ap (logged log) q,
            )
        | inr spent ↦
            let (later, q) = flush_from-finishes answers ms plain vs rs (omega arith) in
            (
              log ++ later,
              step_next flow (room n) answers m (consume m rv) ms log sends e spent
                  ∙ ap (logged log) q,
            )
      ]
    where
      fewer :
          ltb 0 (m.buffered_size - min n (offered flow m.buffered_size)) ≡ true
          → m.buffered_size - min n (offered flow m.buffered_size) + 1 + work ms ≤ length answers
      fewer more =
          let some_left = ltb→lt _ _ more in
          let some_offered = offered-pos flow m.buffered_size (omega arith) in omega arith

  round-secure :
      (m : Message) (a : Answer)
      → flow.security_needed ≡ true
      → IsValid m
      → (log : List Chunk) × (round flow m a ≡ went m log)
  unfolding round
  round-secure m (room n) secure v = (
    chunk flow m len (take (min n len) (window m.buffered m.buffered_offset len)) ∷ [],
    rw (open_fd, read_offered flow m v, secure, round) refl,
  )
    where
      len : ℕ
      len = offered flow m.buffered_size
  round-secure m would_block secure v =
      ([], rw (open_fd, read_offered flow m v, secure, round) refl)
  round-secure m (failed b) secure v = ([], rw (open_fd, read_offered flow m v, secure, round) refl)

  -- Nothing is consumed, so the first message is offered again and again.
  flush_from-secure :
      (answers : List Answer) (m : Message) (ms : List Message)
      → flow.security_needed ≡ true
      → on_sctp flow ≡ false
      → IsValid m
      → 0 < m.buffered_size
      → (log : List Chunk) × (flush_from flow answers (m ∷ ms) ≡ running (m ∷ ms) log)
  unfolding flush_from
  flush_from-secure [] m ms secure other v h = ([], refl)
  flush_from-secure (a ∷ answers) m ms secure other v h =
      let (later, q) = flush_from-secure answers m ms secure other v h in
      let (log, e) = round-secure m a secure v in
      let more : ltb 0 m.buffered_size ≡ true = ground arith in
      let sends : (flow.security_needed && on_sctp flow) ≡ false = ground arith in
      (log ++ later, step_again flow a answers m m ms log sends e more ∙ ap (logged log) q)

emptied :
    (flow : Flow) (log : List Chunk)
    → in_flow flow (finished Code.ok [] log)
      ≡ finished Code.ok (record flow { buffered_messages = []; is_draining = false }) log
unfolding is_empty
emptied flow log = refl

write_flush-in_flow :
    (flow : Flow) (answers : List Answer) (ms : List Message)
    → flow.buffered_messages ≡ ms
    → is_empty ms ≡ false
    → write_flush flow answers ≡ in_flow flow (flush_from flow answers ms)
unfolding write_flush
write_flush-in_flow flow answers ms e some_message = simp (e, some_message)

-- If the kernel takes at least a byte of each offer, the flush of a flow with an open socket,
-- without security and with some valid messages, returns NEAT_OK, with nothing left to send and
-- no longer draining, after at most one round for each byte and one for each message.
pub write_flush-finishes :
    (flow : Flow) (answers : List Answer)
    → flow.socket.has_fd ≡ true
    → flow.security_needed ≡ false
    → is_empty flow.buffered_messages ≡ false
    → AllValid flow.buffered_messages
    → AllRoom answers
    → work flow.buffered_messages ≤ length answers
    → (log : List Chunk) × (write_flush flow answers
        ≡ finished Code.ok (record flow { buffered_messages = []; is_draining = false }) log)
write_flush-finishes flow answers open_fd plain some_message vs rs h =
    let (log, q) = flush_from-finishes flow open_fd answers flow.buffered_messages plain vs rs h in
    (
      log,
      write_flush-in_flow flow answers flow.buffered_messages refl some_message
          ∙ ap (in_flow flow) q
          ∙ emptied flow log,
    )

-- A flow with an open socket that asks for security over another stack than SCTP, with bytes
-- that wait in a valid first message: whatever the kernel answers, and however long, the flush
-- does not return and the flow is as it was.
pub write_flush-secure :
    (flow : Flow) (answers : List Answer) (m : Message) (ms : List Message)
    → flow.socket.has_fd ≡ true
    → flow.security_needed ≡ true
    → on_sctp flow ≡ false
    → flow.buffered_messages ≡ m ∷ ms
    → IsValid m
    → 0 < m.buffered_size
    → (log : List Chunk) × (write_flush flow answers
        ≡ running (record flow { buffered_messages = m ∷ ms }) log)
unfolding write_flush is_empty
write_flush-secure flow answers m ms open_fd secure other e v h =
    let (log, q) = flush_from-secure flow open_fd answers m ms secure other v h in
    (log, write_flush-in_flow flow answers (m ∷ ms) e refl ∙ ap (in_flow flow) q)
