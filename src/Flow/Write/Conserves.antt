-- ===== src/Flow/Write/Conserves.antt =====
-- A write hands each of its bytes to the kernel or to the buffer, behind what waited before.
use neat.Base.{
  ℕ, zero, suc, ◌+◌, ◌%◌, ◌^◌, ◌≤◌, ◌≡◌, refl, ap, List, [], ◌∷◌, ◌++◌, Bool, true, false, not,
  ◌&&◌, Option, none, some, arith, length, append-nil, ltb, Bool-cases, inl, inr, take, drop, ℤ,
  pos, negsuc, Option,
}
use neat.Flow.Stack.{is_tcp, is_sctp, Stack}
use neat.Flow.Memory.{cells}
use neat.Flow.Memory.Window.{take-take}
use neat.Flow.State.{Code, Message, Flow, Run, done, fault}
use neat.Flow.Poll.{update_poll_handle}
use neat.Flow.Fill.{is_empty}
use neat.Flow.Fill.Queue.{AllValid, backlog, Filled, write_fillbuffer-Filled}
use neat.Flow.Flush.{Answer, room, would_block, failed, Chunk, offered}
use neat.Flow.Flush.Conserves.{taken}
use neat.Flow.Write.{
  Tlv, Arguments, no_arguments, read_arguments, chosen_stream, stream_of, too_big, Direct, sent,
  broken, send_direct, settled, after_fill, buffer_options, send_or_buffer, write_to_lower_layer,
}

-- After NEAT_OK every byte is taken or waits, in order, and the flow drains exactly if some wait.
-- Any other code means that nothing was taken or buffered.
abbrev pub Wrote : Flow → List ℕ → Run (Flow × List Chunk) → Type 0
Wrote flow buffer (done Code.ok (flow', log)) =
    AllValid flow'.buffered_messages
    × (taken log ++ backlog flow'.buffered_messages
        ≡ backlog flow.buffered_messages ++ cells buffer)
    × (flow'.is_draining ≡ not (is_empty flow'.buffered_messages))
Wrote flow buffer (done _ (flow', log)) =
    (log ≡ []) × (flow'.buffered_messages ≡ flow.buffered_messages)
Wrote flow buffer fault = ⊥

cells-drop : (n : ℕ) (b : List ℕ) → take n (cells b) ++ cells (drop n b) ≡ cells b
cells-drop zero b = refl
cells-drop (suc n) [] = refl
cells-drop (suc n) (x ∷ b) = ap (λ l. some x ∷ l) (cells-drop n b)

backlog-empty : (ms : List Message) → is_empty ms ≡ true → backlog ms ≡ []
unfolding is_empty
backlog-empty [] e = refl
backlog-empty (m ∷ ms) e = cc

module _ (flow : Flow) (a : Arguments) (stream : ℕ) (buffer : List ℕ) where
  -- What the direct send took and what it leaves make up the write, behind the old backlog.
  abbrev Sends : Direct → Type 0
  Sends (sent n counted log) =
      taken log ++ (backlog flow.buffered_messages ++ cells (drop n buffer))
      ≡ backlog flow.buffered_messages ++ cells buffer
  Sends (broken no_entry) = Unit {0}

  abbrev goes_direct : Bool
  goes_direct = is_empty flow.buffered_messages && ltb 0 (length buffer) && flow.socket.has_fd

  taken_direct :
      (len rv : ℕ)
      → rv ≤ len
      → is_empty flow.buffered_messages ≡ true
      → (take rv (take len (cells buffer)) ++ [])
          ++ (backlog flow.buffered_messages ++ cells (drop rv buffer))
        ≡ backlog flow.buffered_messages ++ cells buffer
  taken_direct len rv h none_yet =
      rw
        (
          backlog-empty flow.buffered_messages none_yet,
          append-nil,
          take-take (cells buffer) rv len h,
        )
        (cells-drop rv buffer)

  send_direct-true :
      (answer : Answer) → goes_direct ≡ true → Sends (send_direct flow a stream buffer answer)
  unfolding send_direct
  send_direct-true would_block e = rw (e, send_direct) refl
  send_direct-true (failed b) e = rw (e, send_direct) tt
  send_direct-true (room n) e =
      rw (e, send_direct)
        (taken_direct (offered flow (length buffer)) _ (omega arith) (ground arith))

  send_direct-Sends : (answer : Answer) → Sends (send_direct flow a stream buffer answer)
  unfolding send_direct
  send_direct-Sends answer = elim (Bool-cases goes_direct) [
    | inl e ↦ send_direct-true answer e
    | inr e ↦ rw (e, send_direct) refl
  ]

settled-messages : (flow : Flow) → (settled flow).buffered_messages ≡ flow.buffered_messages
unfolding update_poll_handle
settled-messages flow = ground arith

settled-is_draining :
    (flow : Flow) → (settled flow).is_draining ≡ not (is_empty flow.buffered_messages)
unfolding update_poll_handle
settled-is_draining flow = ground arith

module _ (flow : Flow) (buffer : List ℕ) where
  after_fill-Wrote :
      (filled : Flow) (rest : List ℕ) (log : List Chunk) (old : Flow)
      → old.buffered_messages ≡ flow.buffered_messages
      → Filled old rest filled
      → taken log ++ (backlog flow.buffered_messages ++ cells rest)
        ≡ backlog flow.buffered_messages ++ cells buffer
      → Wrote flow buffer (after_fill (done Code.ok filled) log)
  after_fill-Wrote filled rest log old same w e = (
    rw (settled-messages filled) w.valid,
    rw (settled-messages filled, w.grown, same) e,
    rw (settled-messages filled) (settled-is_draining filled),
  )

  send_or_buffer-Wrote :
      (a : Arguments) (stream : ℕ) (answer : Answer)
      → AllValid flow.buffered_messages
      → (is_tcp flow.socket.stack ≡ true → stream ≡ 0)
      → Wrote flow buffer (send_or_buffer flow a stream buffer answer true true)
  unfolding send_or_buffer
  send_or_buffer-Wrote a stream answer vs zero_stream =
      go (send_direct flow a stream buffer answer) refl
        (send_direct-Sends flow a stream buffer answer)
    where
      go :
          (d : Direct)
          → send_direct flow a stream buffer answer ≡ d
          → Sends flow a stream buffer d
          → Wrote flow buffer (send_or_buffer flow a stream buffer answer true true)
      go (broken no_entry) e w = rw (e, send_or_buffer) (refl, refl)
      go (sent n counted log) e w =
          let counts : Flow = record flow { bytes_sent = (flow.bytes_sent + counted) % 2 ^ 64 } in
          let (flow', q, f) =
            write_fillbuffer-Filled counts (drop n buffer) (buffer_options a stream) vs
              zero_stream in
          rw (e, send_or_buffer) (rw q (after_fill-Wrote flow' (drop n buffer) log counts refl f w))

-- A TCP flow has one stream, number 0.
chosen_stream-tcp :
    (flow : Flow) (v : Option ℤ) (n : ℕ)
    → is_tcp flow.socket.stack ≡ true
    → chosen_stream flow v ≡ some n
    → n ≡ 0
unfolding chosen_stream
chosen_stream-tcp flow none n tcp e = ground arith
chosen_stream-tcp flow (some (negsuc k)) n tcp e = cc
chosen_stream-tcp flow (some (pos k)) n tcp e =
    let other : is_sctp flow.socket.stack ≡ false = not_both flow.socket.stack tcp in ground arith
  where
    not_both : (s : Stack) → is_tcp s ≡ true → is_sctp s ≡ false
    not_both Stack.tcp e = refl
    not_both Stack.udp e = cc
    not_both Stack.udplite e = cc
    not_both Stack.mptcp e = cc
    not_both Stack.sctp e = cc
    not_both Stack.sctp_udp e = cc
    not_both Stack.webrtc e = cc

-- When the allocations succeed and the messages of the flow are valid, a write that returns
-- NEAT_OK has handed each byte to the kernel or to the buffer: what the kernel took now,
-- followed by the new backlog, is the old backlog followed by the written bytes, and the flow
-- drains exactly if its queue is not empty. A write that returns another code took and buffered
-- nothing. No write leaves a block or fails an assertion. (A TCP flow is no multistream flow.)
pub write_to_lower_layer-Wrote :
    (flow : Flow) (buffer : List ℕ) (optional : List Tlv) (answer : Answer)
    → AllValid flow.buffered_messages
    → (is_tcp flow.socket.stack ≡ true → flow.multistream_id ≡ 0)
    → Wrote flow buffer (write_to_lower_layer flow buffer optional answer true true)
unfolding write_to_lower_layer
write_to_lower_layer-Wrote flow buffer optional answer vs single =
    go (chosen_stream flow (read_arguments optional no_arguments).stream_id) refl
  where
    go :
        (c : Option ℕ)
        → chosen_stream flow (read_arguments optional no_arguments).stream_id ≡ c
        → Wrote flow buffer (write_to_lower_layer flow buffer optional answer true true)
    go none e = rw (e, write_to_lower_layer) (refl, refl)
    go (some n) e = elim (Bool-cases (too_big flow (length buffer))) [
      | inl big ↦ rw (e, write_to_lower_layer) (rw big (refl, refl))
      | inr fits ↦
          rw (e, write_to_lower_layer)
            (rw fits (
              send_or_buffer-Wrote flow buffer (read_arguments optional no_arguments)
                (stream_of flow n) answer vs
                λ tcp. ground (
                  arith,
                  single tcp,
                  chosen_stream-tcp flow (read_arguments optional no_arguments).stream_id n tcp e,
                )))
    ]
