-- ===== src/Flow/Writable/Settles.antt =====
-- When a flow reports that all is written, or is shut down.
use neat.Base.{
  ◌≡◌, refl, ◌∙◌, sym, subst, append-nil, Bool, true, false, not, ◌||◌, Bool-cases, inl, inr, List,
  [], ◌∷◌, ◌++◌, ◌≤◌, length, arith, if◌then◌else◌,
}
use neat.Flow.State.{Code, Flow}
use neat.Flow.Callbacks.{
  Event, all_written, shut_down, if_set, io_error, notify_aborted, io_all_written,
}
use neat.Flow.Fill.{is_empty}
use neat.Flow.Flush.{Answer, Chunk, Flush, finished, running as unfinished, fault as flush_fault}
use neat.Flow.Flush.Tidy.{IsTidy, LeavesTidy, when_finished, write_flush-LeavesTidy}
use neat.Flow.Fill.Queue.{AllValid, backlog}
use neat.Flow.Flush.Conserves.{taken, FlowAccounts, write_flush-Accounts}
use neat.Flow.Flush.Progress.{AllRoom, work, write_flush-finishes}
use neat.Flow.Writable.{
  after_flush, Wrote, wrote, running, fault, shutdown, settle, is_fatal, io_writable,
}

-- Whether the flow was shut down or reported that all is written.
abbrev pub settles : Event → Bool
settles all_written = true
settles shut_down = true
settles _ = false

abbrev pub has_settled : List Event → Bool
has_settled [] = false
has_settled (event ∷ events) = settles event || has_settled events

-- A call that settles the flow has left nothing to send.
pub data SettlesDrained : Wrote → Type 0 where
  not_settled :
      {flow : Flow} {events : List Event} {log : List Chunk}
      → has_settled events ≡ false
      → SettlesDrained (wrote flow events log)
  drained :
      {flow : Flow} {events : List Event} {log : List Chunk}
      → flow.buffered_messages ≡ []
      → SettlesDrained (wrote flow events log)
  in_flush : {flow : Flow} {log : List Chunk} → SettlesDrained (running flow log)
  in_fault : SettlesDrained fault

shutdown-buffered_messages :
    (flow : Flow) → (shutdown flow).0.buffered_messages ≡ flow.buffered_messages
unfolding shutdown
shutdown-buffered_messages flow = elim (Bool-cases flow.is_draining) [
  | inl e ↦ simp (e) refl
  | inr e ↦ simp (e) refl
]

io_all_written-buffered_messages :
    (flow : Flow) → (io_all_written flow).0.buffered_messages ≡ flow.buffered_messages
unfolding io_all_written
io_all_written-buffered_messages flow =
    elim (Bool-cases (not flow.operations.on_all_written || not flow.notify_drain_pending)) [
      | inl e ↦ simp (e) refl
      | inr e ↦ simp (e) refl
    ]

settle-SettlesDrained :
    (flow : Flow) (events : List Event) (log : List Chunk)
    → IsTidy flow
    → has_settled events ≡ false
    → SettlesDrained (settle flow events log)
unfolding settle
settle-SettlesDrained flow events log (inl d) h = simp (d) (not_settled h)
settle-SettlesDrained flow events log (inr b) h = elim (Bool-cases flow.is_draining) [
  | inl d ↦ simp (d) (not_settled h)
  | inr d ↦ elim (Bool-cases flow.is_closing) [
    | inl c ↦ simp (d, c) (drained (shutdown-buffered_messages flow ∙ b))
    | inr c ↦ simp (d, c) (drained (io_all_written-buffered_messages flow ∙ b))
  ]
]

has_settled-if_set :
    (b : Bool) (event : Event) → settles event ≡ false → has_settled (if_set b event) ≡ false
has_settled-if_set true event e = rw (e) refl
has_settled-if_set false event e = refl

has_settled-append :
    (xs ys : List Event)
    → has_settled xs ≡ false
    → has_settled ys ≡ false
    → has_settled (xs ++ ys) ≡ false
has_settled-append [] ys e f = f
has_settled-append (x ∷ xs) ys e f = elim (Bool-cases (settles x)) [
  | inl s ↦ absurd (ground (arith, s, e))
  | inr s ↦ rw (s) (has_settled-append xs ys (ground (arith, s, e)) f)
]

abort-SettlesDrained :
    (flow : Flow) (code : Code) (log : List Chunk)
    → SettlesDrained (wrote flow (notify_aborted flow ++ io_error flow code) log)
unfolding notify_aborted io_error
abort-SettlesDrained flow code log = not_settled (
    has_settled-append (notify_aborted flow) (io_error flow code)
      (has_settled-if_set flow.operations.on_aborted _ refl)
      (has_settled-if_set flow.operations.on_error _ refl))

after_flush-SettlesDrained : (run : Flush Flow) → LeavesTidy run → SettlesDrained (after_flush run)
unfolding after_flush
after_flush-SettlesDrained (finished code left log) (when_finished _ _ _ t) =
    elim (Bool-cases (is_fatal code)) [
      | inl e ↦ simp (e) (abort-SettlesDrained left code log)
      | inr e ↦ simp (e) (settle-SettlesDrained left [] log t refl)
    ]
after_flush-SettlesDrained (unfinished left log) t = in_flush
after_flush-SettlesDrained flush_fault t = in_fault

-- Whatever the kernel answers, if `io_writable` reports that all is written or shuts the flow
-- down, nothing is left in the flow that waits to be sent; the flow and the one that the
-- callback of the application leaves have nothing buffered unless they drain.
pub io_writable-SettlesDrained :
    (on_writable : Flow → Flow) (flow : Flow) (answers : List Answer)
    → ((f : Flow) → IsTidy f → IsTidy (on_writable f))
    → IsTidy flow
    → SettlesDrained (io_writable on_writable flow answers)
unfolding io_writable
io_writable-SettlesDrained on_writable flow answers keeps t = elim (Bool-cases flow.is_draining) [
  | inl d ↦ simp (d) (after_flush-SettlesDrained _ (write_flush-LeavesTidy flow answers d))
  | inr d ↦ elim (Bool-cases flow.operations.on_writable) [
    | inl w ↦ simp (d, w) (settle-SettlesDrained (on_writable flow) _ [] (keeps flow t) refl)
    | inr w ↦ simp (d, w) (settle-SettlesDrained flow [] [] t refl)
  ]
]

-- What is due once all is sent.
abbrev pub due : Flow → Event
due flow = if flow.is_closing then shut_down else all_written

-- A flow that drains, with an open socket and some valid messages and without security, whose
-- application waits to hear that all is written: if the kernel takes at least a byte of each
-- offer, one call of `io_writable` with an answer for each byte and each message hands the
-- kernel all that is buffered, byte for byte in its order, and then, as its one event, shuts the
-- flow down if that is pending and else reports that all is written.
pub io_writable-due :
    (on_writable : Flow → Flow) (flow : Flow) (answers : List Answer)
    → flow.is_draining ≡ true
    → flow.operations.on_all_written ≡ true
    → flow.notify_drain_pending ≡ true
    → flow.socket.has_fd ≡ true
    → flow.security_needed ≡ false
    → is_empty flow.buffered_messages ≡ false
    → AllValid flow.buffered_messages
    → AllRoom answers
    → work flow.buffered_messages ≤ length answers
    → (left : Flow) × (log : List Chunk) × (io_writable on_writable flow answers
        ≡ wrote left (due flow ∷ []) log)
      × (taken log ≡ backlog flow.buffered_messages)
      × (left.buffered_messages ≡ [])
      × (left.is_draining ≡ false)
unfolding io_writable after_flush settle shutdown io_all_written
io_writable-due on_writable flow answers d a n f s m v r h =
    let (log, e) = write_flush-finishes flow answers f s m v r h in
    let accounts = subst (FlowAccounts flow) e (write_flush-Accounts flow answers f s v) in
    let all = sym (append-nil (taken log)) ∙ accounts.1 in
    elim (Bool-cases flow.is_closing) [
      | inl c ↦ simp (d, e, c) (_, _, refl, all, refl, refl)
      | inr c ↦ simp (d, e, c, a, n) (_, _, refl, all, refl, refl)
    ]
