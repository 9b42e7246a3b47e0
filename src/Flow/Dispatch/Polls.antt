-- ===== src/Flow/Dispatch/Polls.antt =====
-- What the event loop waits for after a call of `uvpollable_cb`.
use neat.Base.{
  ◌≡◌, ◌⊎◌, Bool, true, false, ◌&&◌, Bool-cases, inl, inr, List, [], ◌++◌, Option-cases,
}
use neat.Flow.State.{Flow}
use neat.Flow.Callbacks.{Event}
use neat.Flow.Flush.{Chunk}
use neat.Flow.Poll.{update_poll_handle}
use neat.Flow.Poll.Waits.{Polls, update_poll_handle-Polls}
use neat.Flow.Receive.{io_readable}
use neat.Flow.Writable.{Wrote, wrote, running as in_flush, fault as write_fault}
use neat.Flow.Dispatch.{
  Signals, Dispatch, returns, freed, running, fault, replay, finish, read_step, after_write,
  write_step, connect_step, uvpollable_cb,
}

-- A call that returns with the flow, whose handle is closed, or polls for what the flow waits for.
pub data Registers : Dispatch → Type 0 where
  registered :
      (flow : Flow) (events : List Event) (log : List Chunk)
      → (flow.handle_open ≡ false) ⊎ Polls flow
      → Registers (returns flow events log)
  when_freed : (events : List Event) (log : List Chunk) → Registers (freed events log)
  when_running : (flow : Flow) (log : List Chunk) → Registers (running flow log)
  when_fault : Registers fault

finish-Registers :
    (flow : Flow) (closed : Bool) (events : List Event) (log : List Chunk)
    → Registers (finish flow closed events log)
unfolding finish
finish-Registers flow true events log = when_freed _ log
finish-Registers flow false events log =
    registered (update_poll_handle flow) events log (update_poll_handle-Polls flow)

read_step-Registers :
    (application : Event → Flow → Flow) (signals : Signals) (flow : Flow) (events : List Event)
    (log : List Chunk)
    → Registers (read_step application signals flow events log)
unfolding read_step
read_step-Registers application signals flow events log = elim (Bool-cases signals.is_readable) [
  | inr e ↦ simp (e) (finish-Registers flow false events log)
  | inl e ↦ elim (Option-cases (io_readable flow signals.kernel signals.acceptance)) [
    | inl n ↦ simp (e, n, read_step) when_fault
    | inr (h, n) ↦
        simp (e, n, read_step)
          (finish-Registers (replay application h.events h.flow) h.closed (events ++ h.events) log)
  ]
]

after_write-Registers :
    (application : Event → Flow → Flow) (signals : Signals) (before : List Event) (run : Wrote)
    → Registers (after_write application signals before run)
unfolding after_write
after_write-Registers application signals before write_fault = when_fault
after_write-Registers application signals before (in_flush flow log) = when_running flow log
after_write-Registers application signals before (wrote flow events log) =
    read_step-Registers application signals (replay application events flow) (before ++ events) log

write_step-Registers :
    (application : Event → Flow → Flow) (signals : Signals) (flow : Flow) (before : List Event)
    → Registers (write_step application signals flow before)
unfolding write_step
write_step-Registers application signals flow before = elim (Bool-cases signals.is_writable) [
  | inl e ↦ simp (e) (after_write-Registers application signals before _)
  | inr e ↦ simp (e) (read_step-Registers application signals flow before [])
]

connect_step-Registers :
    (application : Event → Flow → Flow) (signals : Signals) (flow : Flow)
    → Registers (connect_step application signals flow)
unfolding connect_step
connect_step-Registers application signals flow =
    elim (Bool-cases (signals.is_writable && flow.first_write_pending)) [
      | inl e ↦ simp (e) (write_step-Registers application signals _ _)
      | inr e ↦ simp (e) (write_step-Registers application signals flow [])
    ]

-- Whatever the kernel answers and whatever the callbacks of the application make of the flow: a
-- call of `uvpollable_cb` without a poll error, for a flow that accepts nothing or without an
-- event to read, that ends with the flow and its poll handle open leaves the event loop waiting
-- for exactly what the flow waits for. To read: its application reads, or it is an SCTP flow
-- whose application follows closing, the network status or failures to send, or a notification
-- is due. To write: its application writes, or the connection of an SCTP flow is to be reported,
-- or the flow drains. If it waits for nothing the polling is stopped. The other ends are a flow
-- that is closed and freed, a flush that has used up the answers, and an access outside a
-- buffer.
pub uvpollable_cb-Registers :
    (application : Event → Flow → Flow) (signals : Signals) (flow : Flow)
    → (signals.is_readable && flow.accept_pending) ≡ false
    → signals.poll_failed ≡ false
    → Registers (uvpollable_cb application signals flow)
unfolding uvpollable_cb
uvpollable_cb-Registers application signals flow a f =
    simp (a, f) (connect_step-Registers application signals flow)
