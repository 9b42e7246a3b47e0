-- ===== src/Flow/Callbacks.antt =====
-- The callbacks into the application that the events of a flow make (neat_core.c). A callback that is
-- not set is not called; the calls are a list, in their order.
use neat.Base.{Bool, false, not, ◌||◌, List, [], ◌∷◌, if◌then◌else◌}
use neat.Flow.State.{Code, Flow}

-- The callbacks with what is handed to them, and the calls of the shutdown and close functions of the
-- flow and of do_accept.
pub data Event : Type 0 where
  readable writable all_written timed_out aborted network_status_changed : Event
  send_failed : Code → Event
  failed : Code → Event
  shut_down connected closed closes accepts : Event

abbrev pub if_set : Bool → Event → List Event
if_set set event = if set then event ∷ [] else []

-- `nt_io_error`, for a flow that is not NULL.
unfoldable pub io_error : Flow → Code → List Event
io_error flow code = if_set flow.operations.on_error (failed code)

-- `io_timeout`.
unfoldable pub io_timeout : Flow → List Event
io_timeout flow = if_set flow.operations.on_timeout timed_out

-- `nt_notify_aborted`.
unfoldable pub notify_aborted : Flow → List Event
notify_aborted flow = if_set flow.operations.on_aborted aborted

-- `nt_notify_send_failure`.
unfoldable pub notify_send_failure : Flow → Code → List Event
notify_send_failure flow code = if_set flow.operations.on_send_failure (send_failed code)

-- `nt_notify_network_status_changed`.
unfoldable pub notify_network_status_changed : Flow → List Event
notify_network_status_changed flow =
    if_set flow.operations.on_network_status_changed network_status_changed

-- `io_all_written`.
unfoldable pub io_all_written : Flow → Flow × List Event
io_all_written flow =
    if not flow.operations.on_all_written || not flow.notify_drain_pending
    then (flow, [])
    else (record flow { notify_drain_pending = false }, all_written ∷ [])

-- `nt_notify_close`, without the end of the flow's memory.
unfoldable pub notify_close : Flow → List Event
notify_close flow = if flow.state_closed then [] else if_set flow.operations.on_close closed
