-- ===== src/Flow/Writable.antt =====
-- `io_writable` and `neat_shutdown` of neat_core.c, in a build with neither WebRTC nor usrsctp.
pub mod Settles
use neat.Base.{Bool, true, false, not, ◌&&◌, List, [], ◌∷◌, ◌++◌, if◌then◌else◌}
use neat.Flow.State.{Code, Flow}
use neat.Flow.Callbacks.{
  Event, writable, shut_down, if_set, io_error, notify_aborted, io_all_written,
}
use neat.Flow.Flush.{
  Answer, Chunk, Flush, finished, running as unfinished, fault as flush_fault, write_flush,
}

-- A call: the flow that it leaves, the callbacks and what went to the kernel; or still in the flush.
pub data Wrote : Type 0 where
  wrote : Flow → List Event → List Chunk → Wrote
  running : Flow → List Chunk → Wrote
  fault : Wrote

-- `neat_shutdown`: a flow that drains is shut down when it has drained.
unfoldable pub shutdown : Flow → Flow × List Event
shutdown flow =
    if flow.is_draining
    then (record flow { is_closing = true }, [])
    else (record flow { is_closing = true }, shut_down ∷ [])

-- The end of `io_writable`, behind the callbacks already made.
unfoldable pub settle : Flow → List Event → List Chunk → Wrote
settle flow events log =
    if flow.is_draining
    then wrote flow events log
    else if flow.is_closing
    then (let shut = shutdown flow in wrote (shut.0) (events ++ shut.1) log)
    else (let told = io_all_written flow in wrote (told.0) (events ++ told.1) log)

abbrev pub is_fatal : Code → Bool
is_fatal Code.ok = false
is_fatal Code.would_block = false
is_fatal _ = true

-- Behind the flush: an error is reported.
unfoldable pub after_flush : Flush Flow → Wrote
after_flush flush_fault = fault
after_flush (unfinished left log) = running left log
after_flush (finished code left log) =
    if is_fatal code
    then wrote left (notify_aborted left ++ io_error left code) log
    else settle left [] log

-- `io_writable` with NEAT_OK; `on_writable` is what the application's callback makes of the flow.
unfoldable pub io_writable : (Flow → Flow) → Flow → List Answer → Wrote
io_writable on_writable flow answers =
    if flow.is_draining
    then after_flush (write_flush flow answers)
    else if flow.operations.on_writable
    then settle (on_writable flow) (writable ∷ []) []
    else settle flow [] []
