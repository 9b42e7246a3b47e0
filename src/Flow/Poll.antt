-- ===== src/Flow/Poll.antt =====
-- `nt_update_poll_handle` of neat_core.c, for a socket that carries a single flow.
pub mod Waits
use neat.Base.{Bool, not, ◌&&◌, ◌||◌, some, none, if◌then◌else◌}
use neat.Flow.Stack.{base_stack, is_sctp}
use neat.Flow.State.{Flow}

-- UV_READABLE: the application reads, or it follows the events of an SCTP association, or a
-- notification is due.
unfoldable pub wants_read : Flow → Bool
wants_read flow =
    flow.operations.on_readable
    || (is_sctp (base_stack flow.socket.stack)
        && (flow.operations.on_close || flow.operations.on_network_status_changed
            || flow.operations.on_send_failure))
    || flow.socket.sctp_notification_wait

-- UV_WRITABLE.
unfoldable pub wants_write : Flow → Bool
wants_write flow =
    flow.operations.on_writable
    || (is_sctp (base_stack flow.socket.stack) && flow.first_write_pending)
    || flow.is_draining

-- `uv_poll_start` with the events, or `uv_poll_stop` if there are none.
unfoldable pub update_poll_handle : Flow → Flow
unfolding wants_read wants_write
update_poll_handle flow = if not flow.handle_open then flow else record flow {
  is_polling = wants_read flow || wants_write flow;
  polled =
      if wants_read flow || wants_write flow
      then some (record { readable = wants_read flow; writable = wants_write flow })
      else none;
}
