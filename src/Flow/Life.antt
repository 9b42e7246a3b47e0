-- ===== src/Flow/Life.antt =====
-- The end of a flow: neat_new_flow, neat_close, neat_abort, nt_close_socket, nt_notify_close,
-- nt_free_flow, synchronous_free and the callbacks of uv_close, and the loop of neat_free_ctx
-- (neat_core.c). Memory and descriptors are counted: how often each was given back. `none` is an
-- access to what is gone.
pub mod Steps
pub mod Release
pub mod Preserves
pub mod Outcome
pub mod Closing
mod Examples
use neat.Base.{
  ℕ, ◌+◌, Bool, true, false, not, ◌&&◌, ◌||◌, List, [], ◌∷◌, Option, none, some, map, ◌==◌,
  if◌then◌else◌,
}

-- A poll handle: `unknown` is UV_UNKNOWN_HANDLE, `closing` waits for the callback of uv_close.
pub data Handle : Type 0 where
  unknown active closing gone : Handle

-- A listening socket (`struct neat_pollable_socket` in `listen_sockets`).
pub record Listener : Type 0 where
  pub handle : Handle
  pub fd_closes : ℕ
  pub frees : ℕ

-- `struct neat_flow` and its socket, as far as they are given back; `lingers` is SO_LINGER with 0.
pub record Life : Type 0 where
  pub is_open : Bool
  pub is_listed : Bool
  pub is_polling : Bool
  pub on_close : Bool
  pub lingers : Bool
  pub handle : Handle
  pub listen_sockets : List Listener
  pub fd_closes : ℕ
  pub close_calls : ℕ
  pub candidate_frees : ℕ
  pub frees : ℕ

-- `neat_new_flow`, by whether the flow, its socket and the handle are allocated.
unfoldable pub new_flow : Bool → Bool → Bool → Option Life
new_flow has_flow has_socket has_handle =
    if has_flow && has_socket && has_handle
    then some (record {
      is_open = false;
      is_listed = true;
      is_polling = false;
      on_close = false;
      lingers = false;
      handle = unknown;
      listen_sockets = [];
      fd_closes = 0;
      close_calls = 0;
      candidate_frees = 0;
      frees = 0;
    })
    else none

-- `synchronous_free`: the flow, its socket and the handle.
unfoldable pub synchronous_free : Life → Option Life
synchronous_free flow =
    if flow.frees == 0 then some (record flow { frees = flow.frees + 1; handle = gone }) else none

-- `uv_close` with listen_socket_handle_free_cb, unless the handle is closing.
abbrev pub leave : Handle → Handle
leave active = closing
leave handle = handle

unfoldable pub close_listener : Listener → Listener
close_listener listener = record listener { handle = leave listener.handle }

-- The end of `nt_free_flow`: the handle of the flow.
unfoldable pub free_handle : Handle → Life → Option Life
free_handle unknown flow = synchronous_free flow
free_handle active flow = some (record flow { handle = closing })
free_handle closing flow = some flow
free_handle gone flow = none

-- `nt_free_flow`; a flow that is not in the list of the context is gone.
unfoldable pub free_flow : Life → Option Life
free_flow flow =
    if flow.is_listed
    then free_handle flow.handle (record flow {
      is_listed = false;
      candidate_frees = flow.candidate_frees + 1;
      listen_sockets = map close_listener flow.listen_sockets;
    })
    else none

unfoldable pub close_descriptor : Listener → Listener
close_descriptor listener = record listener { fd_closes = listener.fd_closes + 1 }

-- `nt_close_socket`.
unfoldable pub close_socket : Life → Life
close_socket flow = record flow {
  listen_sockets = map close_descriptor flow.listen_sockets;
  fd_closes = flow.fd_closes + 1;
}

-- The call of the application's on_close, if it is set.
abbrev pub call_on_close : Life → Life
call_on_close flow = record flow {
  close_calls = if flow.on_close then flow.close_calls + 1 else flow.close_calls;
}

-- `nt_notify_close`.
unfoldable pub notify_close : Life → Option Life
notify_close flow =
    if flow.is_open then free_flow (call_on_close (record flow { is_open = false })) else some flow

-- `neat_close`.
unfoldable pub close : Life → Option Life
close flow = notify_close (close_socket (record flow { is_polling = false }))

-- `neat_abort`, by whether setsockopt succeeds.
unfoldable pub abort : Bool → Life → Option Life
abort has_set flow = close (if has_set then record flow { lingers = true } else flow)

-- The end of `uvpollable_cb` for a socket that is_closed.
unfoldable pub end_closed : Life → Option Life
end_closed flow = notify_close (close_socket (record flow { is_polling = false }))

-- A round of the loop of `neat_free_ctx`.
unfoldable pub free_from_ctx : Life → Option Life
free_from_ctx flow = free_flow (call_on_close (close_socket flow))

-- `socket_handle_free_cb`, which libuv calls once the handle is closed.
unfoldable pub socket_handle_free_cb : Life → Option Life
socket_handle_free_cb flow = synchronous_free flow

-- `listen_socket_handle_free_cb`.
unfoldable pub listen_socket_handle_free_cb : Listener → Listener
listen_socket_handle_free_cb listener = record listener {
  handle = gone;
  frees = listener.frees + 1;
}
