-- ===== src/Flow/State.antt =====
-- The fields of `struct neat_flow` and `struct neat_pollable_socket` that the write and read path
-- uses, the buffered messages, and the error codes of neat.h.
use neat.Base.{ℕ, Bool, List, Option}
use neat.Flow.Stack.{Stack}
use neat.Flow.Memory.{Block}

-- `neat_error_code`.
pub data Code : Type 0 where
  ok would_block bad_argument io dns internal security unable : Code
  message_too_big remote out_of_memory : Code

-- `struct neat_buffered_message`; the empty block stands for a NULL `buffered`.
pub record Message : Type 0 where
  pub buffered : Block
  pub buffered_offset : ℕ
  pub buffered_size : ℕ
  pub buffered_allocation : ℕ
  pub stream_id : ℕ
  pub unordered : Bool
  pub pr_method : ℕ
  pub pr_value : ℕ

-- `struct neat_pollable_socket`; `has_fd` is `fd != -1`.
pub record Socket : Type 0 where
  pub stack : Stack
  pub has_fd : Bool
  pub sctp_explicit_eor : Bool
  pub sctp_streams_available : ℕ
  pub write_limit : ℕ
  pub write_size : ℕ
  pub read_size : ℕ
  pub sctp_notification_wait : Bool
  pub sctp_partial_reliability : Bool

-- Which of the application's callbacks are set (`struct neat_flow_operations`).
pub record Operations : Type 0 where
  pub on_readable : Bool
  pub on_writable : Bool
  pub on_all_written : Bool
  pub on_close : Bool
  pub on_network_status_changed : Bool
  pub on_send_failure : Bool
  pub on_aborted : Bool
  pub on_error : Bool
  pub on_timeout : Bool
  pub on_connected : Bool

-- What the flow's poll handle is registered for.
pub record Events : Type 0 where
  pub readable : Bool
  pub writable : Bool

-- `struct neat_flow`. `handle_open`: the poll handle has a loop and is not closing; `polled` is what
-- the event loop polls it for, none if polling has stopped. `state_closed`: the state is NEAT_FLOW_CLOSED.
pub record Flow : Type 0 where
  pub socket : Socket
  pub security_needed : Bool
  pub buffered_messages : List Message
  pub is_draining : Bool
  pub is_closing : Bool
  pub notify_drain_pending : Bool
  pub first_write_pending : Bool
  pub is_polling : Bool
  pub operations : Operations
  pub handle_open : Bool
  pub polled : Option Events
  pub bytes_sent : ℕ
  pub read_buffer : Block
  pub read_buffer_size : ℕ
  pub read_buffer_allocation : ℕ
  pub read_buffer_msg_complete : Bool
  pub preserve_message_boundaries : Bool
  pub eof_seen : Bool
  pub bytes_received : ℕ
  pub multistream_id : ℕ
  pub accept_pending : Bool
  pub state_closed : Bool

-- A run of a function: its code and what it leaves, or an access outside a block or a failed
-- assertion.
pub data Run (A : Type 0) : Type 0 where
  done : Code → A → Run A
  fault : Run A
