-- ===== src/Flow/Examples.antt =====
-- Flows and messages to run the functions of neat_core.c on.
use neat.Base.{
  ℕ, ◌≡◌, refl, inr, inl, take, Bool, true, false, List, [], ◌∷◌, none, some, pos, arith, not,
}
use neat.Flow.Stack.{Stack, base_stack, tcp, udp, sctp}
use neat.Flow.Memory.{cells}
use neat.Flow.State.{Code, Message, Socket, Operations, Flow, done}
use neat.Flow.Fill.{Options, write_fillbuffer, is_empty}
use neat.Flow.Fill.Append.{pending, SameOptions, Appended, append_bytes-Appended}
use neat.Flow.Fill.Append as Append
use neat.Flow.Fill.Queue.{Filled, write_fillbuffer-Filled}
use neat.Flow.Flush.{room, would_block, Chunk, finished, write_flush}
use neat.Flow.Flush.Conserves.{FlowAccounts, write_flush-Accounts}
use neat.Flow.Flush.Conserves.{taken}
use neat.Flow.Fill.Queue.{backlog}
use neat.Flow.Flush.Progress.{write_flush-finishes}
use neat.Flow.Write.{tag_stream_id, write_to_lower_layer}
use neat.Flow.Write.Watches.{Watches, write_to_lower_layer-Watches}
use neat.Flow.Write.Conserves.{Wrote, write_to_lower_layer-Wrote}
use neat.Flow.Read.{stream_id, would_block as no_data, read_from_lower_layer}
use neat.Flow.Read.Conserves.{ReadsMessage, read_from_lower_layer-boundaries}
use neat.Flow.Read.{Reading}
use neat.Flow.Receive.{Kernel, refused, Acceptance, io_readable}
use neat.Flow.Receive.Delivery.{deliver, deliver-read_from_lower_layer}
use neat.Flow.Receive.Datagram.{Accepted, capacity, space, io_readable-Accepted}
use neat.Flow.Receive.Growth.{delivering}
use neat.Flow.Dispatch.{Signals, uvpollable_cb}
use neat.Flow.Dispatch.Polls.{Registers, uvpollable_cb-Registers}
use neat.Flow.Writable.{wrote, io_writable}
use neat.Flow.Writable.Settles.{SettlesDrained, due, io_writable-SettlesDrained, io_writable-due}

abbrev socket_of : Stack → Socket
socket_of stack = record {
  stack = stack;
  has_fd = true;
  sctp_explicit_eor = false;
  sctp_streams_available = 1;
  write_limit = 0;
  write_size = 0;
  read_size = 65536;
  sctp_notification_wait = false;
  sctp_partial_reliability = false;
}

abbrev writing : Operations
writing = record {
  on_readable = true;
  on_writable = true;
  on_all_written = false;
  on_close = false;
  on_network_status_changed = false;
  on_send_failure = false;
  on_aborted = false;
  on_error = false;
  on_timeout = false;
  on_connected = false;
}

-- Two bytes that wait behind one that is sent.
abbrev hello : Message
hello = record {
  buffered = some 1 ∷ some 2 ∷ some 3 ∷ none ∷ [];
  buffered_offset = 1;
  buffered_size = 2;
  buffered_allocation = 4;
  stream_id = 0;
  unordered = false;
  pr_method = 0;
  pr_value = 0;
}

abbrev flow_of : Stack → List Message → Bool → Flow
flow_of stack messages secure = record {
  socket = socket_of stack;
  security_needed = secure;
  buffered_messages = messages;
  is_draining = not (is_empty messages);
  is_closing = false;
  notify_drain_pending = true;
  first_write_pending = false;
  is_polling = true;
  operations = writing;
  handle_open = true;
  polled = none;
  bytes_sent = 0;
  read_buffer = some 7 ∷ some 8 ∷ some 9 ∷ none ∷ [];
  read_buffer_size = 3;
  read_buffer_allocation = 4;
  read_buffer_msg_complete = true;
  preserve_message_boundaries = true;
  eof_seen = false;
  bytes_received = 0;
  multistream_id = 0;
  accept_pending = false;
  state_closed = false;
}

abbrev no_options : Options
no_options = record { stream_id = 0; unordered = false; pr_method = 0; pr_value = 0 }

hello-IsValid : Append.IsValid hello
hello-IsValid = record { sized = refl; inside = omega arith }

write_fillbuffer-Filled_example :
    (flow' : Flow) × (write_fillbuffer
        (flow_of tcp (hello ∷ []) false)
        (4 ∷ 5 ∷ [])
        no_options
        true
        true
      ≡ done Code.ok flow')
    × Filled (flow_of tcp (hello ∷ []) false) (4 ∷ 5 ∷ []) flow'
write_fillbuffer-Filled_example =
    write_fillbuffer-Filled (flow_of tcp (hello ∷ []) false) (4 ∷ 5 ∷ []) no_options
      (hello-IsValid, tt) (λ tcp. refl)

-- The kernel takes one byte, and then none.
write_flush-Accounts_example :
    FlowAccounts
      (flow_of tcp (hello ∷ []) false)
      (write_flush (flow_of tcp (hello ∷ []) false) (room 1 ∷ would_block ∷ []))
write_flush-Accounts_example =
    write_flush-Accounts (flow_of tcp (hello ∷ []) false) (room 1 ∷ would_block ∷ []) refl refl
      (hello-IsValid, tt)

write_flush-finishes_example :
    (log : List Chunk) × (write_flush
        (flow_of tcp (hello ∷ []) false)
        (room 1 ∷ room 1 ∷ room 9 ∷ [])
      ≡ finished Code.ok
          (record (flow_of tcp (hello ∷ []) false) { buffered_messages = []; is_draining = false })
          log)
unfolding is_empty
write_flush-finishes_example =
    write_flush-finishes (flow_of tcp (hello ∷ []) false) (room 1 ∷ room 1 ∷ room 9 ∷ []) refl refl
      refl (hello-IsValid, tt) (omega arith, (omega arith, (omega arith, tt))) (omega arith)

-- A write of three bytes of which the kernel takes two.
write_to_lower_layer-Wrote_example : Wrote (flow_of tcp [] false) (4 ∷ 5 ∷ 6 ∷ []) (
    write_to_lower_layer
      (flow_of tcp [] false)
      (4 ∷ 5 ∷ 6 ∷ [])
      (record { tag = tag_stream_id; integer = some (pos 0) } ∷ [])
      (room 2)
      true
      true)
write_to_lower_layer-Wrote_example =
    write_to_lower_layer-Wrote (flow_of tcp [] false) (4 ∷ 5 ∷ 6 ∷ [])
      (record { tag = tag_stream_id; integer = some (pos 0) } ∷ []) (room 2) tt (λ tcp. refl)

abbrev streaming : Flow
streaming = record (flow_of udp [] false) { preserve_message_boundaries = false }

read_from_lower_layer-boundaries_example :
    ReadsMessage
      (flow_of udp [] false)
      2
      (read_from_lower_layer (flow_of udp [] false) 2 (stream_id ∷ []) no_data)
unfolding base_stack
read_from_lower_layer-boundaries_example =
    read_from_lower_layer-boundaries (flow_of udp [] false) 2 (stream_id ∷ []) no_data
      (record { allocated = omega arith; within = omega arith }) refl refl refl

-- A write of three bytes of which the kernel takes none.
write_to_lower_layer-Watches_example :
    Watches (write_to_lower_layer (flow_of tcp [] false) (4 ∷ 5 ∷ 6 ∷ []) [] would_block true true)
write_to_lower_layer-Watches_example =
    write_to_lower_layer-Watches (flow_of tcp [] false) (4 ∷ 5 ∷ 6 ∷ []) [] would_block true true

-- An SCTP flow with an empty read buffer.
abbrev listening : Flow
listening = record (flow_of sctp [] false) {
  read_buffer = [];
  read_buffer_size = 0;
  read_buffer_allocation = 0;
  read_buffer_msg_complete = false;
}

abbrev quiet : Kernel
quiet = record {
  allocates = true;
  allocates_again = true;
  datagram = some (7 ∷ 8 ∷ []);
  arrival = refused;
  has_byte = true;
}

abbrev udp_flow : Bool → Flow
udp_flow accepts = record (flow_of udp [] false) {
  read_buffer = [];
  read_buffer_size = 0;
  read_buffer_allocation = 0;
  read_buffer_msg_complete = false;
  accept_pending = accepts;
}

abbrev opens : Acceptance
opens = record { new_flow = udp_flow false; kernel = quiet }

abbrev three_bytes : List ℕ
three_bytes = 4 ∷ 5 ∷ 6 ∷ []

-- The kernel hands over two bytes, and then the third.
deliver-read_from_lower_layer_example :
    (after : Flow) × (r : Reading) × (deliver (2 ∷ 1 ∷ 5 ∷ []) listening three_bytes opens
      ≡ some after)
    × (read_from_lower_layer after 100 [] no_data ≡ done Code.ok r)
    × (r.bytes ≡ cells three_bytes)
deliver-read_from_lower_layer_example =
    deliver-read_from_lower_layer (2 ∷ 1 ∷ 5 ∷ []) listening three_bytes opens 100 [] no_data
      (record {
        over_sctp = refl;
        known = inr (omega arith);
        sized = record { recorded = refl; fits = omega arith };
        open_message = refl;
        not_accepting = refl;
      })
      (omega arith, (omega arith, (omega arith, tt))) (omega arith) refl refl (omega arith)
      (omega arith)

io_readable-Accepted_example :
    Accepted
      (cells (take (capacity (udp_flow true)) (7 ∷ 8 ∷ [])))
      (space opens)
      (io_readable (udp_flow true) quiet opens)
io_readable-Accepted_example =
    io_readable-Accepted (udp_flow true) quiet opens (7 ∷ 8 ∷ [])
      (record {
        over_udp = refl;
        known = inr (omega arith);
        sized = record { recorded = refl; fits = omega arith };
        open_message = refl;
      })
      refl refl refl (omega arith) (inr (omega arith))
      (record { recorded = refl; fits = omega arith }) refl

io_writable-SettlesDrained_example :
    SettlesDrained (io_writable (λ f. f) (flow_of tcp (hello ∷ []) false) (room 9 ∷ []))
unfolding is_empty
io_writable-SettlesDrained_example =
    io_writable-SettlesDrained (λ f. f) (flow_of tcp (hello ∷ []) false) (room 9 ∷ []) (λ f t. t)
      (inl refl)

abbrev telling : Flow
telling = record (flow_of tcp (hello ∷ []) false) {
  operations = record writing { on_all_written = true };
}

io_writable-due_example :
    (left : Flow) × (log : List Chunk) × (io_writable
        (λ f. f)
        telling
        (room 1 ∷ room 1 ∷ room 9 ∷ [])
      ≡ wrote left (due telling ∷ []) log)
    × (taken log ≡ backlog telling.buffered_messages)
    × (left.buffered_messages ≡ [])
    × (left.is_draining ≡ false)
unfolding is_empty
io_writable-due_example =
    io_writable-due (λ f. f) telling (room 1 ∷ room 1 ∷ room 9 ∷ []) refl refl refl refl refl refl
      (hello-IsValid, tt) (omega arith, (omega arith, (omega arith, tt))) (omega arith)

-- The socket of a flow with an empty buffer is writable and has a message to read.
abbrev both : Signals
both = record {
  poll_failed = false;
  is_readable = true;
  is_writable = true;
  so_error = none;
  streams = none;
  answers = room 9 ∷ [];
  kernel = delivering 9 (4 ∷ 5 ∷ 6 ∷ []);
  acceptance = opens;
}

uvpollable_cb-Registers_example : Registers (uvpollable_cb (λ e f. f) both listening)
uvpollable_cb-Registers_example = uvpollable_cb-Registers (λ e f. f) both listening refl refl
