-- ===== src/Lib.antt =====
-- The NEAT library: what its C code does with the data that it keeps itself, modelled function by
-- function and proved.
--
-- The application opens a flow and reads and writes on it through callbacks. A write goes to
-- nt_write_to_lower_layer (neat_core.c), which offers the bytes to the kernel and buffers the rest
-- with nt_write_fillbuffer; when the socket is writable again, nt_write_flush sends the buffer.
-- nt_update_poll_handle tells the event loop what to wait for. io_writable calls nt_write_flush
-- and ends a flow that was closed in the meantime; io_readable puts arriving data in a read buffer
-- that resize_read_buffer keeps large enough, until nt_read_from_lower_layer hands it to the
-- application. Which of its candidates carries a flow is the outcome of a race, which nt_he_open
-- (neat_he.c) opens and he_connected_cb (neat_core.c) decides. Which addresses a flow can use is
-- kept by neat_addr.c; neat_json_helpers.c reads the transports from the properties; neat_qos.c
-- marks the packets; neat_resolver_helpers.c prepares names and results, and neat_resolver_conf.c
-- keeps the list of the name servers. The policy manager is a process of its own that keeps its
-- policies in a list of files (policy_manager/node.c); it expands a request into one for each
-- choice of its values (parse_json.c), looks up the candidates for a request in the policies
-- (pib.c) and in the description of the interfaces (cib.c), merges their properties and keeps the
-- candidates of the best scores (parse_json.c, pm.c). The socket API (socketapi) puts descriptors
-- on top, with their numbers in a bitmap (socketapi/identifierbitmap.c), and has queues of
-- notifications (socketapi/notificationqueue.c). neat_unix_json_socket.c reads the policy
-- manager's replies.
--
-- Files:
--   Base              names shared by all modules; tests on numbers, lists, integers, strings
--   Flow.Stack        neat.h, nt_base_stack, nt_stack_to_protocol
--   Flow.State        the parts of neat_internal.h and neat.h that the path uses
--   Flow.Memory       blocks of memory; Flow.Memory.Window: a block seen through a window of it
--   Flow.Fill         nt_write_fillbuffer; .Append one message, .Queue the queue of them
--   Flow.Flush        nt_write_flush; .Conserves the byte stream, .Progress its end
--   Flow.Poll         nt_update_poll_handle; .Waits what a flow waits for
--   Flow.Write        nt_write_to_lower_layer; .Conserves the byte stream, .Watches the polling
--   Flow.Read         nt_read_from_lower_layer, resize_read_buffer; .Conserves, .Resize
--   Flow.Callbacks    nt_io_error, io_timeout, nt_notify_*, io_all_written
--   Flow.Notifications  handle_sctp_event and what it calls
--   Flow.Receive      io_readable; .Growth one call, .Delivery a message in pieces, .Datagram
--   Flow.Writable     io_writable, neat_shutdown; .Settles the end of draining
--   Flow.Dispatch     uvpollable_cb, io_connected; .Polls
--   Flow.Filters      neat_write, neat_read, insert_neat_iofilter, free_iofilters; .Order
--   Flow.Life         neat_new_flow, neat_close, neat_abort, nt_free_flow, neat_free_ctx; .Steps what
--                     happens to a flow, .Release, .Preserves, .Outcome its end, .Closing neat_close
--   Flow.Multistream  nt_sctp_get_flow_by_sid, nt_sctp_handle_reset_stream, and the parts of nt_he_open,
--                     io_readable and nt_read_from_lower_layer for SCTP_MULTISTREAMING; .Streams,
--                     .Changes, .Demultiplex, .Collision, .Resets
--   EventCallbacks    nt_add_event_cb, nt_remove_event_cb, nt_run_event_cb; .Last
--   HappyEyeballs     neat_he.c, he_connected_cb, install_security; .Steps the step relation, .Tally,
--                     .Preserves and .Outcome how a race ends, .Winner what stays
--   Addr              neat_addr.c; .Keys and .Source the updates, .Lifetime the timer, .Order the
--                     comparison
--   Transports        neat_json_helpers.c; .Names
--   Resolver.Helpers  neat_resolver_helpers.c; .Internal, .Literals. Resolver.Duplicates:
--                     neat_resolver_helpers_check_duplicate; .Seen
--   Resolver.Servers  neat_resolver_conf.c; .Marks which servers stay
--   PolicyManager.Node  policy_manager/node.c; .Order, .Names, .Removal
--   PolicyManager.Merge  policy_manager/parse_json.c, the merge; .Laws Jansson, .Kept and .Reverse the
--                     immutable properties
--   PolicyManager.Pib policy_manager/pib.c; .Lookup
--   PolicyManager.Cib policy_manager/cib.c; .Unfiltered
--   PolicyManager.Collect  the loops of lookup in policy_manager/pm.c; .Keeps
--   PolicyManager.Expand  policy_manager/parse_json.c, the expansion of requests; .Picked from what
--                     the results come, .Arrays one request, .Requests all of them, .Sample
--   PolicyManager.Ranking  policy_manager/parse_json.c, the scores and the limit, and the end of
--                     lookup in policy_manager/pm.c; .Best which candidates stay
--   PolicyManager.Sample  a JSON library for the examples
--   Ipc               neat_unix_json_socket.c, the replies of the policy manager; .Pieces
--   Qos               neat_qos.c; .Marks the TOS field
--   SocketApi.IdentifierBitmap  socketapi/identifierbitmap.c; .Flat the words as one sequence of bits,
--                     .Marks the invariant, .Allocate, .Free, .Create
--   SocketApi.NotificationQueue  socketapi/notificationqueue.c; .Chain the lists on the heap, .Refines
--                     the abstract queues, .Clear
--   */Examples        runs on concrete inputs
--
-- Fields and functions have the names of the source in lower case with underscores, without the
-- prefixes nt_, neat_, ibm_ and nq_ (bufferedMessages is buffered_messages, nt_write_flush is
-- Flow.Flush.write_flush). A block of memory is a list of cells; an access outside it, or an
-- assertion that fails, is the constructor fault or none, so that a theorem which names a result
-- excludes both. What the system answers is an argument: whether an allocation succeeds, what
-- sendmsg and recv return, the files of a directory, inet_pton, qsort, whether setsockopt
-- succeeds, and the Jansson functions, connectfx and neat_security_install. Callbacks are a log of
-- events; where the application's callback changes the flow and the code goes on with it, what it
-- makes of the flow is a function given as an argument.
--
-- The loop of nt_write_flush runs on the list of the answers of sendmsg, one for each round: a run
-- that has used all answers is still in the loop (running), and Flow.Flush.Progress says how many
-- are enough. nq_clear follows pointers on fuel, and SocketApi.NotificationQueue.Clear says that a
-- round for each notification is enough; limit_json_array counts down on fuel, and
-- PolicyManager.Ranking.Best gives it a round for each candidate and one more. The expansion of
-- arrays in arrays runs on fuel too, and PolicyManager.Expand.Requests says what is enough. All
-- other loops are recursion on the list or word that they walk over. Counters of the C code wrap
-- as their types do (bytes_sent, src_addr_cnt, heConnectAttemptCount, sctp_streams_used); sizes of
-- buffers are not bounded, since they are bounded by memory. A callback for address events that is
-- inserted while it is in the list of another event ends the model (none). Identifiers are C ints:
-- the model is about bitmaps of fewer than 2 ^ 31 entries.
--
-- The build that is modelled has neither usrsctp, rawrtc nor DTLS over SCTP; it has the SCTP
-- socket options and IPPROTO_SCTP. A socket carries one flow, but in Flow.Multistream, which is
-- about the build with SCTP_MULTISTREAMING. In a race of happy eyeballs the timers and the events
-- of the sockets come in any order, and so do the calls and callbacks in the life of a flow. Not
-- modelled: the opening and accepting of flows but for that race, libuv itself, the resolver's DNS
-- requests, OpenSSL, the policy manager's server, the socket API's threads, and all output.
pub mod Base
pub mod EventCallbacks
pub mod Flow
pub mod HappyEyeballs
pub mod SocketApi
pub mod Addr
pub mod PolicyManager
pub mod Resolver
pub mod Transports
pub mod Qos
pub mod Ipc
