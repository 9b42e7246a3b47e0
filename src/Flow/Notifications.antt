-- ===== src/Flow/Notifications.antt =====
-- The notifications of an SCTP association, and what `handle_sctp_event` of neat_core.c does with
-- them, in a build without SCTP_MULTISTREAMING.
use neat.Base.{Bool, true, false, ◌&&◌, ◌||◌, List, [], ◌∷◌, if◌then◌else◌}
use neat.Flow.State.{Code, Flow}
use neat.Flow.Callbacks.{Event, notify_network_status_changed, notify_send_failure}

-- READ_OK, READ_WITH_ERROR and READ_WITH_ZERO.
pub data Verdict : Type 0 where
  read_ok read_with_error read_with_zero : Verdict

-- The error causes of SCTP that neat_core.h names; `another` is a number without a name.
pub data Cause : Type 0 where
  no_error invalid_stream missing_param stale_cookie out_of_resc unresolvable_addr unrecog_chunk :
      Cause
  invalid_param unrecog_param no_user_data cookie_in_shutdown restart_w_newaddr : Cause
  user_initiated_abt protocol_violation another : Cause

unfoldable pub sctp_to_neat_code : Cause → Code
sctp_to_neat_code invalid_stream = Code.bad_argument
sctp_to_neat_code unresolvable_addr = Code.bad_argument
sctp_to_neat_code unrecog_chunk = Code.bad_argument
sctp_to_neat_code invalid_param = Code.bad_argument
sctp_to_neat_code unrecog_param = Code.bad_argument
sctp_to_neat_code no_user_data = Code.bad_argument
sctp_to_neat_code missing_param = Code.bad_argument
sctp_to_neat_code stale_cookie = Code.bad_argument
sctp_to_neat_code out_of_resc = Code.io
sctp_to_neat_code cookie_in_shutdown = Code.internal
sctp_to_neat_code protocol_violation = Code.internal
sctp_to_neat_code restart_w_newaddr = Code.internal
sctp_to_neat_code user_initiated_abt = Code.remote
sctp_to_neat_code no_error = Code.internal
sctp_to_neat_code another = Code.internal

-- `sac_state`.
pub data AssocState : Type 0 where
  comm_up comm_lost restart shutdown_comp cant_str_assoc : AssocState

-- An entry of `sac_info`: SCTP_ASSOC_SUPPORTS_PR or another feature.
pub data Feature : Type 0 where
  supports_pr supports_other : Feature

-- `union sctp_notification`, by its type.
pub data Notification : Type 0 where
  assoc_change : AssocState → List Feature → Notification
  send_failed_event : Cause → Notification
  peer_addr_change remote_error shutdown_event adaptation_indication : Notification
  partial_delivery_event stream_reset_event unhandled : Notification

-- The loop over the features, for which only partial reliability leaves a trace.
unfoldable pub supports_partial_reliability : List Feature → Bool
supports_partial_reliability [] = false
supports_partial_reliability (supports_pr ∷ features) = true
supports_partial_reliability (supports_other ∷ features) = supports_partial_reliability features

abbrev pub lists_features : AssocState → Bool
lists_features comm_up = true
lists_features restart = true
lists_features _ = false

abbrev pub is_restart : AssocState → Bool
is_restart restart = true
is_restart _ = false

-- `handle_sctp_assoc_change`.
unfoldable pub handle_sctp_assoc_change : Flow → AssocState → List Feature → Flow × List Event
unfolding supports_partial_reliability
handle_sctp_assoc_change flow state features = (
  record flow {
    socket = record flow.socket {
      sctp_partial_reliability =
          flow.socket.sctp_partial_reliability
          || (lists_features state && supports_partial_reliability features);
    };
  },
  if is_restart state then notify_network_status_changed flow else [],
)

-- `handle_sctp_event`: what it returns, the flow it leaves and the callbacks.
unfoldable pub handle_sctp_event : Flow → Notification → Verdict × Flow × List Event
handle_sctp_event flow (assoc_change state features) =
    let changed = handle_sctp_assoc_change flow state features in (read_ok, changed.0, changed.1)
handle_sctp_event flow (send_failed_event cause) =
    (read_ok, flow, notify_send_failure flow (sctp_to_neat_code cause))
handle_sctp_event flow shutdown_event =
    (read_with_zero, record flow { eof_seen = true; read_buffer_msg_complete = true }, [])
handle_sctp_event flow _ = (read_ok, flow, [])
