-- ===== src/Flow/Stack.antt =====
-- The protocol stacks of neat.h, and what neat_core.c and neat_json_helpers.c compute from one.
use neat.Base.{ℕ, if◌then◌else◌, Bool, true, false}

pub data Stack : Type 0 where
  udp udplite tcp mptcp sctp sctp_udp webrtc : Stack

-- Both switches answer 0 for a value outside the enumeration, which has no constructor here.
unfoldable pub base_stack : Stack → Stack
base_stack udp = udp
base_stack udplite = udplite
base_stack tcp = tcp
base_stack mptcp = mptcp
base_stack sctp = sctp
base_stack sctp_udp = webrtc
base_stack webrtc = webrtc

abbrev pub is_sctp : Stack → Bool
is_sctp sctp = true
is_sctp _ = false

abbrev pub is_tcp : Stack → Bool
is_tcp tcp = true
is_tcp _ = false

-- `nt_stack_to_protocol`, with IPPROTO_UDPLITE and IPPROTO_SCTP defined; `mptcp_support` is the build
-- option. The numbers are those of the protocols at IANA.
unfoldable pub stack_to_protocol : Bool → Stack → ℕ
stack_to_protocol mptcp_support udp = 17
stack_to_protocol mptcp_support udplite = 136
stack_to_protocol mptcp_support mptcp = if mptcp_support then 6 else 0
stack_to_protocol mptcp_support tcp = 6
stack_to_protocol mptcp_support sctp_udp = 132
stack_to_protocol mptcp_support webrtc = 132
stack_to_protocol mptcp_support sctp = 132
