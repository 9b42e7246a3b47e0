-- ===== src/Qos.antt =====
-- neat_qos.c: the marking of packets, in a build with SCTP_PEER_ADDR_PARAMS. Whether setsockopt
-- succeeds is an argument, and the options that it is asked to set are a list.
pub mod Marks
mod Examples
use Prim.Native.Nat.{bit_or}
use neat.Base.{ℕ, ◌*◌, ◌%◌, Bool, true, false, List, [], ◌∷◌, if◌then◌else◌}
use neat.Flow.Stack.{Stack, udp, sctp}
use neat.Flow.State.{Code}

-- The fields `qos` and `ecn` of `struct neat_flow`.
pub record Marking : Type 0 where
  pub qos : ℕ
  pub ecn : ℕ

-- SCTP_PEER_ADDR_PARAMS with a DSCP, and IP_TOS.
pub data SocketOption : Type 0 where
  peer_dscp ip_tos : ℕ → SocketOption

-- `nt_map_qos_to_dscp`.
unfoldable pub map_qos_to_dscp : ℕ → ℕ
map_qos_to_dscp qos = qos % 64 * 4

abbrev pub answer : Bool → Code
answer success = if success then Code.ok else Code.unable

-- `nt_set_tos`.
unfoldable pub set_tos : Marking → Stack → Bool → Code × List SocketOption
unfolding map_qos_to_dscp
set_tos flow sctp success = (answer success, peer_dscp (map_qos_to_dscp flow.qos) ∷ [])
set_tos flow udp success =
    (answer success, ip_tos (bit_or (map_qos_to_dscp flow.qos) flow.ecn) ∷ [])
set_tos flow _ success = (Code.ok, [])

-- `neat_set_qos` and `neat_set_ecn`, with the fields that they leave.
unfoldable pub set_qos : Marking → Stack → ℕ → Bool → Marking × (Code × List SocketOption)
unfolding set_tos
set_qos flow stack qos success =
    (record flow { qos = qos }, set_tos (record flow { qos = qos }) stack success)

unfoldable pub set_ecn : Marking → Stack → ℕ → Bool → Marking × (Code × List SocketOption)
unfolding set_tos
set_ecn flow stack ecn success =
    (record flow { ecn = ecn % 4 }, set_tos (record flow { ecn = ecn % 4 }) stack success)
