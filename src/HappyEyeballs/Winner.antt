-- ===== src/HappyEyeballs/Winner.antt =====
-- The connection of a flow, once there is one, stays what it is.
use neat.Base.{◌≡◌, false}
use neat.HappyEyeballs.{Race}

-- The first connect was before, the descriptor of the flow is as it was, and so is its socket but for
-- the number of streams, which is asked for when the socket gets writable.
pub record Keeps (race after : Race) : Type 0 where
  pub not_first : after.first_connect ≡ false
  pub same_fd : after.fd ≡ race.fd
  pub same_socket :
      after.socket
      ≡ record race.socket { sctp_streams_available = after.socket.sctp_streams_available }
