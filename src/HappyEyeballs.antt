-- ===== src/HappyEyeballs.antt =====
-- Happy eyeballs: `nt_he_open`, `delayed_he_connect_req` and `on_he_connect_req` of neat_he.c and
-- `he_connected_cb` of neat_core.c, in a build with neither SCTP_MULTISTREAMING nor MPTCP_SUPPORT nor
-- DTLS over SCTP. A candidate of the list is given by the candidates before and behind it.
pub mod Steps
pub mod Tally
pub mod Preserves
pub mod Outcome
pub mod Winner
mod Examples
use neat.Base.{
  ℕ, suc, ◌+◌, ◌*◌, ◌%◌, Bool, true, false, not, ◌&&◌, ◌||◌, List, [], ◌∷◌, ◌++◌, map, Option, none,
  some, ◌==◌, if◌then◌else◌,
}
use neat.Flow.Stack.{Stack, tcp, udp, is_sctp}
use neat.Flow.State.{Code, Socket}

-- What has become of a candidate: its timer runs, it connects, it carries the flow, or its handle is
-- closed although it stays in the list.
pub data Stage : Type 0 where
  scheduled connecting carries ended : Stage

-- `struct neat_he_candidate` with its socket; `secure`: its property "security" is true, and
-- `delay_value` is the value of its property "__he_delay".
pub record Candidate : Type 0 where
  pub stage : Stage
  pub priority : ℕ
  pub delay_value : Option ℕ
  pub secure : Bool
  pub fd : ℕ
  pub socket : Socket

-- The fields of `struct neat_flow` that the race uses; `errors` are the calls of `nt_io_error`,
-- `reports` the results sent to the policy manager, and `polls` counts the calls of `uvpollable_cb`.
pub record Race : Type 0 where
  pub candidate_list : List Candidate
  pub connect_attempt_count : ℕ
  pub first_connect : Bool
  pub first_write_pending : Bool
  pub is_open : Bool
  pub ever_connected : Bool
  pub is_polling : Bool
  pub security_needed : Bool
  pub socket : Socket
  pub fd : Option ℕ
  pub errors : List Code
  pub reports : List Bool
  pub polls : ℕ

-- `heConnectAttemptCount` is a `uint8_t`.
abbrev pub increment : ℕ → ℕ
increment n = (n + 1) % 256

abbrev pub decrement : ℕ → ℕ
decrement n = (n + 255) % 256

-- `he_delay`, in milliseconds, for a priority and a value that are not negative; HE_PRIO_DELAY is 10.
unfoldable pub he_delay : Candidate → ℕ
he_delay candidate = elim candidate.delay_value [
  | none ↦ 10 * candidate.priority
  | some value ↦ value * candidate.priority
]

-- `delayed_he_connect_req`: the timer is started.
abbrev pub delayed_connect_req : Candidate → Candidate
delayed_connect_req candidate = record candidate { stage = scheduled }

abbrev pub count_up : List Candidate → ℕ → ℕ
count_up [] n = n
count_up (c ∷ cs) n = count_up cs (increment n)

-- `nt_he_open`.
unfoldable pub he_open : Race → List Candidate → Race
he_open race candidates = record race {
  candidate_list = map delayed_connect_req candidates;
  first_connect = true;
  connect_attempt_count = count_up candidates 0;
}

abbrev pub io_error : Race → Code → Race
io_error race code = record race { errors = race.errors ++ code ∷ [] }

abbrev pub with_count : Race → ℕ → Race
with_count race n = record race { connect_attempt_count = n }

-- `on_he_connect_req`, where `connects` is whether `connectfx` returns neither -1 nor -2.
unfoldable pub on_connect_req : Race → List Candidate → Candidate → List Candidate → Bool → Race
on_connect_req race before candidate behind connects =
    if connects
    then record race { candidate_list = before ++ record candidate { stage = connecting } ∷ behind }
    else if decrement race.connect_attempt_count == 0
    then io_error
        (record race {
          candidate_list = before ++ record candidate { stage = ended } ∷ behind;
          connect_attempt_count = decrement race.connect_attempt_count;
        })
        Code.io
    else record race {
      candidate_list = before ++ behind;
      connect_attempt_count = decrement race.connect_attempt_count;
    }

-- What the world answers to a callback: `getsockopt` with whether the connection is up, if it does
-- not fail, whether memory is to be had, whether UV_WRITABLE is among the events, whether
-- `neat_security_install` succeeds, and the number of streams in SCTP_STATUS, if it can be had.
pub record Answers : Type 0 where
  pub connected : Option Bool
  pub allocates : Bool
  pub is_writable : Bool
  pub installs : Bool
  pub streams : Option ℕ

-- `io_connected`, up to the callback; the number of streams is that of SCTP_STATUS, or 1.
abbrev pub io_connected : Race → Option ℕ → Race
io_connected race streams = record race {
  socket = record race.socket {
    sctp_streams_available =
        if is_sctp race.socket.stack
        then elim streams [ none ↦ 1 | some n ↦ n ]
        else race.socket.sctp_streams_available;
  };
  is_open = true;
}

-- The call of `uvpollable_cb`: the flow is connected if the socket is writable and this is pending.
-- What the call does behind that is Flow.Dispatch.
unfoldable pub poll : Race → Answers → Race
poll race answers =
    let polled = record race { polls = suc race.polls } in
    if answers.is_writable && race.first_write_pending
    then io_connected (record polled { first_write_pending = false }) answers.streams
    else polled

-- `install_security`, with what it returns; whether certificates are verified is left out.
unfoldable pub install_security : Race → Candidate → Bool → Bool × Race
install_security race candidate installs =
    if candidate.secure
    then (true, if installs then race else io_error race Code.security)
    else (false, race)

-- `flow->socket` after the first connect.
abbrev pub adopt_socket : Socket → Candidate → Socket
adopt_socket socket candidate = record socket {
  has_fd = true;
  stack = candidate.socket.stack;
  write_size = candidate.socket.write_size;
  write_limit = candidate.socket.write_limit;
  read_size = candidate.socket.read_size;
  sctp_explicit_eor = candidate.socket.sctp_explicit_eor;
}

abbrev pub is_tcp_or_udp : Stack → Bool
is_tcp_or_udp tcp = true
is_tcp_or_udp udp = true
is_tcp_or_udp _ = false

abbrev pub write_pending : Race → Answers → Race
write_pending race answers = poll (record race { first_write_pending = true }) answers

-- The branch of the first connect, up to the report.
unfoldable pub adopted : Race → List Candidate → Candidate → List Candidate → Race
adopted race before candidate behind = record race {
  candidate_list = before ++ record candidate { stage = carries } ∷ behind;
  first_connect = false;
  fd = some candidate.fd;
  socket = adopt_socket race.socket candidate;
  ever_connected = true;
  is_polling = true;
  reports = race.reports ++ true ∷ [];
}

-- The rest of that branch: security, and the first poll.
unfoldable pub secure_or_poll : Race → Candidate → Answers → Race
secure_or_poll race candidate answers =
    if race.security_needed && is_tcp_or_udp race.socket.stack
    then (let secured = install_security race candidate answers.installs in
        if secured.0 then secured.1 else write_pending (secured.1) answers)
    else write_pending race answers

-- The branch of a candidate that fails or comes late.
unfoldable pub release : Race → List Candidate → List Candidate → Bool → Race
release race before behind connected =
    let left = record race {
      candidate_list = before ++ behind;
      connect_attempt_count = decrement race.connect_attempt_count;
      reports = race.reports ++ connected ∷ [];
    } in
    if decrement race.connect_attempt_count == 0 then io_error left Code.unable else left

-- `he_connected_cb` behind `getsockopt` and the allocations.
unfoldable pub connection_status :
    Race → List Candidate → Candidate → List Candidate → Bool → Answers → Race
connection_status race before candidate behind connected answers =
    if race.first_write_pending
    then poll (record race { reports = race.reports ++ true ∷ [] }) answers
    else if race.first_connect && connected
    then secure_or_poll (adopted race before candidate behind) candidate answers
    else release race before behind connected

-- `he_connected_cb`.
unfoldable pub connected_cb : Race → List Candidate → Candidate → List Candidate → Answers → Race
connected_cb race before candidate behind answers = elim answers.connected [
  | none ↦
      io_error
        (record race { candidate_list = before ++ record candidate { stage = ended } ∷ behind })
        Code.internal
  | some connected ↦
      if answers.allocates
      then connection_status race before candidate behind connected answers
      else race
]
