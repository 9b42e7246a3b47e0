-- ===== src/HappyEyeballs/Examples.antt =====
-- Races to run the functions of happy eyeballs on.
use neat.Base.{◌≡◌, ◌⊎◌, refl, ◌<◌, ◌+◌, true, false, [], ◌∷◌, none, some, arith}
use neat.Flow.Stack.{Stack, tcp, sctp}
use neat.Flow.State.{Socket}
use neat.HappyEyeballs.{
  Stage, scheduled, connecting, carries, Candidate, Race, Answers, he_open, he_delay,
  on_connect_req,
}
use neat.HappyEyeballs.Steps.{timer, here, next}
use neat.HappyEyeballs.Tally.{Status, tally, gives_up, is_internal}
use neat.HappyEyeballs.Outcome.{Reach-Status, Reach-answered}

abbrev socket_of : Stack → Socket
socket_of stack = record {
  stack = stack;
  has_fd = true;
  sctp_explicit_eor = false;
  sctp_streams_available = 1;
  write_limit = 0;
  write_size = 0;
  read_size = 65536;
  sctp_notification_wait = false;
  sctp_partial_reliability = false;
}

abbrev candidate_of : Stack → Stage → Candidate
candidate_of stack stage = record {
  stage = stage;
  priority = 2;
  delay_value = none;
  secure = false;
  fd = 5;
  socket = socket_of stack;
}

-- A flow before the race.
abbrev idle : Race
idle = record {
  candidate_list = [];
  connect_attempt_count = 0;
  first_connect = false;
  first_write_pending = false;
  is_open = false;
  ever_connected = false;
  is_polling = false;
  security_needed = false;
  socket = socket_of tcp;
  fd = none;
  errors = [];
  reports = [];
  polls = 0;
}

abbrev opened : Race
opened = he_open idle (candidate_of tcp scheduled ∷ candidate_of sctp scheduled ∷ [])

he_delay_test : he_delay (candidate_of tcp scheduled) ≡ 20
unfolding he_delay
he_delay_test = refl

-- The first candidate of two starts to connect.
Reach-Status_example :
    Status (
      on_connect_req opened [] (candidate_of tcp scheduled) (candidate_of sctp scheduled ∷ []) true)
unfolding he_open
Reach-Status_example =
    Reach-Status idle (candidate_of tcp scheduled ∷ candidate_of sctp scheduled ∷ []) refl
      (omega arith) (omega arith)
      (next here
        (timer [] (candidate_of tcp scheduled) (candidate_of sctp scheduled ∷ []) true refl refl))

abbrev alone : Race
alone = he_open idle (candidate_of tcp scheduled ∷ [])

abbrev failed : Race
failed = on_connect_req alone [] (candidate_of tcp scheduled) [] false

-- The only candidate cannot connect.
Reach-answered_example :
    (failed.first_connect ≡ false)
    ⊎ (0 < tally gives_up failed.errors + tally is_internal failed.errors)
unfolding he_open on_connect_req
Reach-answered_example =
    Reach-answered idle (candidate_of tcp scheduled ∷ []) refl (omega arith) (omega arith)
      (next here (timer [] (candidate_of tcp scheduled) [] false refl refl)) refl

-- The second candidate comes up behind the first.
abbrev connected : Race
connected = record idle {
  candidate_list = candidate_of tcp carries ∷ candidate_of sctp connecting ∷ [];
  connect_attempt_count = 2;
  ever_connected = true;
  is_polling = true;
  fd = some 5;
}

abbrev up : Answers
up = record {
  connected = some true;
  allocates = true;
  is_writable = true;
  installs = true;
  streams = some 5;
}
