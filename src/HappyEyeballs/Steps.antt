-- ===== src/HappyEyeballs/Steps.antt =====
-- The race as a step relation: a timer fires or the socket of a candidate has an event.
use neat.Base.{◌≡◌, Bool, List, ◌∷◌, ◌++◌}
use neat.HappyEyeballs.{
  Race, Candidate, Answers, scheduled, connecting, on_connect_req, connected_cb,
}

pub data Step (race : Race) : Race → Type 0 where
  timer :
      (before : List Candidate) (candidate : Candidate) (behind : List Candidate) (connects : Bool)
      → race.candidate_list ≡ before ++ candidate ∷ behind
      → candidate.stage ≡ scheduled
      → Step race (on_connect_req race before candidate behind connects)
  event :
      (before : List Candidate) (candidate : Candidate) (behind : List Candidate)
      (answers : Answers)
      → race.candidate_list ≡ before ++ candidate ∷ behind
      → candidate.stage ≡ connecting
      → Step race (connected_cb race before candidate behind answers)

-- The states of a race in the order of its steps.
pub data Reach (start : Race) : Race → Type 0 where
  here : Reach start start
  next : {race after : Race} → Reach start race → Step race after → Reach start after
