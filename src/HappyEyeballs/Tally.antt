-- ===== src/HappyEyeballs/Tally.antt =====
-- Sums over the candidates of a race, and what they are while it runs and when it is lost.
use neat.Base.{
  ℕ, suc, ◌+◌, ◌<◌, ◌≡◌, refl, ap, sym, ◌∙◌, true, false, Bool-cases, inl, inr, List, [], ◌∷◌, ◌++◌,
  arith, length, length-append, ◌==◌, if◌then◌else◌,
}
use neat.Flow.State.{Code}
use neat.HappyEyeballs.{Stage, scheduled, connecting, carries, ended, Candidate, Race, decrement}

-- A number for each candidate, summed up.
abbrev pub total : (Stage → ℕ) → List Candidate → ℕ
total f [] = 0
total f (c ∷ cs) = f c.stage + total f cs

pub total-append :
    (f : Stage → ℕ) (xs ys : List Candidate) → total f (xs ++ ys) ≡ total f xs + total f ys
total-append f [] ys = omega arith
total-append f (x ∷ xs) ys = omega (arith, total-append f xs ys)

-- The candidates that carry the flow, and those from which something is still to come.
abbrev pub carrying : Stage → ℕ
carrying carries = 1
carrying _ = 0

abbrev pub unfinished : Stage → ℕ
unfinished scheduled = 1
unfinished connecting = 1
unfinished _ = 0

-- The errors that give the connection up: those of `on_he_connect_req` and of `he_connected_cb` for
-- the last candidate.
abbrev pub gives_up : Code → ℕ
gives_up Code.io = 1
gives_up Code.unable = 1
gives_up _ = 0

-- The candidates whose handle is closed although they are in the list, and the errors reported for
-- them.
abbrev pub closed : Stage → ℕ
closed ended = 1
closed _ = 0

abbrev pub is_internal : Code → ℕ
is_internal Code.internal = 1
is_internal _ = 0

abbrev pub tally : (Code → ℕ) → List Code → ℕ
tally g [] = 0
tally g (code ∷ codes) = g code + tally g codes

pub tally-append :
    (g : Code → ℕ) (xs : List Code) (y : Code) → tally g (xs ++ y ∷ []) ≡ tally g xs + g y
tally-append g [] y = omega arith
tally-append g (x ∷ xs) y = omega (arith, tally-append g xs y)

-- A race that goes on: each candidate in the list is counted, one of them carries the flow if and only
-- if there was a first connect, and for each that is closed an internal error was reported.
pub record IsRunning (race : Race) : Type 0 where
  pub counted : race.connect_attempt_count ≡ length race.candidate_list
  pub some_left : 0 < length race.candidate_list
  pub few : length race.candidate_list < 256
  pub one_carries : total carrying race.candidate_list ≡ (if race.first_connect then 0 else 1)
  pub not_given_up : tally gives_up race.errors ≡ 0
  pub closed_reported : total closed race.candidate_list ≡ tally is_internal race.errors

-- A race that was lost: one error was reported, no candidate carries the flow and nothing is still to
-- come.
pub record IsLost (race : Race) : Type 0 where
  pub unconnected : race.first_connect ≡ true
  pub given_up : tally gives_up race.errors ≡ 1
  pub none_carries : total carrying race.candidate_list ≡ 0
  pub all_finished : total unfinished race.candidate_list ≡ 0

pub data Status (race : Race) : Type 0 where
  running : IsRunning race → Status race
  lost : IsLost race → Status race

-- The candidate that a step is about, in the sums.
pub record Splits (race : Race) (before : List Candidate) (stage : Stage) (behind : List Candidate)
    : Type 0 where
  pub lengths : length race.candidate_list ≡ length before + suc (length behind)
  pub totals :
      (f : Stage → ℕ) → total f race.candidate_list ≡ total f before + (f stage + total f behind)

pub splits :
    (race : Race) (before : List Candidate) (candidate : Candidate) (behind : List Candidate)
    → race.candidate_list ≡ before ++ candidate ∷ behind
    → Splits race before candidate.stage behind
splits race before candidate behind e = record {
  lengths = ap length e ∙ length-append before (candidate ∷ behind);
  totals = λ f. ap (total f) e ∙ total-append f before (candidate ∷ behind);
}

pub decrement_positive : (n : ℕ) → 0 < n → n < 256 → suc (decrement n) ≡ n
decrement_positive n h g = omega arith

pub total_empty : (f : Stage → ℕ) (xs : List Candidate) → length xs ≡ 0 → total f xs ≡ 0
total_empty f [] e = refl
total_empty f (x ∷ xs) e = absurd (omega arith)

-- The race after a candidate that did not carry the flow has left the list.
pub removed-IsRunning :
    (race after : Race) (before behind : List Candidate) (stage : Stage)
    → IsRunning race
    → Splits race before stage behind
    → carrying stage ≡ 0
    → closed stage ≡ 0
    → (decrement race.connect_attempt_count == 0) ≡ false
    → after.candidate_list ≡ before ++ behind
    → after.connect_attempt_count ≡ decrement race.connect_attempt_count
    → after.first_connect ≡ race.first_connect
    → after.errors ≡ race.errors
    → IsRunning after
removed-IsRunning race after before behind stage r s c z e list count first errors =
    let n =
      decrement_positive race.connect_attempt_count (omega (arith, r.counted, r.some_left))
        (omega (arith, r.counted, r.few)) in
    let l : length after.candidate_list ≡ length before + length behind =
      ap length list ∙ length-append before behind in
    let t : total carrying after.candidate_list ≡ total carrying race.candidate_list =
      ap (total carrying) list
      ∙ total-append carrying before behind
      ∙ omega (arith, s.totals carrying, c) in
    record {
      counted = omega (arith, l, s.lengths, r.counted, n, count);
      some_left = ground (arith, l, s.lengths, r.counted, n, e);
      few = omega (arith, l, s.lengths, r.few);
      one_carries = t ∙ r.one_carries ∙ ap (λ b. if b then 0 else 1) (sym first);
      not_given_up = ap (tally gives_up) errors ∙ r.not_given_up;
      closed_reported =
          ap (total closed) list
          ∙ total-append closed before behind
          ∙ omega (arith, s.totals closed, z)
          ∙ r.closed_reported
          ∙ ap (tally is_internal) (sym errors);
    }

-- What is known if the last candidate fails.
pub record IsLast (race : Race) (before behind : List Candidate) : Type 0 where
  pub unconnected : race.first_connect ≡ true
  pub alone : (f : Stage → ℕ) → total f before + total f behind ≡ 0

pub decrement-IsLast :
    (race : Race) (before behind : List Candidate) (stage : Stage)
    → IsRunning race
    → Splits race before stage behind
    → carrying stage ≡ 0
    → (decrement race.connect_attempt_count == 0) ≡ true
    → IsLast race before behind
decrement-IsLast race before behind stage r s c e =
    let n =
      decrement_positive race.connect_attempt_count (omega (arith, r.counted, r.some_left))
        (omega (arith, r.counted, r.few)) in
    let d : decrement race.connect_attempt_count ≡ 0 = ground (arith, e) in
    let b : length before ≡ 0 = omega (arith, n, d, r.counted, s.lengths) in
    let h : length behind ≡ 0 = omega (arith, n, d, r.counted, s.lengths) in
    let alone : (f : Stage → ℕ) → total f before + total f behind ≡ 0 =
      λ f. omega (arith, total_empty f before b, total_empty f behind h) in
    let t = r.one_carries in
    record {
      unconnected = elim (Bool-cases race.first_connect) [
        | inl f ↦ f
        | inr f ↦
            let one : total carrying race.candidate_list ≡ 1 = t ∙ ap (λ b. if b then 0 else 1) f in
            absurd (omega (arith, one, s.totals carrying, alone carrying, c))
      ];
      alone = alone;
    }
