-- ===== src/HappyEyeballs/Outcome.antt =====
-- How a race ends: with one connection, or with one error.
use neat.Base.{
  ℕ, suc, ◌+◌, ◌<◌, ◌≡◌, ◌⊎◌, refl, ap, sym, ◌∙◌, false, Bool-cases, inl, inr, List, [], ◌∷◌, map,
  arith, length, length-map, if◌then◌else◌,
}
use neat.HappyEyeballs.{
  Stage, scheduled, connecting, carries, ended, Candidate, Race, increment, count_up,
  delayed_connect_req, he_open,
}
use neat.HappyEyeballs.Steps.{Reach, here, next}
use neat.HappyEyeballs.Tally.{
  total, carrying, unfinished, gives_up, closed, is_internal, tally, IsRunning, Status, running,
  lost,
}
use neat.HappyEyeballs.Preserves.{Step-Status}

count_up-length :
    (cs : List Candidate) (n : ℕ) → n + length cs < 256 → count_up cs n ≡ n + length cs
count_up-length [] n h = omega arith
count_up-length (c ∷ cs) n h =
    let i : increment n ≡ suc n = omega arith in
    ap (count_up cs) i ∙ count_up-length cs (suc n) (omega arith) ∙ omega arith

total-scheduled :
    (f : Stage → ℕ) (cs : List Candidate)
    → f scheduled ≡ 0
    → total f (map delayed_connect_req cs) ≡ 0
total-scheduled f [] e = refl
total-scheduled f (c ∷ cs) e = omega (arith, e, total-scheduled f cs e)

he_open-IsRunning :
    (race : Race) (candidates : List Candidate)
    → race.errors ≡ []
    → 0 < length candidates
    → length candidates < 256
    → IsRunning (he_open race candidates)
unfolding he_open
he_open-IsRunning race candidates e h g =
    let l = length-map candidates delayed_connect_req in
    record {
      counted = count_up-length candidates 0 (omega arith) ∙ omega (arith, l);
      some_left = omega (arith, l);
      few = omega (arith, l);
      one_carries = total-scheduled carrying candidates refl;
      not_given_up = ap (tally gives_up) e;
      closed_reported = total-scheduled closed candidates refl ∙ ap (tally is_internal) (sym e);
    }

-- In every state that a race of between 1 and 255 candidates reaches, whatever the order of the
-- timers and of the events of the sockets and whatever the answers: either no error that gives
-- the connection up was reported, and exactly one candidate carries the flow if there was a
-- first connect and none if there was not, or exactly one such error was reported, no candidate
-- ever connected and nothing is still to come.
pub Reach-Status :
    (race : Race) (candidates : List Candidate) {after : Race}
    → race.errors ≡ []
    → 0 < length candidates
    → length candidates < 256
    → Reach (he_open race candidates) after
    → Status after
Reach-Status race candidates e h g here = running (he_open-IsRunning race candidates e h g)
Reach-Status race candidates e h g (next r s) = Step-Status s (Reach-Status race candidates e h g r)

one_stage : (s : Stage) → unfinished s + (carrying s + closed s) ≡ 1
one_stage scheduled = refl
one_stage connecting = refl
one_stage carries = refl
one_stage ended = refl

length_total :
    (cs : List Candidate) → length cs ≡ total unfinished cs + (total carrying cs + total closed cs)
length_total [] = omega arith
length_total (c ∷ cs) = omega (arith, length_total cs, one_stage c.stage)

-- When nothing of a race of between 1 and 255 candidates is still to come, the application has
-- heard of it: there was a first connect, or an error that gives the connection up was reported,
-- or an internal error.
pub Reach-answered :
    (race : Race) (candidates : List Candidate) {after : Race}
    → race.errors ≡ []
    → 0 < length candidates
    → length candidates < 256
    → Reach (he_open race candidates) after
    → total unfinished after.candidate_list ≡ 0
    → (after.first_connect ≡ false)
      ⊎ (0 < tally gives_up after.errors + tally is_internal after.errors)
Reach-answered race candidates {after} e h g r f = elim (Reach-Status race candidates e h g r) [
  | lost l ↦ inr (omega (arith, l.given_up))
  | running r ↦ elim (Bool-cases after.first_connect) [
    | inr c ↦ inl c
    | inl c ↦
        let z : total carrying after.candidate_list ≡ 0 =
          r.one_carries ∙ ap (λ b. if b then 0 else 1) c in
        inr (omega (arith, length_total after.candidate_list, z, r.some_left, r.closed_reported, f))
  ]
]
