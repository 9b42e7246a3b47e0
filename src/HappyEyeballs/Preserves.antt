-- ===== src/HappyEyeballs/Preserves.antt =====
-- Each step of a race leaves it running, or lost.
use neat.Base.{
  ℕ, ◌≡◌, refl, ap, sym, ◌∙◌, Bool, true, false, ◌&&◌, Bool-cases, subst, inl, inr, List, ◌∷◌,
  Option-cases, arith, length, length-append, ◌==◌, if◌then◌else◌,
}
use neat.Flow.State.{Code}
use neat.HappyEyeballs.{
  Stage, scheduled, connecting, carries, ended, Candidate, Race, Answers, decrement, on_connect_req,
  poll, write_pending, install_security, secure_or_poll, adopted, release, connection_status,
  connected_cb, is_tcp_or_udp,
}
use neat.HappyEyeballs.Steps.{Step, timer, event}
use neat.HappyEyeballs.Tally.{
  total, total-append, carrying, unfinished, gives_up, closed, is_internal, tally, tally-append,
  IsRunning, IsLost, Status, Splits, splits, removed-IsRunning, decrement-IsLast, running, lost,
}

pub on_connect_req-Status :
    (race : Race) (before : List Candidate) (candidate : Candidate) (behind : List Candidate)
    (connects : Bool)
    → IsRunning race
    → Splits race before scheduled behind
    → Status (on_connect_req race before candidate behind connects)
unfolding on_connect_req
on_connect_req-Status race before candidate behind true r s =
    let l = length-append before (record candidate { stage = connecting } ∷ behind) in
    let t =
      λ (f : Stage → ℕ). total-append f before (record candidate { stage = connecting } ∷ behind) in
    running (record {
      counted = omega (arith, l, s.lengths, r.counted);
      some_left = omega (arith, l);
      few = omega (arith, l, s.lengths, r.few);
      one_carries = t carrying ∙ sym (s.totals carrying) ∙ r.one_carries;
      not_given_up = r.not_given_up;
      closed_reported = t closed ∙ sym (s.totals closed) ∙ r.closed_reported;
    })
on_connect_req-Status race before candidate behind false r s =
    elim (Bool-cases (decrement race.connect_attempt_count == 0)) [
      | inl e ↦
          let a = decrement-IsLast race before behind scheduled r s refl e in
          let t = λ (f : Stage → ℕ).
            total-append f before (record candidate { stage = ended } ∷ behind) in
          simp (e) (
            lost (record {
              unconnected = a.unconnected;
              given_up = tally-append gives_up race.errors _ ∙ omega (arith, r.not_given_up);
              none_carries = omega (arith, t carrying, a.alone carrying);
              all_finished = omega (arith, t unfinished, a.alone unfinished);
            }))
      | inr e ↦ simp (e) (
          running
            (removed-IsRunning race _ before behind scheduled r s refl refl e refl refl refl refl))
    ]

pub release-Status :
    (race : Race) (before : List Candidate) (behind : List Candidate) (connected : Bool)
    → IsRunning race
    → Splits race before connecting behind
    → Status (release race before behind connected)
unfolding release
release-Status race before behind connected r s =
    elim (Bool-cases (decrement race.connect_attempt_count == 0)) [
      | inl e ↦
          let a = decrement-IsLast race before behind connecting r s refl e in
          let t = λ (f : Stage → ℕ). total-append f before behind in
          simp (e) (
            lost (record {
              unconnected = a.unconnected;
              given_up = tally-append gives_up race.errors _ ∙ omega (arith, r.not_given_up);
              none_carries = t carrying ∙ a.alone carrying;
              all_finished = t unfinished ∙ a.alone unfinished;
            }))
      | inr e ↦ simp (e) (
          running
            (removed-IsRunning race _ before behind connecting r s refl refl e refl refl refl refl))
    ]

-- What a step leaves alone.
pub record Agrees (race after : Race) : Type 0 where
  pub same_list : after.candidate_list ≡ race.candidate_list
  pub same_count : after.connect_attempt_count ≡ race.connect_attempt_count
  pub same_first : after.first_connect ≡ race.first_connect
  pub same_give_ups : tally gives_up after.errors ≡ tally gives_up race.errors
  pub same_internal : tally is_internal after.errors ≡ tally is_internal race.errors

pub unchanged :
    {race : Race} {reports : List Bool} {polls : ℕ} {pending : Bool}
    → Agrees race (record race { reports = reports; polls = polls; first_write_pending = pending })
unchanged = record {
  same_list = refl;
  same_count = refl;
  same_first = refl;
  same_give_ups = refl;
  same_internal = refl;
}

pub Agrees-IsRunning : {race after : Race} → Agrees race after → IsRunning race → IsRunning after
Agrees-IsRunning a r = record {
  counted = a.same_count ∙ r.counted ∙ ap length (sym a.same_list);
  some_left = rw (a.same_list) r.some_left;
  few = rw (a.same_list) r.few;
  one_carries =
      ap (total carrying) a.same_list
      ∙ r.one_carries
      ∙ ap (λ b. if b then 0 else 1) (sym a.same_first);
  not_given_up = a.same_give_ups ∙ r.not_given_up;
  closed_reported = ap (total closed) a.same_list ∙ r.closed_reported ∙ sym a.same_internal;
}

pub poll-Agrees : (race : Race) (answers : Answers) → Agrees race (poll race answers)
unfolding poll
poll-Agrees race answers = elim (Bool-cases (answers.is_writable && race.first_write_pending)) [
  | inl e ↦ simp (e) (record {
    same_list = refl;
    same_count = refl;
    same_first = refl;
    same_give_ups = refl;
    same_internal = refl;
  })
  | inr e ↦ simp (e) (record {
    same_list = refl;
    same_count = refl;
    same_first = refl;
    same_give_ups = refl;
    same_internal = refl;
  })
]

write_pending-Agrees : (race : Race) (answers : Answers) → Agrees race (write_pending race answers)
unfolding poll
write_pending-Agrees race answers = elim (Bool-cases answers.is_writable) [
  | inl e ↦ simp (e) (record {
    same_list = refl;
    same_count = refl;
    same_first = refl;
    same_give_ups = refl;
    same_internal = refl;
  })
  | inr e ↦ simp (e) (record {
    same_list = refl;
    same_count = refl;
    same_first = refl;
    same_give_ups = refl;
    same_internal = refl;
  })
]

pub secure_or_poll-Agrees :
    (race : Race) (candidate : Candidate) (answers : Answers)
    → Agrees race (secure_or_poll race candidate answers)
unfolding secure_or_poll install_security
secure_or_poll-Agrees race candidate answers =
    elim (Bool-cases (race.security_needed && is_tcp_or_udp race.socket.stack)) [
      | inr e ↦ simp (e) (write_pending-Agrees race answers)
      | inl e ↦ elim (Bool-cases candidate.secure) [
        | inr s ↦ simp (e, s) (write_pending-Agrees race answers)
        | inl s ↦ elim (Bool-cases answers.installs) [
          | inl i ↦ simp (e, s, i) unchanged
          | inr i ↦
              simp (e, s, i)
                (record {
                  same_list = refl;
                  same_count = refl;
                  same_first = refl;
                  same_give_ups = tally-append gives_up race.errors _ ∙ omega arith;
                  same_internal = tally-append is_internal race.errors _ ∙ omega arith;
                })
        ]
      ]
    ]

pub adopted-IsRunning :
    (race : Race) (before : List Candidate) (candidate : Candidate) (behind : List Candidate)
    → IsRunning race
    → Splits race before connecting behind
    → race.first_connect ≡ true
    → IsRunning (adopted race before candidate behind)
unfolding adopted
adopted-IsRunning race before candidate behind r s f =
    let l = length-append before (record candidate { stage = carries } ∷ behind) in
    let t =
      λ (f : Stage → ℕ). total-append f before (record candidate { stage = carries } ∷ behind) in
    let z : total carrying race.candidate_list ≡ 0 =
      r.one_carries ∙ ap (λ b. if b then 0 else 1) f in
    record {
      counted = omega (arith, l, s.lengths, r.counted);
      some_left = omega (arith, l);
      few = omega (arith, l, s.lengths, r.few);
      one_carries = omega (arith, t carrying, z, s.totals carrying);
      not_given_up = r.not_given_up;
      closed_reported = t closed ∙ sym (s.totals closed) ∙ r.closed_reported;
    }

pub connection_status-Status :
    (race : Race) (before : List Candidate) (candidate : Candidate) (behind : List Candidate)
    (connected : Bool) (answers : Answers)
    → IsRunning race
    → Splits race before connecting behind
    → Status (connection_status race before candidate behind connected answers)
unfolding connection_status
connection_status-Status race before candidate behind connected answers r s =
    elim (Bool-cases race.first_write_pending) [
      | inl w ↦
          simp (w)
            (running (Agrees-IsRunning (poll-Agrees _ answers) (Agrees-IsRunning unchanged r)))
      | inr w ↦ elim (Bool-cases (race.first_connect && connected)) [
        | inl c ↦
            let f : race.first_connect ≡ true = ground (arith, c) in
            simp (w, c)
              (running (
                Agrees-IsRunning
                  (secure_or_poll-Agrees (adopted race before candidate behind) candidate answers)
                  (adopted-IsRunning race before candidate behind r s f)))
        | inr c ↦ simp (w, c) (release-Status race before behind connected r s)
      ]
    ]

pub connected_cb-Status :
    (race : Race) (before : List Candidate) (candidate : Candidate) (behind : List Candidate)
    (answers : Answers)
    → IsRunning race
    → Splits race before connecting behind
    → Status (connected_cb race before candidate behind answers)
unfolding connected_cb
connected_cb-Status race before candidate behind answers r s =
    elim (Option-cases answers.connected) [
      | inl e ↦
          let l = length-append before (record candidate { stage = ended } ∷ behind) in
          let t = λ (f : Stage → ℕ).
            total-append f before (record candidate { stage = ended } ∷ behind) in
          simp (e, connected_cb)
            (running (record {
              counted = omega (arith, l, s.lengths, r.counted);
              some_left = omega (arith, l);
              few = omega (arith, l, s.lengths, r.few);
              one_carries = t carrying ∙ sym (s.totals carrying) ∙ r.one_carries;
              not_given_up = tally-append gives_up race.errors _ ∙ omega (arith, r.not_given_up);
              closed_reported = omega (
                arith,
                t closed,
                s.totals closed,
                r.closed_reported,
                tally-append is_internal race.errors Code.internal,
              );
            }))
      | inr (connected, e) ↦ elim (Bool-cases answers.allocates) [
        | inl a ↦
            simp (e, a, connected_cb)
              (connection_status-Status race before candidate behind connected answers r s)
        | inr a ↦ simp (e, a, connected_cb) (running r)
      ]
    ]

-- A race that was lost takes no step.
pub lost_stops :
    {race : Race} {before : List Candidate} {stage : Stage} {behind : List Candidate}
    → IsLost race
    → Splits race before stage behind
    → unfinished stage ≡ 0
lost_stops l s = omega (arith, l.all_finished, s.totals unfinished)

pub Step-Status : {race after : Race} → Step race after → Status race → Status after
Step-Status {race} (timer before candidate behind connects e g) (running r) =
    on_connect_req-Status race before candidate behind connects r
      (subst (λ x. Splits race before x behind) g (splits race before candidate behind e))
Step-Status {race} (event before candidate behind answers e g) (running r) =
    connected_cb-Status race before candidate behind answers r
      (subst (λ x. Splits race before x behind) g (splits race before candidate behind e))
Step-Status {race} (timer before candidate behind connects e g) (lost l) = absurd (
    omega (
      arith,
      lost_stops l
          (subst (λ x. Splits race before x behind) g (splits race before candidate behind e)),
    ))
Step-Status {race} (event before candidate behind answers e g) (lost l) = absurd (
    omega (
      arith,
      lost_stops l
          (subst (λ x. Splits race before x behind) g (splits race before candidate behind e)),
    ))
