-- ===== src/Qos/Marks.antt =====
-- What ends up in the TOS field.
use Prim.Native.Nat.{bit_or}
use neat.Base.{
  ℕ, zero, suc, ◌+◌, ◌*◌, ◌%◌, ◌<◌, ◌≡◌, refl, ap, Bool, true, Bool-cases, inl, inr, ◌&&◌, [], ◌∷◌,
  arith, ◌==◌,
}
use neat.Flow.Stack.{udp}
use neat.Flow.State.{Code}
use neat.Qos.{Marking, ip_tos, set_tos, set_qos, set_ecn}

-- A test holds of all numbers below a bound.
abbrev pub all_below : ℕ → (ℕ → Bool) → Bool
all_below zero test = true
all_below (suc n) test = test n && all_below n test

all_below-at : (n : ℕ) (test : ℕ → Bool) (k : ℕ) → k < n → all_below n test ≡ true → test k ≡ true
all_below-at zero test k h e = absurd (omega arith)
all_below-at (suc n) test k h e = elim (Bool-cases (k == n)) [
  | inl at ↦ let z : k ≡ n = ground arith in rw z (ground (arith, e))
  | inr other ↦ all_below-at n test k (ground arith) (ground (arith, e))
]

-- The digits of a DSCP and of an ECN value do not meet.
abbrev pub apart : ℕ → ℕ → Bool
apart q e = bit_or (q * 4) e == q * 4 + e

all_apart : all_below 64 (λ q. all_below 4 (apart q)) ≡ true
all_apart = refl

bit_or_apart : (q e : ℕ) → q < 64 → e < 4 → bit_or (q * 4) e ≡ q * 4 + e
bit_or_apart q e h k =
    let row = all_below-at 64 (λ q. all_below 4 (apart q)) q h all_apart in
    let cell = all_below-at 4 (apart q) e k row in ground arith

-- On UDP, setting the quality of service and then the congestion notification puts the six low
-- bits of the one above the two low bits of the other, whatever was set before.
pub set_ecn-set_qos :
    (flow : Marking) (qos ecn : ℕ)
    → (set_ecn (set_qos flow udp qos true).0 udp ecn true).1
      ≡ (Code.ok, ip_tos (qos % 64 * 4 + ecn % 4) ∷ [])
unfolding set_qos set_ecn set_tos
set_ecn-set_qos flow qos ecn =
    ap (λ t. (Code.ok, ip_tos t ∷ []))
      (bit_or_apart (qos % 64) (ecn % 4) (omega arith) (omega arith))
