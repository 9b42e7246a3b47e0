-- ===== src/Addr/Lifetime.antt =====
-- The timer of address lifetimes: what is left of them after any number of ticks.
use neat.Base.{
  ℕ, zero, suc, ◌-◌, ◌≤◌, ◌≡◌, refl, ap, sym, ◌∙◌, List, [], ◌∷◌, map, arith, ◌==◌, if◌then◌else◌,
  Bool-cases, inl, inr, ap₂,
}
use neat.Addr.{
  NeatAddr, Event, Ctx, renewed, is_inet6, unlimited_lifetime, age, age_addr, age_all,
  lifetime_timeout_cb,
}

-- What is left of a lifetime after k ticks.
abbrev pub left : ℕ → ℕ → ℕ
left k n = if n == unlimited_lifetime then n else n - k

abbrev pub aged : ℕ → NeatAddr → NeatAddr
aged k e = if is_inet6 e.addr then renewed e (left k e.ifa_pref) (left k e.ifa_valid) else e

abbrev pub ticks : ℕ → Ctx → Ctx
ticks zero nc = nc
ticks (suc k) nc = lifetime_timeout_cb (ticks k nc)

-- Lifetimes are 32-bit words.
abbrev pub AllWords : List NeatAddr → Type 0
AllWords [] = Unit {0}
AllWords (e ∷ l) =
    ((e.ifa_pref ≤ unlimited_lifetime) × (e.ifa_valid ≤ unlimited_lifetime)) × AllWords l

age-left : (k n : ℕ) → n ≤ unlimited_lifetime → (age (left k n)).0 ≡ left (suc k) n
unfolding age
age-left k n h = ground arith

age_addr-aged :
    (k : ℕ) (e : NeatAddr)
    → e.ifa_pref ≤ unlimited_lifetime
    → e.ifa_valid ≤ unlimited_lifetime
    → (age_addr (aged k e)).0 ≡ aged (suc k) e
unfolding age_addr
age_addr-aged k e p v = elim (Bool-cases (is_inet6 e.addr)) [
  | inl six ↦
      rw (six, age_addr)
        (rw (six) (ap₂ (λ a b. renewed e a b) (age-left k e.ifa_pref p) (age-left k e.ifa_valid v)))
  | inr four ↦ rw (four, age_addr) (rw (four) refl)
]

left_zero : (n : ℕ) → left 0 n ≡ n
left_zero n = ground arith

aged_zero : (e : NeatAddr) → aged 0 e ≡ e
aged_zero e = elim (Bool-cases (is_inet6 e.addr)) [
  | inl six ↦ rw (six) (ap₂ (λ a b. renewed e a b) (left_zero e.ifa_pref) (left_zero e.ifa_valid))
  | inr four ↦ rw (four) refl
]

age_all-aged :
    (k : ℕ) (l : List NeatAddr) (events : List Event)
    → AllWords l
    → (age_all (map (aged k) l) events).0 ≡ map (aged (suc k)) l
unfolding age_all
age_all-aged k [] events w = refl
age_all-aged k (e ∷ l) events (w, r) =
    ap₂ (λ a b. a ∷ b) (age_addr-aged k e w.0 w.1) (age_all-aged k l _ r)

map-aged_zero : (l : List NeatAddr) → map (aged 0) l ≡ l
map-aged_zero [] = refl
map-aged_zero (e ∷ l) = ap₂ (λ a b. a ∷ b) (aged_zero e) (map-aged_zero l)

-- If the lifetimes on the list are 32-bit words, then after k ticks of the timer each IPv6
-- address has k less of each lifetime left, down to 0, and as much as before of one without
-- limit; all else on the list is as it was.
pub lifetime_timeout_cb-ticks :
    (k : ℕ) (nc : Ctx) → AllWords nc.src_addrs → (ticks k nc).src_addrs ≡ map (aged k) nc.src_addrs
unfolding lifetime_timeout_cb
lifetime_timeout_cb-ticks zero nc w = sym (map-aged_zero nc.src_addrs)
lifetime_timeout_cb-ticks (suc k) nc w =
    ap (λ l. (age_all l (ticks k nc).events).0) (lifetime_timeout_cb-ticks k nc w)
    ∙ age_all-aged k nc.src_addrs (ticks k nc).events w
