-- ===== src/Addr/Keys.antt =====
-- The keys of the entries of the list (family, interface and address), and what the changes of the
-- list do to them.
use neat.Base.{
  ◌%◌, ℕ, ◌+◌, ◌≡◌, refl, sym, ◌∙◌, true, false, List, [], ◌∷◌, none, some, length, arith,
  Bool-cases, inl, inr,
}
use neat.Addr.{
  SockAddr, inet, inet6, other, bytes_eq, NeatAddr, Ctx, same_addr, matches, find, remove, renewed,
  renew,
}

-- No entry of the list has this family, interface and address.
abbrev pub Absent : SockAddr → ℕ → List NeatAddr → Type 0
Absent a i [] = Unit {0}
Absent a i (e ∷ l) = (matches e a i ≡ false) × Absent a i l

abbrev pub Unique : List NeatAddr → Type 0
Unique [] = Unit {0}
Unique (e ∷ l) = Absent e.addr e.if_idx l × Unique l

pub record IsValid (nc : Ctx) : Type 0 where
  pub counted : nc.src_addr_cnt ≡ length nc.src_addrs % 256
  pub unique : Unique nc.src_addrs

pub bytes_eq_trans : (x y z : List ℕ) → bytes_eq x y ≡ true → bytes_eq z y ≡ bytes_eq z x
unfolding bytes_eq
bytes_eq_trans [] [] [] e = refl
bytes_eq_trans [] [] (c ∷ z) e = refl
bytes_eq_trans [] (b ∷ y) z e = cc
bytes_eq_trans (a ∷ x) [] z e = cc
bytes_eq_trans (a ∷ x) (b ∷ y) [] e = refl
bytes_eq_trans (a ∷ x) (b ∷ y) (c ∷ z) e = ground (arith, bytes_eq_trans x y z)

pub same_addr_trans : (x y z : SockAddr) → same_addr x y ≡ true → same_addr z y ≡ same_addr z x
unfolding same_addr
same_addr_trans (inet p a) (inet q b) (inet r c) e = ground arith
same_addr_trans (inet p a) (inet q b) (inet6 r g u v) e = refl
same_addr_trans (inet p a) (inet q b) (other f) e = refl
same_addr_trans (inet6 p f x s) (inet6 q g y t) (inet r c) e = refl
same_addr_trans (inet6 p f x s) (inet6 q g y t) (inet6 r h z u) e = bytes_eq_trans x y z e
same_addr_trans (inet6 p f x s) (inet6 q g y t) (other h) e = refl
same_addr_trans (inet p a) (inet6 q g y t) z e = cc
same_addr_trans (inet p a) (other g) z e = cc
same_addr_trans (inet6 p f x s) (inet q b) z e = cc
same_addr_trans (inet6 p f x s) (other g) z e = cc
same_addr_trans (other f) (inet q b) z e = cc
same_addr_trans (other f) (inet6 q g y t) z e = cc
same_addr_trans (other f) (other g) z e = cc

pub matches_trans :
    (e d : NeatAddr) (a : SockAddr) (i : ℕ)
    → matches e a i ≡ true
    → matches d e.addr e.if_idx ≡ matches d a i
unfolding matches
matches_trans e d a i h = ground (arith, same_addr_trans e.addr a d.addr)

pub Absent-trans :
    (e : NeatAddr) (a : SockAddr) (i : ℕ) (l : List NeatAddr)
    → matches e a i ≡ true
    → Absent e.addr e.if_idx l
    → Absent a i l
Absent-trans e a i [] h n = n
Absent-trans e a i (d ∷ l) h n = (sym (matches_trans e d a i h) ∙ n.0, Absent-trans e a i l h n.1)

pub Absent-find : (a : SockAddr) (i : ℕ) (l : List NeatAddr) → Absent a i l → find l a i ≡ none
unfolding find
Absent-find a i [] n = refl
Absent-find a i (e ∷ l) n = ground (arith, Absent-find a i l n.1)

pub find-Absent : (a : SockAddr) (i : ℕ) (l : List NeatAddr) → find l a i ≡ none → Absent a i l
unfolding find
find-Absent a i [] h = tt
find-Absent a i (e ∷ l) h = elim (Bool-cases (matches e a i)) [
  | inl hit ↦ absurd (let x : some e ≡ none = rw (hit, find) at h in cc)
  | inr miss ↦ (miss, find-Absent a i l (rw (miss, find) at h))
]

-- Removal of the first entry that matches leaves none that does, where keys are unique.
pub Absent-remove :
    (b : SockAddr) (j : ℕ) (a : SockAddr) (i : ℕ) (l : List NeatAddr)
    → Absent b j l
    → Absent b j (remove l a i)
unfolding remove
Absent-remove b j a i [] n = n
Absent-remove b j a i (e ∷ l) n = elim (Bool-cases (matches e a i)) [
  | inl hit ↦ rw (hit, remove) n.1
  | inr miss ↦ rw (miss, remove) (n.0, Absent-remove b j a i l n.1)
]

pub Unique-remove : (a : SockAddr) (i : ℕ) (l : List NeatAddr) → Unique l → Unique (remove l a i)
unfolding remove
Unique-remove a i [] u = u
Unique-remove a i (e ∷ l) u = elim (Bool-cases (matches e a i)) [
  | inl hit ↦ rw (hit, remove) u.1
  | inr miss ↦ rw (miss, remove) (Absent-remove e.addr e.if_idx a i l u.0, Unique-remove a i l u.1)
]

pub removed-Absent :
    (a : SockAddr) (i : ℕ) (l : List NeatAddr) → Unique l → Absent a i (remove l a i)
unfolding remove
removed-Absent a i [] u = tt
removed-Absent a i (e ∷ l) u = elim (Bool-cases (matches e a i)) [
  | inl hit ↦ rw (hit, remove) (Absent-trans e a i l hit u.0)
  | inr miss ↦ rw (miss, remove) (miss, removed-Absent a i l u.1)
]

pub length-remove :
    (a : SockAddr) (i : ℕ) (l : List NeatAddr) (e : NeatAddr)
    → find l a i ≡ some e
    → length (remove l a i) + 1 ≡ length l
unfolding find remove
length-remove a i [] e h = cc
length-remove a i (d ∷ l) e h = ground (arith, length-remove a i l e)

-- A renewal keeps every key.
pub Absent-renew :
    (b : SockAddr) (j : ℕ) (a : SockAddr) (i p v : ℕ) (l : List NeatAddr)
    → Absent b j l
    → Absent b j (renew l a i p v)
unfolding renew
Absent-renew b j a i p v [] n = n
Absent-renew b j a i p v (e ∷ l) n = elim (Bool-cases (matches e a i)) [
  | inl hit ↦ rw (hit, renew) (renewed-key ∙ n.0, n.1)
  | inr miss ↦ rw (miss, renew) (n.0, Absent-renew b j a i p v l n.1)
]
  where
    renewed-key : matches (renewed e p v) b j ≡ matches e b j
    renewed-key = refl

pub Unique-renew :
    (a : SockAddr) (i p v : ℕ) (l : List NeatAddr) → Unique l → Unique (renew l a i p v)
unfolding renew
Unique-renew a i p v [] u = u
Unique-renew a i p v (e ∷ l) u = elim (Bool-cases (matches e a i)) [
  | inl hit ↦ rw (hit, renew) u
  | inr miss ↦
      rw (miss, renew) (Absent-renew e.addr e.if_idx a i p v l u.0, Unique-renew a i p v l u.1)
]

pub length-renew :
    (a : SockAddr) (i p v : ℕ) (l : List NeatAddr) → length (renew l a i p v) ≡ length l
unfolding renew
length-renew a i p v [] = refl
length-renew a i p v (e ∷ l) = ground (arith, length-renew a i p v l)
