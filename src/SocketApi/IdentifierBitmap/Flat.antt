-- ===== src/SocketApi/IdentifierBitmap/Flat.antt =====
-- The bitmap as one sequence of bits, and what the loops and accesses are on it.
use neat.Base.{
  ℕ, zero, suc, ◌+◌, ◌*◌, ◌<◌, ◌≡◌, refl, ap, sym, ◌∙◌, Bool, true, false, List, [], ◌∷◌, ◌++◌,
  some, get_elem?, set, length, length-append, length-set, if◌then◌else◌, Bool-cases, inl, inr,
  arith,
}
use neat.SocketApi.IdentifierBitmap.{Word, slotsize, bit?, set_bit, is_full, find_word, find_bit}

abbrev pub bits : List Word → List Bool
bits [] = []
bits (w ∷ ws) = w ++ bits ws

abbrev pub Shaped : List Word → Type 0
Shaped [] = Unit {0}
Shaped (w ∷ ws) = (length w ≡ slotsize) × Shaped ws

-- The index of the first clear bit, or the length if there is none.
abbrev pub first_clear : List Bool → ℕ
first_clear [] = 0
first_clear (b ∷ w) = if b then suc (first_clear w) else 0

get_elem?-append_left :
    (w v : List Bool) (k : ℕ) → k < length w → get_elem? (w ++ v) k ≡ get_elem? w k
get_elem?-append_left [] v k h = absurd (omega arith)
get_elem?-append_left (b ∷ w) v zero h = refl
get_elem?-append_left (b ∷ w) v (suc k) h = get_elem?-append_left w v k (omega arith)

get_elem?-append_right :
    (w v : List Bool) (k n : ℕ) → n ≡ length w + k → get_elem? (w ++ v) n ≡ get_elem? v k
get_elem?-append_right [] v k n e = let z : n ≡ k = omega arith in rw z refl
get_elem?-append_right (b ∷ w) v k zero e = absurd (omega arith)
get_elem?-append_right (b ∷ w) v k (suc n) e = get_elem?-append_right w v k n (omega arith)

set-append_left :
    (w v : List Bool) (k : ℕ) (x : Bool) → k < length w → set (w ++ v) k x ≡ set w k x ++ v
set-append_left [] v k x h = absurd (omega arith)
set-append_left (b ∷ w) v zero x h = refl
set-append_left (b ∷ w) v (suc k) x h = ap (λ l. b ∷ l) (set-append_left w v k x (omega arith))

set-append_right :
    (w v : List Bool) (k n : ℕ) (x : Bool) → n ≡ length w + k → set (w ++ v) n x ≡ w ++ set v k x
set-append_right [] v k n x e = let z : n ≡ k = omega arith in rw z refl
set-append_right (b ∷ w) v k zero x e = absurd (omega arith)
set-append_right (b ∷ w) v k (suc n) x e =
    ap (λ l. b ∷ l) (set-append_right w v k n x (omega arith))

-- Bit `j` of word `i` is bit `i * 64 + j` of the sequence.
pub bit?-bits :
    (ws : List Word) (i j n : ℕ)
    → Shaped ws
    → n ≡ i * slotsize + j
    → j < slotsize
    → bit? ws i j ≡ get_elem? (bits ws) n
unfolding bit?
bit?-bits [] i j n s e h = refl
bit?-bits (w ∷ ws) zero j n s e h =
    let z : n ≡ j = omega arith in
    rw z (sym (get_elem?-append_left w (bits ws) j (omega (arith, s.0))))
bit?-bits (w ∷ ws) (suc i) j n s e h =
    bit?-bits ws i j (i * slotsize + j) s.1 refl h
    ∙ sym (get_elem?-append_right w (bits ws) (i * slotsize + j) n (omega (arith, s.0)))

pub bits-set_bit :
    (ws : List Word) (i j n : ℕ) (x : Bool)
    → Shaped ws
    → n ≡ i * slotsize + j
    → j < slotsize
    → bits (set_bit ws i j x) ≡ set (bits ws) n x
unfolding set_bit
bits-set_bit [] i j n x s e h = refl
bits-set_bit (w ∷ ws) zero j n x s e h =
    let z : n ≡ j = omega arith in rw z (sym (set-append_left w (bits ws) j x (omega (arith, s.0))))
bits-set_bit (w ∷ ws) (suc i) j n x s e h =
    ap (λ l. w ++ l) (bits-set_bit ws i j (i * slotsize + j) x s.1 refl h)
    ∙ sym (set-append_right w (bits ws) (i * slotsize + j) n x (omega (arith, s.0)))

pub Shaped-set_bit : (ws : List Word) (i j : ℕ) (x : Bool) → Shaped ws → Shaped (set_bit ws i j x)
unfolding set_bit
Shaped-set_bit [] i j x s = s
Shaped-set_bit (w ∷ ws) zero j x s = (length-set w j x ∙ s.0, s.1)
Shaped-set_bit (w ∷ ws) (suc i) j x s = (s.0, Shaped-set_bit ws i j x s.1)

first_clear-full :
    (w v : List Bool) → is_full w ≡ true → first_clear (w ++ v) ≡ length w + first_clear v
unfolding is_full
first_clear-full [] v e = omega arith
first_clear-full (true ∷ w) v e = omega (arith, first_clear-full w v e)
first_clear-full (false ∷ w) v e = cc

first_clear-open :
    (w v : List Bool)
    → is_full w ≡ false
    → (first_clear (w ++ v) ≡ first_clear w) × (first_clear w < length w)
unfolding is_full
first_clear-open [] v e = cc
first_clear-open (true ∷ w) v e = let r = first_clear-open w v e in (ap suc r.0, omega (arith, r.1))
first_clear-open (false ∷ w) v e = (refl, omega arith)

-- The first loop stops at the word with the first clear bit of the whole sequence.
pub find_word-first_clear :
    (ws : List Word) (k : ℕ)
    → Shaped ws
    → first_clear (bits ws) < length (bits ws)
    → (i n : ℕ) × (w : Word) × (find_word ws k ≡ some (n, w))
      × (n ≡ k + i)
      × (length w ≡ slotsize)
      × (first_clear w < slotsize)
      × (first_clear (bits ws) ≡ i * slotsize + first_clear w)
unfolding find_word
find_word-first_clear [] k s h = absurd (omega arith)
find_word-first_clear (w ∷ ws) k s h = elim (Bool-cases (is_full w)) [
  | inl full ↦
      let f = first_clear-full w (bits ws) full in
      let (i, n, v, e, p, l, c, q) =
        find_word-first_clear ws (k + 1) s.1 (omega (arith, f, length-append w (bits ws))) in
      (suc i, n, v, rw (full, find_word) e, omega arith, l, c, omega (arith, f, q, s.0))
  | inr not_full ↦
      let r = first_clear-open w (bits ws) not_full in
      (
        0,
        k,
        w,
        rw (not_full, find_word) refl,
        omega arith,
        s.0,
        omega (arith, r.1, s.0),
        omega (arith, r.0),
      )
]

-- The second loop stops at the first clear bit of the word.
pub find_bit-first_clear :
    (w : Word) (entries j id : ℕ)
    → first_clear w < length w
    → id + first_clear w < entries
    → find_bit w entries j id ≡ (j + first_clear w, id + first_clear w)
unfolding find_bit
find_bit-first_clear [] entries j id h g = absurd (omega arith)
find_bit-first_clear (true ∷ w) entries j id h g =
    let rest = find_bit-first_clear w entries (j + 1) (id + 1) (omega arith) (omega arith) in
    ground (arith, rest)
find_bit-first_clear (false ∷ w) entries j id h g = ground arith
