-- ===== src/SocketApi/IdentifierBitmap/Marks.antt =====
-- Allocation and release on a well-formed bitmap, seen through the sequence of its bits.
use neat.Base.{
  ℕ, zero, suc, ◌+◌, ◌-◌, ◌*◌, ◌≤◌, ◌<◌, ◌≡◌, refl, ◌≢◌, Bool, true, false, List, [], ◌∷◌, Option,
  none, some, get_elem?, set, length, length-set, if◌then◌else◌, arith,
}
use neat.SocketApi.IdentifierBitmap.{slotsize, Bitmap, set_bit}
use neat.SocketApi.IdentifierBitmap.Flat.{bits, Shaped, first_clear, bits-set_bit, Shaped-set_bit}

-- How many of the first n bits are set.
abbrev pub count_set : ℕ → List Bool → ℕ
count_set zero l = 0
count_set (suc n) [] = 0
count_set (suc n) (b ∷ l) = if b then suc (count_set n l) else count_set n l

pub record IsValid (ibm : Bitmap) : Type 0 where
  pub shaped : Shaped ibm.bitmap
  pub covered : ibm.entries ≤ length (bits ibm.bitmap)
  pub counted : ibm.available + count_set ibm.entries (bits ibm.bitmap) ≡ ibm.entries

-- Whether an identifier is in use; none behind the last word.
abbrev pub used : Bitmap → ℕ → Option Bool
used ibm id = get_elem? (bits ibm.bitmap) id

pub first_clear-bounded :
    (l : List Bool) (n : ℕ) → count_set n l < n → n ≤ length l → first_clear l < n
first_clear-bounded l zero c h = absurd (omega arith)
first_clear-bounded [] (suc n) c h = absurd (omega arith)
first_clear-bounded (true ∷ l) (suc n) c h =
    omega (arith, first_clear-bounded l n (omega arith) (omega arith))
first_clear-bounded (false ∷ l) (suc n) c h = omega arith

pub first_clear-clear :
    (l : List Bool) → first_clear l < length l → get_elem? l (first_clear l) ≡ some false
first_clear-clear [] h = absurd (omega arith)
first_clear-clear (true ∷ l) h = first_clear-clear l (omega arith)
first_clear-clear (false ∷ l) h = refl

pub first_clear-least : (l : List Bool) (k : ℕ) → k < first_clear l → get_elem? l k ≡ some true
first_clear-least [] k h = absurd (omega arith)
first_clear-least (true ∷ l) zero h = refl
first_clear-least (true ∷ l) (suc k) h = first_clear-least l k (omega arith)
first_clear-least (false ∷ l) k h = absurd (omega arith)

pub count_set-taken :
    (n k : ℕ) (l : List Bool)
    → k < n
    → get_elem? l k ≡ some false
    → count_set n (set l k true) ≡ suc (count_set n l)
count_set-taken zero k l h e = absurd (omega arith)
count_set-taken (suc n) k [] h e = cc
count_set-taken (suc n) zero (b ∷ l) h e = ground arith
count_set-taken (suc n) (suc k) (b ∷ l) h e = ground (arith, count_set-taken n k l (omega arith) e)

pub count_set-freed :
    (n k : ℕ) (l : List Bool)
    → k < n
    → get_elem? l k ≡ some true
    → suc (count_set n (set l k false)) ≡ count_set n l
count_set-freed zero k l h e = absurd (omega arith)
count_set-freed (suc n) k [] h e = cc
count_set-freed (suc n) zero (b ∷ l) h e = ground arith
count_set-freed (suc n) (suc k) (b ∷ l) h e = ground (arith, count_set-freed n k l (omega arith) e)

pub count_set-le : (n : ℕ) (l : List Bool) → count_set n l ≤ n
count_set-le zero l = omega arith
count_set-le (suc n) [] = omega arith
count_set-le (suc n) (b ∷ l) = ground (arith, count_set-le n l)

pub in_bounds : (l : List Bool) (k : ℕ) → k < length l → get_elem? l k ≢ none
in_bounds [] k h e = omega arith
in_bounds (b ∷ l) zero h e = cc
in_bounds (b ∷ l) (suc k) h e = in_bounds l k (omega arith) e

-- The new state when identifier `id`, bit `j` of word `i`, is taken or given back.
module _ (ibm : Bitmap) (i j id : ℕ) (v : IsValid ibm) (at : id ≡ i * slotsize + j)
    (low : j < slotsize) (small : id < ibm.entries) where
  pub flat : (x : Bool) → bits (set_bit ibm.bitmap i j x) ≡ set (bits ibm.bitmap) id x
  flat x = bits-set_bit ibm.bitmap i j id x v.shaped at low

  pub taken-IsValid :
      used ibm id ≡ some false
      → IsValid (record ibm { available = ibm.available - 1; bitmap = set_bit ibm.bitmap i j true })
  taken-IsValid clear =
      let c = count_set-taken ibm.entries id (bits ibm.bitmap) small clear in
      record {
        shaped = Shaped-set_bit ibm.bitmap i j true v.shaped;
        covered = rw (flat true) (omega (arith, v.covered, length-set (bits ibm.bitmap) id true));
        counted =
            rw (flat true) (
              omega
                (arith, v.counted, c, count_set-le ibm.entries (set (bits ibm.bitmap) id true)));
      }

  pub freed-IsValid :
      used ibm id ≡ some true
      → IsValid
          (record ibm { available = ibm.available + 1; bitmap = set_bit ibm.bitmap i j false })
  freed-IsValid clear =
      let c = count_set-freed ibm.entries id (bits ibm.bitmap) small clear in
      record {
        shaped = Shaped-set_bit ibm.bitmap i j false v.shaped;
        covered = rw (flat false) (omega (arith, v.covered, length-set (bits ibm.bitmap) id false));
        counted = rw (flat false) (omega (arith, v.counted, c));
      }

-- `ibm'` is `ibm` with one identifier changed from free to used, or back.
pub record Took (ibm : Bitmap) (id : ℕ) (ibm' : Bitmap) : Type 0 where
  pub valid : IsValid ibm'
  pub same_entries : ibm'.entries ≡ ibm.entries
  pub marked : bits ibm'.bitmap ≡ set (bits ibm.bitmap) id true
  pub one_less : ibm'.available + 1 ≡ ibm.available

pub record Freed (ibm : Bitmap) (id : ℕ) (ibm' : Bitmap) : Type 0 where
  pub valid : IsValid ibm'
  pub same_entries : ibm'.entries ≡ ibm.entries
  pub cleared : bits ibm'.bitmap ≡ set (bits ibm.bitmap) id false
  pub one_more : ibm'.available ≡ ibm.available + 1
