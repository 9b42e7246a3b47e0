-- ===== src/SocketApi/IdentifierBitmap/Create.antt =====
-- What a new bitmap is.
use neat.Base.{
  ℕ, zero, suc, ◌+◌, ◌-◌, ◌*◌, ◌/◌, ◌%◌, ◌≡◌, refl, ◌∙◌, Bool, true, false, List, ◌++◌, some,
  replicate, length, length-append, arith,
}
use neat.SocketApi.IdentifierBitmap.{slotsize, Bitmap, new}
use neat.SocketApi.IdentifierBitmap.Flat.{bits, Shaped}
use neat.SocketApi.IdentifierBitmap.Marks.{count_set, IsValid}

bits-zero : (n : ℕ) → Shaped (replicate n (replicate slotsize false))
bits-zero zero = tt
bits-zero (suc n) = (refl, bits-zero n)

length-bits-zero : (n : ℕ) → length (bits (replicate n (replicate slotsize false))) ≡ n * slotsize
length-bits-zero zero = omega arith
length-bits-zero (suc n) = omega (
  arith,
  length-append (replicate slotsize false) (bits (replicate n (replicate slotsize false))),
  length-bits-zero n,
)

count_set-zeros :
    (k n : ℕ) (l : List Bool) → count_set n (replicate k false ++ l) ≡ count_set (n - k) l
count_set-zeros zero n l = let z : n - 0 ≡ n = omega arith in rw z refl
count_set-zeros (suc k) zero l = let z : 0 - suc k ≡ 0 = omega arith in rw z refl
count_set-zeros (suc k) (suc n) l =
    let z : suc n - suc k ≡ n - k = omega arith in rw z (count_set-zeros k n l)

count_set-new : (m n : ℕ) → count_set n (bits (replicate m (replicate slotsize false))) ≡ 0
count_set-new zero zero = refl
count_set-new zero (suc n) = refl
count_set-new (suc m) n =
    count_set-zeros slotsize n (bits (replicate m (replicate slotsize false)))
    ∙ count_set-new m (n - slotsize)

-- A new bitmap, if malloc succeeds, is well formed, whatever its size, and has all its
-- identifiers available.
pub new-IsValid :
    (entries : ℕ)
    → (ibm : Bitmap) × (new entries true ≡ some ibm) × IsValid ibm × (ibm.available ≡ entries)
unfolding new
new-IsValid entries =
    let slots = (entries + (slotsize - entries % slotsize)) / slotsize in
    (
      _,
      refl,
      record {
        shaped = bits-zero (slots + 1);
        covered = omega (arith, length-bits-zero (slots + 1));
        counted = omega (arith, count_set-new (slots + 1) entries);
      },
      refl,
    )
