-- ===== src/SocketApi/IdentifierBitmap/Allocate.antt =====
-- What the allocation of an identifier does.
use neat.Base.{
  ℕ, zero, suc, ◌+◌, ◌-◌, ◌*◌, ◌/◌, ◌%◌, ◌<◌, ◌≡◌, refl, ◌⊎◌, ap, Bool, true, false, List, [], ◌∷◌,
  Option, none, some, get_elem?, set, ltb, inl, inr, arith,
}
use neat.SocketApi.IdentifierBitmap.{
  slotsize, Bitmap, bit?, set_bit, take_bit, allocate_id, allocate_specific_id,
}
use neat.SocketApi.IdentifierBitmap.Flat.{
  bits, first_clear, bit?-bits, find_word-first_clear, find_bit-first_clear,
}
use neat.SocketApi.IdentifierBitmap.Marks.{
  count_set, used, IsValid, first_clear-bounded, first_clear-clear, first_clear-least,
  count_set-taken, count_set-le, in_bounds, flat, taken-IsValid, Took,
}

-- While a valid bitmap has identifiers available, `ibm_allocate_id` fails no assertion and gives
-- out the smallest free one: it is below `entries` and was free, all smaller ones are in use,
-- and nothing else changes but the count.
pub allocate_id-least :
    (ibm : Bitmap)
    → IsValid ibm
    → 0 < ibm.available
    → (id : ℕ) × (ibm' : Bitmap) × (allocate_id ibm ≡ some (some id, ibm'))
      × Took ibm id ibm'
      × (id < ibm.entries)
      × (used ibm id ≡ some false)
      × ((k : ℕ) → k < id → used ibm k ≡ some true)
unfolding allocate_id take_bit
allocate_id-least ibm v some_left =
    let all = bits ibm.bitmap in
    let small = first_clear-bounded all ibm.entries (omega (arith, v.counted)) v.covered in
    let (i, n, w, e, p, l, c, q) =
      find_word-first_clear ibm.bitmap 0 v.shaped (omega (arith, v.covered)) in
    let n_is_i : n ≡ i = omega arith in
    let at : n * slotsize + first_clear w ≡ first_clear all = omega arith in
    let found = find_bit-first_clear w ibm.entries 0 (n * slotsize) (omega arith) (omega arith) in
    let id = first_clear all in
    let clear = first_clear-clear all (omega (arith, v.covered)) in
    let any : ltb 0 ibm.available ≡ true = ground arith in
    let inside : ltb (n * slotsize + first_clear w) ibm.entries ≡ true = ground arith in
    let low : first_clear w < slotsize = c in
    let ibm' : Bitmap = record ibm {
      available = ibm.available - 1;
      bitmap = set_bit ibm.bitmap n (0 + first_clear w) true;
    } in
    let j_low : 0 + first_clear w < slotsize = omega arith in
    let id_at : id ≡ n * slotsize + (0 + first_clear w) = omega arith in
    (
      id,
      ibm',
      rw (any, e, allocate_id)
          (rw (found, take_bit) (rw inside (ap (λ (k : ℕ). some (some k, ibm')) at))),
      record {
        valid = taken-IsValid ibm n (0 + first_clear w) id v id_at j_low small clear;
        same_entries = refl;
        marked = flat ibm n (0 + first_clear w) id v id_at j_low small true;
        one_less = omega arith;
      },
      small,
      clear,
      first_clear-least all,
    )

-- With none available in a valid bitmap it answers -1 and changes nothing, and then every
-- identifier is in use.
pub allocate_id-none :
    (ibm : Bitmap)
    → IsValid ibm
    → ibm.available ≡ 0
    → (allocate_id ibm ≡ some (none, ibm)) × ((k : ℕ) → k < ibm.entries → used ibm k ≡ some true)
unfolding allocate_id
allocate_id-none ibm v z =
    let any : ltb 0 ibm.available ≡ false = ground arith in
    (rw (any, allocate_id) refl, all_set ibm.entries (bits ibm.bitmap) (omega (arith, v.counted)))
  where
    all_set :
        (n : ℕ) (l : List Bool) → count_set n l ≡ n → (k : ℕ) → k < n → get_elem? l k ≡ some true
    all_set zero l e k h = absurd (omega arith)
    all_set (suc n) [] e k h = absurd (omega arith)
    all_set (suc n) (true ∷ l) e zero h = refl
    all_set (suc n) (true ∷ l) e (suc k) h = all_set n l (omega arith) k (omega arith)
    all_set (suc n) (false ∷ l) e k h = absurd (omega (arith, count_set-le n l))

pub bit?-used :
    (ibm : Bitmap) (id : ℕ)
    → IsValid ibm
    → bit? ibm.bitmap (id / slotsize) (id % slotsize) ≡ used ibm id
bit?-used ibm id v =
    bit?-bits ibm.bitmap (id / slotsize) (id % slotsize) id v.shaped (omega arith) (omega arith)

-- For an identifier below `entries` of a valid bitmap, `ibm_allocate_specific_id` takes a free
-- one, with no other change than the count, and refuses one in use without a change.
pub allocate_specific_id_lem :
    (ibm : Bitmap) (id : ℕ)
    → IsValid ibm
    → id < ibm.entries
    → ((used ibm id ≡ some true) × (allocate_specific_id ibm id ≡ some (none, ibm)))
      ⊎ ((used ibm id ≡ some false)
          × ((ibm' : Bitmap) × (allocate_specific_id ibm id ≡ some (some id, ibm'))
              × Took ibm id ibm'))
unfolding allocate_specific_id
allocate_specific_id_lem ibm id v small = go (used ibm id) refl
  where
    inside : ltb id ibm.entries ≡ true
    inside = ground arith

    at : id ≡ id / slotsize * slotsize + id % slotsize
    at = omega arith

    go :
        (u : Option Bool)
        → used ibm id ≡ u
        → ((used ibm id ≡ some true) × (allocate_specific_id ibm id ≡ some (none, ibm)))
          ⊎ ((used ibm id ≡ some false)
              × ((ibm' : Bitmap) × (allocate_specific_id ibm id ≡ some (some id, ibm'))
                  × Took ibm id ibm'))
    go none e = absurd (in_bounds (bits ibm.bitmap) id (omega (arith, v.covered)) e)
    go (some true) e = inl (e, rw (inside, bit?-used ibm id v, allocate_specific_id) (rw (e) refl))
    go (some false) e = inr (
      e,
      (
        record ibm {
          available = ibm.available - 1;
          bitmap = set_bit ibm.bitmap (id / slotsize) (id % slotsize) true;
        },
        rw (inside, bit?-used ibm id v, allocate_specific_id) (rw (e) refl),
        record {
          valid = taken-IsValid ibm (id / slotsize) (id % slotsize) id v at (omega arith) small e;
          same_entries = refl;
          marked = flat ibm (id / slotsize) (id % slotsize) id v at (omega arith) small true;
          one_less = omega (
            arith,
            v.counted,
            count_set-taken ibm.entries id (bits ibm.bitmap) small e,
            count_set-le ibm.entries (set (bits ibm.bitmap) id true),
          );
        },
      ),
    )
