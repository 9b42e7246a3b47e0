-- ===== src/SocketApi/IdentifierBitmap/Free.antt =====
-- What giving an identifier back does.
use neat.Base.{
  ℕ, zero, suc, ◌+◌, ◌*◌, ◌/◌, ◌%◌, ◌<◌, ◌≡◌, refl, ap, ◌∙◌, Bool, true, false, List, [], ◌∷◌, some,
  get_elem?, set, ltb, arith,
}
use neat.SocketApi.IdentifierBitmap.{slotsize, Bitmap, set_bit, allocate_id, free_id}
use neat.SocketApi.IdentifierBitmap.Flat.{bits}
use neat.SocketApi.IdentifierBitmap.Marks.{used, IsValid, flat, freed-IsValid, Took, Freed}
use neat.SocketApi.IdentifierBitmap.Allocate.{bit?-used, allocate_id-least}

-- For an identifier in use, below `entries` of a valid bitmap, `ibm_free_id` makes it free
-- again, and changes nothing else but the count.
pub free_id-used :
    (ibm : Bitmap) (id : ℕ)
    → IsValid ibm
    → id < ibm.entries
    → used ibm id ≡ some true
    → (ibm' : Bitmap) × (free_id ibm id ≡ some ibm') × Freed ibm id ibm'
unfolding free_id
free_id-used ibm id v small e =
    let inside : ltb id ibm.entries ≡ true = ground arith in
    let at : id ≡ id / slotsize * slotsize + id % slotsize = omega arith in
    (
      record ibm {
        available = ibm.available + 1;
        bitmap = set_bit ibm.bitmap (id / slotsize) (id % slotsize) false;
      },
      rw (inside, bit?-used ibm id v, free_id) (rw (e) refl),
      record {
        valid = freed-IsValid ibm (id / slotsize) (id % slotsize) id v at (omega arith) small e;
        same_entries = refl;
        cleared = flat ibm (id / slotsize) (id % slotsize) id v at (omega arith) small false;
        one_more = refl;
      },
    )

set_back : (l : List Bool) (k : ℕ) → get_elem? l k ≡ some false → set (set l k true) k false ≡ l
set_back [] k e = refl
set_back (false ∷ l) zero e = refl
set_back (true ∷ l) zero e = cc
set_back (b ∷ l) (suc k) e = ap (λ m. b ∷ m) (set_back l k e)

get_elem?-set-true :
    (l : List Bool) (k : ℕ) → get_elem? l k ≡ some false → get_elem? (set l k true) k ≡ some true
get_elem?-set-true [] k e = cc
get_elem?-set-true (b ∷ l) zero e = refl
get_elem?-set-true (b ∷ l) (suc k) e = get_elem?-set-true l k e

-- Giving back what was just taken restores the bitmap: the same identifiers are in use and as many
-- are available.
pub free_id-Took :
    (ibm ibm' : Bitmap) (id : ℕ)
    → id < ibm.entries
    → used ibm id ≡ some false
    → Took ibm id ibm'
    → (back : Bitmap) × (free_id ibm' id ≡ some back)
      × IsValid back
      × (bits back.bitmap ≡ bits ibm.bitmap)
      × (back.available ≡ ibm.available)
free_id-Took ibm ibm' id small clear t =
    let now_used : used ibm' id ≡ some true =
      rw (t.marked) (get_elem?-set-true (bits ibm.bitmap) id clear) in
    let (back, e, f) = free_id-used ibm' id t.valid (omega (arith, t.same_entries)) now_used in
    (
      back,
      e,
      f.valid,
      f.cleared ∙ ap (λ l. set l id false) t.marked ∙ set_back (bits ibm.bitmap) id clear,
      omega (arith, f.one_more, t.one_less),
    )

-- While a valid bitmap has identifiers available, the one that `ibm_allocate_id` gives out can
-- be freed, and that undoes the allocation.
pub free_id-allocate_id :
    (ibm : Bitmap)
    → IsValid ibm
    → 0 < ibm.available
    → (id : ℕ) × (ibm' back : Bitmap) × (allocate_id ibm ≡ some (some id, ibm'))
      × (free_id ibm' id ≡ some back)
      × (bits back.bitmap ≡ bits ibm.bitmap)
      × (back.available ≡ ibm.available)
free_id-allocate_id ibm v some_left =
    let (id, ibm', e, t, small, clear, least) = allocate_id-least ibm v some_left in
    let (back, f, w, same, count) = free_id-Took ibm ibm' id small clear t in
    (id, ibm', back, e, f, same, count)
