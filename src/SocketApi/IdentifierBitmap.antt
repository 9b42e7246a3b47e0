-- ===== src/SocketApi/IdentifierBitmap.antt =====
-- socketapi/identifierbitmap.c: which descriptor numbers are in use. An `unsigned long` is the list
-- of its 64 bits, the lowest first. A run is none if an assertion fails or an access leaves the
-- bitmap. Identifiers are C `int`s, so the model is about bitmaps of fewer than 2 ^ 31 entries.
pub mod Flat
pub mod Marks
pub mod Allocate
pub mod Free
pub mod Create
use neat.Base.{
  ℕ, zero, suc, ◌+◌, ◌-◌, ◌*◌, ◌/◌, ◌%◌, Bool, true, false, not, ◌&&◌, List, [], ◌∷◌, Option, none,
  some, get_elem?, set, replicate, ltb, if◌then◌else◌,
}

abbrev pub Word : Type 0
Word = List Bool

-- `identifier_bitmap_slotsize`.
abbrev pub slotsize : ℕ
slotsize = 64

pub record Bitmap : Type 0 where
  pub entries : ℕ
  pub available : ℕ
  pub slots : ℕ
  pub bitmap : List Word

-- `ibm_new`; whether malloc succeeds is an argument.
unfoldable pub new : ℕ → Bool → Option Bitmap
new entries allocates =
    let slots = (entries + (slotsize - entries % slotsize)) / slotsize in
    if allocates
    then some (record {
      entries = entries;
      available = entries;
      slots = slots;
      bitmap = replicate (slots + 1) (replicate slotsize false);
    })
    else none

-- `bitmap[i] & (1UL << j)`.
unfoldable pub bit? : List Word → ℕ → ℕ → Option Bool
bit? [] i j = none
bit? (w ∷ ws) zero j = get_elem? w j
bit? (w ∷ ws) (suc i) j = bit? ws i j

-- `bitmap[i] |= (1UL << j)` and `bitmap[i] &= ~(1UL << j)`.
unfoldable pub set_bit : List Word → ℕ → ℕ → Bool → List Word
set_bit [] i j v = []
set_bit (w ∷ ws) zero j v = set w j v ∷ ws
set_bit (w ∷ ws) (suc i) j v = w ∷ set_bit ws i j v

-- `word == ~((size_t)0)`.
unfoldable pub is_full : Word → Bool
is_full [] = true
is_full (b ∷ w) = b && is_full w

-- The first loop of `ibm_allocate_id`: the first word that is not full, and its index.
unfoldable pub find_word : List Word → ℕ → Option (ℕ × Word)
unfolding is_full
find_word [] i = none
find_word (w ∷ ws) i = if is_full w then find_word ws (i + 1) else some (i, w)

-- The second loop, over the bits of the word that are left: `j` and `id` where it stops.
unfoldable pub find_bit : Word → ℕ → ℕ → ℕ → ℕ × ℕ
find_bit [] entries j id = (j, id)
find_bit (b ∷ w) entries j id =
    if ltb id entries && b then find_bit w entries (j + 1) (id + 1) else (j, id)

-- The end of `ibm_allocate_id`: its assertion and its updates.
unfoldable pub take_bit : Bitmap → ℕ → ℕ × ℕ → Option (Option ℕ × Bitmap)
unfolding set_bit
take_bit ibm i (j, id) =
    if ltb id ibm.entries
    then some (
      some id,
      record ibm { available = ibm.available - 1; bitmap = set_bit ibm.bitmap i j true },
    )
    else none

-- `ibm_allocate_id`; `none` for the identifier is -1.
unfoldable pub allocate_id : Bitmap → Option (Option ℕ × Bitmap)
unfolding find_word find_bit take_bit
allocate_id ibm =
    if ltb 0 ibm.available
    then elim (find_word ibm.bitmap 0) [
      | none ↦ none
      | some (i, w) ↦ take_bit ibm i (find_bit w ibm.entries 0 (i * slotsize))
    ]
    else some (none, ibm)

-- `ibm_allocate_specific_id`.
unfoldable pub allocate_specific_id : Bitmap → ℕ → Option (Option ℕ × Bitmap)
unfolding bit? set_bit
allocate_specific_id ibm id =
    if ltb id ibm.entries
    then elim (bit? ibm.bitmap (id / slotsize) (id % slotsize)) [
      | none ↦ none
      | some true ↦ some (none, ibm)
      | some false ↦ some (
        some id,
        record ibm {
          available = ibm.available - 1;
          bitmap = set_bit ibm.bitmap (id / slotsize) (id % slotsize) true;
        },
      )
    ]
    else none

-- `ibm_free_id`.
unfoldable pub free_id : Bitmap → ℕ → Option Bitmap
unfolding bit? set_bit
free_id ibm id =
    if ltb id ibm.entries
    then elim (bit? ibm.bitmap (id / slotsize) (id % slotsize)) [
      | none ↦ none
      | some false ↦ none
      | some true ↦ some (record ibm {
        available = ibm.available + 1;
        bitmap = set_bit ibm.bitmap (id / slotsize) (id % slotsize) false;
      })
    ]
    else none
