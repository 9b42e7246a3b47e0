-- ===== src/Flow/Memory.antt =====
-- Blocks of memory as lists of cells, and the accesses that neat_core.c makes to them. `none` in a
-- cell is a byte that nothing has written yet.
pub mod Window
use mathlib.Core.Option
use neat.Base.{
  ℕ, zero, suc, ◌+◌, ◌-◌, ◌≤◌, ◌≡◌, refl, ap, List, [], ◌∷◌, ◌++◌, map, Option, none, some, arith,
  length, length-append, take, drop, replicate, leb, if◌then◌else◌,
}

abbrev pub Block : Type 0
Block = List (Option ℕ)

-- The bytes of a buffer as cells.
abbrev pub cells : List ℕ → Block
cells = map some

-- memcpy into a block at an offset; `none` is a write that leaves the block.
unfoldable pub write_at : Block → ℕ → Block → Option Block
write_at mem zero [] = some mem
write_at [] zero (b ∷ bs) = none
write_at (c ∷ mem) zero (b ∷ bs) = Option.map (λ m. b ∷ m) (write_at mem zero bs)
write_at [] (suc off) bs = none
write_at (c ∷ mem) (suc off) bs = Option.map (λ m. c ∷ m) (write_at mem off bs)

-- The bytes from an offset on; `none` is a read that leaves the block.
unfoldable pub read_at : Block → ℕ → ℕ → Option Block
read_at mem off n = if leb (off + n) (length mem) then some (take n (drop off mem)) else none

-- realloc keeps what fits and leaves the rest unwritten.
unfoldable pub resize : Block → ℕ → Block
resize mem zero = []
resize [] (suc n) = none ∷ resize [] n
resize (c ∷ mem) (suc n) = c ∷ resize mem n
