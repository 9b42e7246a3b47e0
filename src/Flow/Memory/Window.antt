-- ===== src/Flow/Memory/Window.antt =====
-- Reads and writes of a block seen through a window of it: `n` cells from an offset on.
use neat.Base.{
  ℕ, zero, suc, ◌+◌, ◌-◌, ◌∙◌, ◌≤◌, ◌≡◌, refl, ap, [], ◌∷◌, ◌++◌, Option, some, arith, length, take,
  drop, length-drop, length-take,
}
use neat.Flow.Memory.{Block, write_at, read_at, resize}

abbrev pub window : Block → ℕ → ℕ → Block
window mem off n = take n (drop off mem)

-- What a write that stays inside does to the window that it extends.
pub record Written (mem : Block) (off n : ℕ) (bs mem' : Block) : Type 0 where
  pub same_length : length mem' ≡ length mem
  pub extended : (t : ℕ) → t ≡ n + length bs → window mem' off t ≡ window mem off n ++ bs

-- One more cell in front of the block, inside the window or before it.
Written-inside :
    {mem bs mem' : Block} {n : ℕ} (c : Option ℕ)
    → Written mem 0 n bs mem'
    → Written (c ∷ mem) 0 (suc n) bs (c ∷ mem')
Written-inside {mem} {bs} {mem'} {n} c w = record {
  same_length = ap suc w.same_length;
  extended = extended;
}
  where
    extended :
        (t : ℕ) → t ≡ suc n + length bs → window (c ∷ mem') 0 t ≡ window (c ∷ mem) 0 (suc n) ++ bs
    extended zero e = absurd (omega arith)
    extended (suc t) e = ap (λ m. c ∷ m) (w.extended t (omega arith))

Written-replaced :
    {mem bs mem' : Block} (c b : Option ℕ)
    → Written mem 0 0 bs mem'
    → Written (c ∷ mem) 0 0 (b ∷ bs) (b ∷ mem')
Written-replaced {mem} {bs} {mem'} c b w = record {
  same_length = ap suc w.same_length;
  extended = extended;
}
  where
    extended :
        (t : ℕ) → t ≡ 0 + length (b ∷ bs) → window (b ∷ mem') 0 t ≡ window (c ∷ mem) 0 0 ++ b ∷ bs
    extended zero e = absurd (omega arith)
    extended (suc t) e = ap (λ m. b ∷ m) (w.extended t (omega arith))

Written-before :
    {mem bs mem' : Block} {off n : ℕ} (c : Option ℕ)
    → Written mem off n bs mem'
    → Written (c ∷ mem) (suc off) n bs (c ∷ mem')
Written-before c w = record { same_length = ap suc w.same_length; extended = w.extended }

write_at-front :
    (mem bs : Block) (n : ℕ)
    → n + length bs ≤ length mem
    → (mem' : Block) × (write_at mem n bs ≡ some mem') × Written mem 0 n bs mem'
unfolding write_at
write_at-front mem [] zero h = (
  mem,
  refl,
  record { same_length = refl; extended = λ t e. let z : t ≡ 0 = omega arith in rw z refl },
)
write_at-front [] (b ∷ bs) zero h = absurd (omega arith)
write_at-front (c ∷ mem) (b ∷ bs) zero h =
    let (m, e, w) = write_at-front mem bs zero (omega arith) in
    (b ∷ m, rw e, Written-replaced c b w)
write_at-front [] bs (suc n) h = absurd (omega arith)
write_at-front (c ∷ mem) bs (suc n) h =
    let (m, e, w) = write_at-front mem bs n (omega arith) in (c ∷ m, rw e, Written-inside c w)

-- A write just behind a window that has room for it extends the window by what is written.
pub write_at-Written :
    (mem bs : Block) (off n pos : ℕ)
    → pos ≡ off + n
    → pos + length bs ≤ length mem
    → (mem' : Block) × (write_at mem pos bs ≡ some mem') × Written mem off n bs mem'
unfolding write_at
write_at-Written mem bs zero n pos e h =
    let z : pos ≡ n = omega arith in rw z (write_at-front mem bs n (omega arith))
write_at-Written mem bs (suc off) n zero e h = absurd (omega arith)
write_at-Written [] bs (suc off) n (suc pos) e h = absurd (omega arith)
write_at-Written (c ∷ mem) bs (suc off) n (suc pos) e h =
    let (m, q, w) = write_at-Written mem bs off n pos (omega arith) (omega arith) in
    (c ∷ m, rw q, Written-before c w)

pub length-resize : (mem : Block) (n : ℕ) → length (resize mem n) ≡ n
unfolding resize
length-resize mem zero = refl
length-resize [] (suc n) = ap suc (length-resize [] n)
length-resize (c ∷ mem) (suc n) = ap suc (length-resize mem n)

-- A larger block has the old contents in front.
pub take-resize :
    (mem : Block) (k n : ℕ) → k ≤ length mem → k ≤ n → take k (resize mem n) ≡ take k mem
unfolding resize
take-resize mem zero n h g = refl
take-resize [] (suc k) n h g = absurd (omega arith)
take-resize (c ∷ mem) (suc k) zero h g = absurd (omega arith)
take-resize (c ∷ mem) (suc k) (suc n) h g =
    ap (λ m. c ∷ m) (take-resize mem k n (omega arith) (omega arith))

pub length-window : (mem : Block) (off n : ℕ) → off + n ≤ length mem → length (window mem off n) ≡ n
length-window mem off n h = omega (arith, length-take n (drop off mem), length-drop off mem)

pub read_at-window :
    (mem : Block) (off n : ℕ) → off + n ≤ length mem → read_at mem off n ≡ some (window mem off n)
unfolding read_at
read_at-window mem off n h = ground arith

take_split : (xs : Block) (r k n : ℕ) → n ≡ r + k → take r xs ++ take k (drop r xs) ≡ take n xs
take_split xs zero k n e = let z : n ≡ k = omega arith in rw z refl
take_split xs (suc r) k zero e = absurd (omega arith)
take_split [] (suc r) zero (suc n) e = refl
take_split [] (suc r) (suc k) (suc n) e = refl
take_split (x ∷ xs) (suc r) k (suc n) e = ap (λ l. x ∷ l) (take_split xs r k n (omega arith))

drop-drop : (xs : Block) (off r k : ℕ) → k ≡ off + r → drop k xs ≡ drop r (drop off xs)
drop-drop xs zero r k e = let z : k ≡ r = omega arith in rw z refl
drop-drop xs (suc off) r zero e = absurd (omega arith)
drop-drop [] (suc off) zero (suc k) e = refl
drop-drop [] (suc off) (suc r) (suc k) e = refl
drop-drop (x ∷ xs) (suc off) r (suc k) e = drop-drop xs off r k (omega arith)

-- A window read in two parts.
pub window_split :
    (mem : Block) (off n r : ℕ)
    → r ≤ n
    → window mem off r ++ window mem (off + r) (n - r) ≡ window mem off n
window_split mem off n r h =
    ap (λ xs. window mem off r ++ take (n - r) xs) (drop-drop mem off r (off + r) refl)
    ∙ take_split (drop off mem) r (n - r) n (omega arith)

pub take-take : (xs : Block) (r n : ℕ) → r ≤ n → take r (take n xs) ≡ take r xs
take-take xs zero n h = refl
take-take xs (suc r) zero h = absurd (omega arith)
take-take [] (suc r) (suc n) h = refl
take-take (x ∷ xs) (suc r) (suc n) h = ap (λ l. x ∷ l) (take-take xs r n (omega arith))
