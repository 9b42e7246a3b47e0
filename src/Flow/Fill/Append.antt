-- ===== src/Flow/Fill/Append.antt =====
-- What `append_bytes` does to one message: the bytes that wait for the socket grow at the end.
use neat.Base.{
  ℕ, ◌+◌, ◌≤◌, ◌≡◌, refl, ap, ◌∙◌, List, ◌++◌, Bool, true, Option, none, some, arith, length,
  replicate, length-replicate, length-map, leb, ◌==◌, Bool-cases, inl, inr, leb→le,
}
use neat.Flow.Memory.{Block, cells, resize}
use neat.Flow.Memory.Window.{
  window, write_at-Written, length-resize, take-resize, length-window, read_at-window,
}
use neat.Flow.State.{Code, Message, done}
use neat.Flow.Fill.{round_up, copy_in, move_to_front, append_bytes}

-- The block has the size that the message records, and the pending bytes lie in it.
pub record IsValid (m : Message) : Type 0 where
  pub sized : length m.buffered ≡ m.buffered_allocation
  pub inside : m.buffered_offset + m.buffered_size ≤ m.buffered_allocation

-- The bytes of a message that the socket has not taken.
abbrev pub pending : Message → Block
pending m = window m.buffered m.buffered_offset m.buffered_size

abbrev pub SameOptions : Message → Message → Type 0
SameOptions m n =
    (n.stream_id ≡ m.stream_id)
    × (n.unordered ≡ m.unordered)
    × (n.pr_method ≡ m.pr_method)
    × (n.pr_value ≡ m.pr_value)

-- `m'` is `m` with `bs` behind its pending bytes.
pub record Appended (m : Message) (bs : List ℕ) (m' : Message) : Type 0 where
  pub valid : IsValid m'
  pub grown : pending m' ≡ pending m ++ cells bs
  pub options : SameOptions m m'

round_up-le : (n : ℕ) → n ≤ round_up n
unfolding round_up
round_up-le n = omega arith

length-cells : (bs : List ℕ) → length (cells bs) ≡ length bs
length-cells bs = length-map bs some

copy_in-Appended :
    (m : Message) (pos : ℕ) (bs : List ℕ)
    → IsValid m
    → pos ≡ m.buffered_offset + m.buffered_size
    → pos + length bs ≤ m.buffered_allocation
    → (m' : Message) × (copy_in m pos bs ≡ done Code.ok m') × Appended m bs m'
unfolding copy_in
copy_in-Appended m pos bs v e room =
    let (mem, q, w) =
      write_at-Written m.buffered (cells bs) m.buffered_offset m.buffered_size pos e
        (omega (arith, length-cells bs, v.sized)) in
    (
      record m { buffered = mem; buffered_size = m.buffered_size + length bs },
      rw (q, copy_in),
      record {
        valid = record { sized = w.same_length ∙ v.sized; inside = omega arith };
        grown = w.extended (m.buffered_size + length bs) (omega (arith, length-cells bs));
        options = (refl, refl, refl, refl);
      },
    )

-- A message with the same pending bytes may stand in for the old one.
Appended-from :
    {m n m' : Message} {bs : List ℕ}
    → pending n ≡ pending m
    → SameOptions m n
    → Appended n bs m'
    → Appended m bs m'
Appended-from {bs} same (a, b, c, d) w = record {
  valid = w.valid;
  grown = w.grown ∙ ap (λ x. x ++ cells bs) same;
  options = (w.options.0 ∙ a, w.options.1 ∙ b, w.options.2 ∙ c, w.options.3 ∙ d);
}

abbrev reallocated : Message → ℕ → Message
reallocated m needed = record m {
  buffered = resize m.buffered needed;
  buffered_allocation = needed;
}

realloc-Appended :
    (m : Message) (needed : ℕ) (bs : List ℕ)
    → IsValid m
    → m.buffered_offset ≡ 0
    → length bs + m.buffered_size ≤ needed
    → (m' : Message) × (copy_in (reallocated m needed) m.buffered_size bs ≡ done Code.ok m')
      × Appended m bs m'
realloc-Appended m needed bs v z room =
    let (m', q, w) =
      copy_in-Appended (reallocated m needed) m.buffered_size bs
        (record { sized = length-resize m.buffered needed; inside = omega arith }) (omega arith)
        (omega arith) in
    (
      m',
      q,
      Appended-from
          (rw z (
            take-resize m.buffered m.buffered_size needed (omega (arith, v.sized, v.inside))
              (omega arith)))
          (refl, refl, refl, refl) w,
    )

move-Appended :
    (m : Message) (needed : ℕ) (bs : List ℕ)
    → IsValid m
    → length bs + m.buffered_size ≤ needed
    → (m' : Message) × (move_to_front m needed bs ≡ done Code.ok m') × Appended m bs m'
unfolding move_to_front
move-Appended m needed bs v room =
    let size =
      length-window m.buffered m.buffered_offset m.buffered_size
        (omega (arith, v.sized, v.inside)) in
    let made : length {A = Option ℕ} (replicate needed none) ≡ needed =
      length-replicate needed none in
    let (mem, e, w) =
      write_at-Written (replicate needed none) (pending m) 0 0 0 (omega arith)
        (omega (arith, size)) in
    let n : Message = record m {
      buffered = mem;
      buffered_offset = 0;
      buffered_allocation = needed;
    } in
    let (m', q, a) =
      copy_in-Appended n m.buffered_size bs
        (record { sized = w.same_length ∙ made; inside = omega arith }) (omega arith)
        (omega arith) in
    (
      m',
      rw
          (
            read_at-window m.buffered m.buffered_offset m.buffered_size
                (omega (arith, v.sized, v.inside)),
            move_to_front,
          )
          (rw (e, move_to_front) q),
      Appended-from (w.extended m.buffered_size (omega (arith, size))) (refl, refl, refl, refl) a,
    )

-- In a valid message, if the allocations succeed, the new bytes end up behind the pending ones,
-- whatever room it has; the message stays valid and keeps its options.
pub append_bytes-Appended :
    (m : Message) (bs : List ℕ)
    → IsValid m
    → (m' : Message) × (append_bytes m bs true ≡ done Code.ok m') × Appended m bs m'
unfolding append_bytes
append_bytes-Appended m bs v = elim (Bool-cases fits) [
  | inl e ↦ rw e (copy_in-Appended m _ bs v refl (leb→le _ _ e))
  | inr e ↦ rw e (elim (Bool-cases (m.buffered_offset == 0)) [
    | inl z ↦ rw z (realloc-Appended m needed bs v (ground arith) (round_up-le _))
    | inr z ↦ rw z (move-Appended m needed bs v (round_up-le _))
  ])
]
  where
    needed : ℕ
    needed = round_up (length bs + m.buffered_size)

    fits : Bool
    fits = leb (m.buffered_offset + m.buffered_size + length bs) m.buffered_allocation
