-- ===== src/Flow/Multistream/Changes.antt =====
-- Changes and removals in the list of the flows of an association.
use neat.Base.{
  ℕ, suc, ◌+◌, ◌≡◌, refl, sym, ap, subst, ◌∙◌, false, Bool-cases, inl, inr, List, [], ◌∷◌, none,
  some, ◌==◌, arith, length, if◌then◌else◌,
}
use neat.Flow.Multistream.{Stream, get_flow_by_sid, update, remove}
use neat.Flow.Multistream.Streams.{Distinct, update-change_all, Distinct-map}

abbrev pub All : (Stream → Type 0) → List Stream → Type 0
All P [] = Unit
All P (x ∷ xs) = P x × All P xs

pub get-All :
    (P : Stream → Type 0) (xs : List Stream) (sid : ℕ) (flow : Stream)
    → All P xs
    → get_flow_by_sid xs sid ≡ some flow
    → P flow
unfolding get_flow_by_sid
get-All P [] sid flow ps e = absurd cc
get-All P (x ∷ xs) sid flow (p, ps) e = elim (Bool-cases (x.multistream_id == sid)) [
  | inl s ↦
      let q : some x ≡ some flow =
        ap (λ b. if b then some x else get_flow_by_sid xs sid) (sym s) ∙ e in
      subst P (cc) p
  | inr s ↦
      get-All P xs sid flow ps (ap (λ b. if b then some x else get_flow_by_sid xs sid) (sym s) ∙ e)
]

pub remove-All :
    (P : Stream → Type 0) (xs : List Stream) (sid : ℕ) → All P xs → All P (remove xs sid)
unfolding remove
remove-All P [] sid ps = tt
remove-All P (x ∷ xs) sid (p, ps) = elim (Bool-cases (x.multistream_id == sid)) [
  | inl s ↦ rw s ps
  | inr s ↦ rw s (p, remove-All P xs sid ps)
]

pub remove-update :
    (xs : List Stream) (sid : ℕ) (f : Stream → Stream)
    → ((x : Stream) → (f x).multistream_id ≡ x.multistream_id)
    → remove (update xs sid f) sid ≡ remove xs sid
unfolding remove update
remove-update [] sid f k = refl
remove-update (x ∷ xs) sid f k = elim (Bool-cases (x.multistream_id == sid)) [
  | inl s ↦ simp (s, k x) refl
  | inr s ↦ simp (s, remove-update xs sid f k) refl
]

pub length-remove :
    (xs : List Stream) (sid : ℕ) (flow : Stream)
    → get_flow_by_sid xs sid ≡ some flow
    → length (remove xs sid) + 1 ≡ length xs
unfolding remove get_flow_by_sid
length-remove [] sid flow e = absurd cc
length-remove (x ∷ xs) sid flow e = elim (Bool-cases (x.multistream_id == sid)) [
  | inl s ↦ rw s (omega arith)
  | inr s ↦
      let q =
        length-remove xs sid flow
          (ap (λ b. if b then some x else get_flow_by_sid xs sid) (sym s) ∙ e) in
      rw s (omega (arith, q))
]

pub get-remove :
    (xs : List Stream) (sid k : ℕ)
    → get_flow_by_sid xs k ≡ none
    → get_flow_by_sid (remove xs sid) k ≡ none
unfolding remove get_flow_by_sid
get-remove [] sid k e = refl
get-remove (x ∷ xs) sid k e = elim (Bool-cases (x.multistream_id == k)) [
  | inl s ↦ absurd (let q = ap (λ b. if b then some x else get_flow_by_sid xs k) (sym s) ∙ e in cc)
  | inr s ↦
      let q = ap (λ b. if b then some x else get_flow_by_sid xs k) (sym s) ∙ e in
      elim (Bool-cases (x.multistream_id == sid)) [
        | inl t ↦ rw t q
        | inr t ↦ simp (t, s) (get-remove xs sid k q)
      ]
]

pub Distinct-remove : (xs : List Stream) (sid : ℕ) → Distinct xs → Distinct (remove xs sid)
unfolding remove
Distinct-remove [] sid d = tt
Distinct-remove (x ∷ xs) sid (n, d) = elim (Bool-cases (x.multistream_id == sid)) [
  | inl s ↦ rw s d
  | inr s ↦ rw s (get-remove xs sid x.multistream_id n, Distinct-remove xs sid d)
]

pub update-All :
    (P : Stream → Type 0) (xs : List Stream) (sid : ℕ) (f : Stream → Stream) (flow : Stream)
    → All P xs
    → get_flow_by_sid xs sid ≡ some flow
    → P (f flow)
    → All P (update xs sid f)
unfolding update get_flow_by_sid
update-All P [] sid f flow ps e p = tt
update-All P (x ∷ xs) sid f flow (q, ps) e p = elim (Bool-cases (x.multistream_id == sid)) [
  | inl s ↦
      let g : some x ≡ some flow =
        ap (λ b. if b then some x else get_flow_by_sid xs sid) (sym s) ∙ e in
      let r : flow ≡ x = cc in rw s (subst (λ (y : Stream). P (f y)) r p, ps)
  | inr s ↦ rw s (
    q,
    update-All P xs sid f flow ps
        (ap (λ b. if b then some x else get_flow_by_sid xs sid) (sym s) ∙ e) p,
  )
]

pub length-update :
    (xs : List Stream) (sid : ℕ) (f : Stream → Stream) → length (update xs sid f) ≡ length xs
unfolding update
length-update [] sid f = refl
length-update (x ∷ xs) sid f = elim (Bool-cases (x.multistream_id == sid)) [
  | inl s ↦ rw s refl
  | inr s ↦ rw s (ap suc (length-update xs sid f))
]

pub get-remove_other :
    (xs : List Stream) (sid k : ℕ)
    → (k == sid) ≡ false
    → get_flow_by_sid (remove xs sid) k ≡ get_flow_by_sid xs k
unfolding remove get_flow_by_sid
get-remove_other [] sid k n = refl
get-remove_other (x ∷ xs) sid k n = elim (Bool-cases (x.multistream_id == sid)) [
  | inl s ↦ let m : (x.multistream_id == k) ≡ false = ground (arith, s, n) in simp (s, m) refl
  | inr s ↦ elim (Bool-cases (x.multistream_id == k)) [
    | inl t ↦ simp (s, t) refl
    | inr t ↦ simp (s, t) (get-remove_other xs sid k n)
  ]
]

pub get-update_other :
    (xs : List Stream) (sid k : ℕ) (f : Stream → Stream)
    → ((x : Stream) → (f x).multistream_id ≡ x.multistream_id)
    → (k == sid) ≡ false
    → get_flow_by_sid (update xs sid f) k ≡ get_flow_by_sid xs k
unfolding update get_flow_by_sid
get-update_other [] sid k f keeps n = refl
get-update_other (x ∷ xs) sid k f keeps n = elim (Bool-cases (x.multistream_id == sid)) [
  | inl s ↦
      let m : (x.multistream_id == k) ≡ false = ground (arith, s, n) in simp (s, keeps x, m) refl
  | inr s ↦ elim (Bool-cases (x.multistream_id == k)) [
    | inl t ↦ simp (s, t) refl
    | inr t ↦ simp (s, t) (get-update_other xs sid k f keeps n)
  ]
]

kept :
    (f : Stream → Stream)
    → ((x : Stream) → (f x).multistream_id ≡ x.multistream_id)
    → (sid : ℕ) (x : Stream)
    → (if x.multistream_id == sid then f x else x).multistream_id ≡ x.multistream_id
kept f keeps sid x = elim (Bool-cases (x.multistream_id == sid)) [
  | inl s ↦ simp (s) (keeps x)
  | inr s ↦ simp (s) refl
]

pub Distinct-update :
    (xs : List Stream) (sid : ℕ) (f : Stream → Stream)
    → ((x : Stream) → (f x).multistream_id ≡ x.multistream_id)
    → Distinct xs
    → Distinct (update xs sid f)
Distinct-update xs sid f keeps d =
    rw (update-change_all xs sid f d)
      (Distinct-map (λ x. if x.multistream_id == sid then f x else x) (kept f keeps sid) xs d)
