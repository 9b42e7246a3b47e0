-- ===== src/Flow/Multistream/Streams.antt =====
-- The flows of an association as a list with an identifier for each.
use neat.Base.{
  ℕ, ◌≡◌, refl, sym, ap, subst, ◌∙◌, Bool-cases, inl, inr, List, [], ◌∷◌, Option, none, some, map,
  ◌==◌, arith, if◌then◌else◌,
}
use neat.Flow.Multistream.{Stream, get_flow_by_sid, update}

-- No two flows have the same multistream_id.
abbrev pub Distinct : List Stream → Type 0
Distinct [] = Unit
Distinct (flow ∷ streams) = (get_flow_by_sid streams flow.multistream_id ≡ none) × Distinct streams

-- A change of all flows with an identifier.
abbrev pub change_all : ℕ → (Stream → Stream) → List Stream → List Stream
change_all sid f streams = map (λ flow. if flow.multistream_id == sid then f flow else flow) streams

change_all-unknown :
    (streams : List Stream) (sid : ℕ) (f : Stream → Stream)
    → get_flow_by_sid streams sid ≡ none
    → change_all sid f streams ≡ streams
unfolding get_flow_by_sid
change_all-unknown [] sid f e = refl
change_all-unknown (x ∷ xs) sid f e = elim (Bool-cases (x.multistream_id == sid)) [
  | inl s ↦
      absurd (let q = ap (λ b. if b then some x else get_flow_by_sid xs sid) (sym s) ∙ e in cc)
  | inr s ↦
      let q : get_flow_by_sid xs sid ≡ none =
        ap (λ b. if b then some x else get_flow_by_sid xs sid) (sym s) ∙ e in
      simp (s, change_all-unknown xs sid f q) refl
]

-- With distinct identifiers a change of the flow that is found is a change of all with that one.
pub update-change_all :
    (streams : List Stream) (sid : ℕ) (f : Stream → Stream)
    → Distinct streams
    → update streams sid f ≡ change_all sid f streams
unfolding update
update-change_all [] sid f d = refl
update-change_all (x ∷ xs) sid f (n, d) = elim (Bool-cases (x.multistream_id == sid)) [
  | inl s ↦
      let i : x.multistream_id ≡ sid = ground (arith, s) in
      let q = subst (λ k. get_flow_by_sid xs k ≡ none) i n in
      simp (s, change_all-unknown xs sid f q) refl
  | inr s ↦ simp (s, update-change_all xs sid f d) refl
]

abbrev pub changed : (Stream → Stream) → Option Stream → Option Stream
changed f none = none
changed f (some flow) = some (f flow)

-- What keeps the identifiers keeps what is found and what is not.
module _ (f : Stream → Stream)
    (keeps : (x : Stream) → (f x).multistream_id ≡ x.multistream_id) where
  pub get-map :
      (streams : List Stream) (sid : ℕ)
      → get_flow_by_sid (map f streams) sid ≡ changed f (get_flow_by_sid streams sid)
  unfolding get_flow_by_sid
  get-map [] sid = refl
  get-map (x ∷ xs) sid = elim (Bool-cases (x.multistream_id == sid)) [
    | inl s ↦ simp (keeps x, s) refl
    | inr s ↦ simp (keeps x, s) (get-map xs sid)
  ]

  pub Distinct-map : (streams : List Stream) → Distinct streams → Distinct (map f streams)
  Distinct-map [] d = tt
  Distinct-map (x ∷ xs) (n, d) = (
    ap (get_flow_by_sid (map f xs)) (keeps x) ∙ get-map xs x.multistream_id ∙ ap (changed f) n,
    Distinct-map xs d,
  )

pub get-id :
    (xs : List Stream) (sid : ℕ) (flow : Stream)
    → get_flow_by_sid xs sid ≡ some flow
    → flow.multistream_id ≡ sid
unfolding get_flow_by_sid
get-id [] sid flow e = absurd cc
get-id (x ∷ xs) sid flow e = elim (Bool-cases (x.multistream_id == sid)) [
  | inl s ↦
      let q : some x ≡ some flow =
        ap (λ b. if b then some x else get_flow_by_sid xs sid) (sym s) ∙ e in
      let i : x.multistream_id ≡ sid = ground (arith, s) in
      let r : x ≡ flow = cc in subst (λ (f : Stream). f.multistream_id ≡ sid) r i
  | inr s ↦ get-id xs sid flow (ap (λ b. if b then some x else get_flow_by_sid xs sid) (sym s) ∙ e)
]
