-- ===== src/Flow/Multistream/Resets.antt =====
-- What the reset of streams leaves of an association.
use neat.Base.{
  ℕ, ◌^◌, ◌<◌, ◌≡◌, refl, sym, ap, subst, ◌∙◌, Bool, true, false, ◌&&◌, Bool-cases, inl, inr, List,
  [], ◌∷◌, ◌++◌, some, ◌==◌, arith, length,
}
use neat.Flow.Multistream.{
  Stream, Association, Event, readable, closed, get_flow_by_sid, update, remove, minus_one,
  close_stream, reset_in_of, reset_out_of, reset_incoming, reset_outgoing, Direction, incoming,
  outgoing, reset_one, handle_reset_stream,
}
use neat.Flow.Multistream.Streams.{Distinct, get-id}
use neat.Flow.Multistream.Changes.{
  All, get-All, remove-All, remove-update, length-remove, Distinct-remove, update-All,
  length-update, get-remove_other, get-update_other, Distinct-update,
}

-- An open flow that is not reset in both directions.
pub record IsAlive (flow : Stream) : Type 0 where
  pub is_open : flow.is_open ≡ true
  pub one_way : (flow.reset_in && flow.reset_out) ≡ false

-- The streams in use are those of the flows in the list, which are alive.
pub record IsValid (socket : Association) : Type 0 where
  pub distinct : Distinct socket.streams
  pub counted : socket.sctp_streams_used ≡ length socket.streams
  pub bounded : socket.sctp_streams_used < 2 ^ 16
  pub alive : All IsAlive socket.streams

-- Whether a flow was reset in a direction, and the mark of it.
abbrev pub was_reset : Direction → Stream → Bool
was_reset incoming flow = flow.reset_in
was_reset outgoing flow = flow.reset_out

abbrev mark : Direction → Stream → Stream
mark incoming flow = reset_in_of flow
mark outgoing flow = reset_out_of flow

abbrev opposite : Direction → Direction
opposite incoming = outgoing
opposite outgoing = incoming

mark-keeps : (d : Direction) (x : Stream) → (mark d x).multistream_id ≡ x.multistream_id
mark-keeps incoming x = refl
mark-keeps outgoing x = refl

mark-IsAlive :
    (d : Direction) (x : Stream) → IsAlive x → was_reset (opposite d) x ≡ false → IsAlive (mark d x)
mark-IsAlive incoming x a e = record { is_open = a.is_open; one_way = e }
mark-IsAlive outgoing x a e = record { is_open = a.is_open; one_way = simp (e) (ground (arith, e)) }

-- The lookup of the flows with other identifiers.
abbrev SameOthers : Association → ℕ → Association → Type 0
SameOthers socket sid next =
    (k : ℕ) → (k == sid) ≡ false → get_flow_by_sid next.streams k ≡ get_flow_by_sid socket.streams k

-- A flow that is found in a valid association and was not reset in the direction.
module _ (d : Direction) (socket : Association) (sid : ℕ) (flow : Stream) (v : IsValid socket)
    (e : get_flow_by_sid socket.streams sid ≡ some flow) where
  abbrev marked : Association
  marked = record socket { streams = update socket.streams flow.multistream_id (mark d) }

  found : get_flow_by_sid socket.streams flow.multistream_id ≡ some flow
  found =
      subst (λ k. get_flow_by_sid socket.streams k ≡ some flow)
        (sym (get-id socket.streams sid flow e)) e

  marked-IsValid : was_reset (opposite d) flow ≡ false → IsValid marked
  marked-IsValid o = record {
    distinct =
        Distinct-update socket.streams flow.multistream_id (mark d) (mark-keeps d) v.distinct;
    counted = v.counted ∙ sym (length-update socket.streams flow.multistream_id (mark d));
    bounded = v.bounded;
    alive =
        update-All IsAlive socket.streams flow.multistream_id (mark d) flow v.alive found
          (mark-IsAlive d flow (get-All IsAlive socket.streams sid flow v.alive e) o);
  }

  abbrev closed_socket : Association
  closed_socket = record socket {
    sctp_streams_used = minus_one socket.sctp_streams_used;
    streams = remove socket.streams flow.multistream_id;
  }

  closed-IsValid : IsValid closed_socket
  closed-IsValid =
      let n = length-remove socket.streams flow.multistream_id flow found in
      record {
        distinct = Distinct-remove socket.streams flow.multistream_id v.distinct;
        counted = omega (arith, n, v.counted, v.bounded);
        bounded = omega (arith, v.bounded);
        alive = remove-All IsAlive socket.streams flow.multistream_id v.alive;
      }

  other_id : (k : ℕ) → (k == sid) ≡ false → (k == flow.multistream_id) ≡ false
  other_id k n = ground (arith, n, get-id socket.streams sid flow e)

  marked-SameOthers : SameOthers socket sid marked
  marked-SameOthers k n =
      get-update_other socket.streams flow.multistream_id k (mark d) (mark-keeps d) (other_id k n)

  closed-SameOthers : SameOthers socket sid closed_socket
  closed-SameOthers k n = get-remove_other socket.streams flow.multistream_id k (other_id k n)

  close_stream-closed_socket : close_stream marked flow ≡ (closed_socket, closed flow.name ∷ [])
  unfolding close_stream
  close_stream-closed_socket =
      let o = (get-All IsAlive socket.streams sid flow v.alive e).is_open in
      simp (o) (
        ap
          (λ xs. (
            record socket { sctp_streams_used = minus_one socket.sctp_streams_used; streams = xs },
            closed flow.name ∷ [],
          ))
          (remove-update socket.streams flow.multistream_id (mark d) (mark-keeps d)))

-- A reset succeeds and leaves a valid association with the other flows as they were.
abbrev Resets : Direction → Association → ℕ → Stream → Type 0
Resets d socket sid flow =
    (next : Association) × (events : List Event) × (reset_one d socket flow ≡ some (next, events))
    × IsValid next
    × SameOthers socket sid next

reset_one-Resets :
    (d : Direction) (socket : Association) (sid : ℕ) (flow : Stream)
    → IsValid socket
    → get_flow_by_sid socket.streams sid ≡ some flow
    → was_reset d flow ≡ false
    → Resets d socket sid flow
unfolding reset_one reset_incoming reset_outgoing
reset_one-Resets incoming socket sid flow v e r = elim (Bool-cases flow.reset_out) [
  | inl o ↦ (
    closed_socket incoming socket sid flow v e,
    closed flow.name ∷ [],
    simp (r, o) (ap (λ c. some c) (close_stream-closed_socket incoming socket sid flow v e)),
    closed-IsValid incoming socket sid flow v e,
    closed-SameOthers incoming socket sid flow v e,
  )
  | inr o ↦ (
    marked incoming socket sid flow v e,
    readable flow.name ∷ [],
    simp (r, o) refl,
    marked-IsValid incoming socket sid flow v e o,
    marked-SameOthers incoming socket sid flow v e,
  )
]
reset_one-Resets outgoing socket sid flow v e r = elim (Bool-cases flow.reset_in) [
  | inl o ↦ (
    closed_socket outgoing socket sid flow v e,
    closed flow.name ∷ [],
    simp (r, o) (ap (λ c. some c) (close_stream-closed_socket outgoing socket sid flow v e)),
    closed-IsValid outgoing socket sid flow v e,
    closed-SameOthers outgoing socket sid flow v e,
  )
  | inr o ↦ (
    marked outgoing socket sid flow v e,
    [],
    simp (r, o) refl,
    marked-IsValid outgoing socket sid flow v e o,
    marked-SameOthers outgoing socket sid flow v e,
  )
]

abbrev pub NotIn : ℕ → List ℕ → Type 0
NotIn sid [] = Unit
NotIn sid (k ∷ ks) = ((k == sid) ≡ false) × NotIn sid ks

-- The identifiers differ, and each is that of a flow that was not yet reset in the direction.
abbrev pub CanReset : Direction → List Stream → List ℕ → Type 0
CanReset d streams [] = Unit
CanReset d streams (sid ∷ sids) =
    ((flow : Stream) × (get_flow_by_sid streams sid ≡ some flow) × (was_reset d flow ≡ false))
    × NotIn sid sids
    × CanReset d streams sids

CanReset-later :
    (d : Direction) (xs ys : List Stream) (sid : ℕ) (sids : List ℕ)
    → ((k : ℕ) → (k == sid) ≡ false → get_flow_by_sid ys k ≡ get_flow_by_sid xs k)
    → NotIn sid sids
    → CanReset d xs sids
    → CanReset d ys sids
CanReset-later d xs ys sid [] same n c = tt
CanReset-later d xs ys sid (k ∷ ks) same (m, n) ((flow, e, r), o, c) =
    ((flow, same k m ∙ e, r), o, CanReset-later d xs ys sid ks same n c)

-- An event that resets streams in one direction, each of which belongs to a flow that was not
-- yet reset in that direction, is handled without a failed assertion, and keeps the association
-- valid: the identifiers are distinct, no flow in the list is reset in both directions, and
-- sctp_streams_used is the number of flows in the list.
pub handle_reset_stream-IsValid :
    (d : Direction) (sids : List ℕ) (socket : Association)
    → IsValid socket
    → CanReset d socket.streams sids
    → (last : Association) × (events : List Event) × (handle_reset_stream d sids socket
        ≡ some (last, events))
      × IsValid last
unfolding handle_reset_stream
handle_reset_stream-IsValid d [] socket v c = (socket, [], refl, v)
handle_reset_stream-IsValid d (sid ∷ sids) socket v ((flow, e, r), n, c) =
    let (next, events, q, w, same) = reset_one-Resets d socket sid flow v e r in
    let (last, more, h, z) =
      handle_reset_stream-IsValid d sids next w
        (CanReset-later d socket.streams next.streams sid sids same n c) in
    (last, events ++ more, simp (e, handle_reset_stream) (simp (q) (simp (h) refl)), z)
