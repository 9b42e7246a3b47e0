-- ===== src/Flow/Multistream/Demultiplex.antt =====
-- Messages reach the flow of their stream.
use neat.Base.{
  ℕ, ◌≡◌, refl, sym, ap, ap₂, ◌∙◌, ◌<◌, length, arith, Bool, true, false, Bool-cases, inl, inr,
  List, [], ◌∷◌, ◌++◌, append_assoc, append-nil, Option, none, some, map, ltb, ◌==◌, ◌&&◌,
  if◌then◌else◌,
}
use neat.Flow.Multistream.{
  Stream, Association, Event, readable, get_flow_by_sid, enqueue, deliver, receive,
}
use neat.Flow.Multistream.Streams.{Distinct, update-change_all, changed, get-map, Distinct-map}

-- Messages with the identifiers of their streams and whether calloc succeeds for them, in the order
-- in which io_readable gets them.
abbrev pub receive_all : Association → List (ℕ × List ℕ × Bool) → Option (Association × List Event)
receive_all socket [] = some (socket, [])
receive_all socket ((sid, message, b) ∷ ms) = elim (receive true b socket 0 sid message) [
  | none ↦ none
  | some (socket', events) ↦ elim (receive_all socket' ms) [
    | none ↦ none
    | some (last, more) ↦ some (last, events ++ more)
  ]
]

-- The messages of one stream for which there was memory.
abbrev pub messages_of : ℕ → List (ℕ × List ℕ × Bool) → List (List ℕ)
messages_of id [] = []
messages_of id ((sid, message, b) ∷ ms) =
    if (id == sid) && b then message ∷ messages_of id ms else messages_of id ms

-- A flow after its messages have been queued.
abbrev pub gather : List (ℕ × List ℕ × Bool) → Stream → Stream
gather ms flow = record flow { read_queue = flow.read_queue ++ messages_of flow.multistream_id ms }

abbrev pub AllKnown : List Stream → List (ℕ × List ℕ × Bool) → Type 0
AllKnown streams [] = Unit
AllKnown streams ((sid, message, b) ∷ ms) =
    (((flow : Stream) × (get_flow_by_sid streams sid ≡ some flow)) × (0 < length message))
    × AllKnown streams ms

abbrev queue_for : Bool → ℕ → List ℕ → Stream → Stream
queue_for false sid message flow = flow
queue_for true sid message flow = if flow.multistream_id == sid then enqueue message flow else flow

queue_for-keeps :
    (b : Bool) (sid : ℕ) (message : List ℕ) (x : Stream)
    → (queue_for b sid message x).multistream_id ≡ x.multistream_id
queue_for-keeps false sid message x = refl
queue_for-keeps true sid message x = elim (Bool-cases (x.multistream_id == sid)) [
  | inl s ↦ simp (s) refl
  | inr s ↦ simp (s) refl
]

gather-queue_for :
    (b : Bool) (sid : ℕ) (message : List ℕ) (ms : List (ℕ × List ℕ × Bool)) (x : Stream)
    → gather ms (queue_for b sid message x) ≡ gather ((sid, message, b) ∷ ms) x
gather-queue_for false sid message ms x = elim (Bool-cases (x.multistream_id == sid)) [
  | inl s ↦ simp (s) refl
  | inr s ↦ simp (s) refl
]
gather-queue_for true sid message ms x = elim (Bool-cases (x.multistream_id == sid)) [
  | inl s ↦ simp (s, append_assoc) refl
  | inr s ↦ simp (s) refl
]

map-gather :
    (b : Bool) (sid : ℕ) (message : List ℕ) (ms : List (ℕ × List ℕ × Bool)) (xs : List Stream)
    → map (gather ms) (map (queue_for b sid message) xs) ≡ map (gather ((sid, message, b) ∷ ms)) xs
map-gather b sid message ms [] = refl
map-gather b sid message ms (x ∷ xs) =
    ap₂ ◌∷◌ (gather-queue_for b sid message ms x) (map-gather b sid message ms xs)

gather_nothing : (xs : List Stream) → map (gather []) xs ≡ xs
gather_nothing [] = refl
gather_nothing (x ∷ xs) = simp (append-nil, gather_nothing xs) refl

map_nothing : (xs : List Stream) → map (λ x. x) xs ≡ xs
map_nothing [] = refl
map_nothing (x ∷ xs) = ap (λ l. x ∷ l) (map_nothing xs)

still_known :
    (b : Bool) (sid : ℕ) (message : List ℕ) (streams : List Stream) (ms : List (ℕ × List ℕ × Bool))
    → AllKnown streams ms
    → AllKnown (map (queue_for b sid message) streams) ms
still_known b sid message streams [] k = tt
still_known b sid message streams ((sid', message', b') ∷ ms) (((flow, e), n), k) = (
  (
    (
      queue_for b sid message flow,
      get-map (queue_for b sid message) (queue_for-keeps b sid message) streams sid'
          ∙ ap (changed (queue_for b sid message)) e,
    ),
    n,
  ),
  still_known b sid message streams ms k,
)

module _ (socket : Association) (sid byte : ℕ) (bytes : List ℕ) (flow : Stream)
    (d : Distinct socket.streams) (e : get_flow_by_sid socket.streams sid ≡ some flow) where
  abbrev told : Bool → List Event
  told false = []
  told true = readable flow.name ∷ []

  abbrev delivered : Bool → Option (Association × List Event)
  delivered b =
      some (record socket { streams = map (queue_for b sid (byte ∷ bytes)) socket.streams }, told b)

  deliver-queue_for : (b : Bool) → deliver b socket sid (byte ∷ bytes) ≡ delivered b
  unfolding deliver
  deliver-queue_for false =
      simp (e, deliver)
        (ap (λ xs. some (record socket { streams = xs }, [])) (sym (map_nothing socket.streams)))
  deliver-queue_for true =
      simp (e, deliver)
        (ap (λ xs. some (record socket { streams = xs }, readable flow.name ∷ []))
          (update-change_all socket.streams sid (enqueue (byte ∷ bytes)) d))

  receive-queue_for : (b : Bool) → receive true b socket 0 sid (byte ∷ bytes) ≡ delivered b
  unfolding receive
  receive-queue_for b = elim (Bool-cases (ltb 0 sid && socket.sctp_neat_peer)) [
    | inl s ↦ simp (s, e) (deliver-queue_for b)
    | inr s ↦ simp (s) (deliver-queue_for b)
  ]

receive_all_step :
    (socket : Association) (sid : ℕ) (message : List ℕ) (b : Bool) (ms : List (ℕ × List ℕ × Bool))
    {socket' last : Association} {events more : List Event}
    → receive true b socket 0 sid message ≡ some (socket', events)
    → receive_all socket' ms ≡ some (last, more)
    → receive_all socket ((sid, message, b) ∷ ms) ≡ some (last, events ++ more)
receive_all_step socket sid message b ms e f = simp (e, receive_all) (simp (f) refl)

-- If no two flows of an association have the same multistream_id, and each message is not empty
-- and belongs to one of the flows, then io_readable queues behind what waits in each flow
-- exactly the messages of its stream for which calloc succeeds, in their order, and changes
-- nothing else; the messages for which it fails are lost.
pub receive_all-gather :
    (socket : Association) (ms : List (ℕ × List ℕ × Bool))
    → Distinct socket.streams
    → AllKnown socket.streams ms
    → (events : List Event) × (receive_all socket ms
        ≡ some (record socket { streams = map (gather ms) socket.streams }, events))
receive_all-gather socket [] d k =
    ([], ap (λ xs. some (record socket { streams = xs }, [])) (sym (gather_nothing socket.streams)))
receive_all-gather socket ((sid, [], b) ∷ ms) d ((known, n), k) = absurd (omega (arith, n))
receive_all-gather socket ((sid, byte ∷ bytes, b) ∷ ms) d (((flow, e), n), k) =
    let message = byte ∷ bytes in
    let socket' = record socket { streams = map (queue_for b sid message) socket.streams } in
    let keeps = queue_for-keeps b sid message in
    let (events, r) =
      receive_all-gather socket' ms (Distinct-map (queue_for b sid message) keeps socket.streams d)
        (still_known b sid message socket.streams ms k) in
    let events' = told socket sid byte bytes flow d e b ++ events in
    (
      events',
      receive_all_step socket sid message b ms (receive-queue_for socket sid byte bytes flow d e b)
            r
          ∙ (ap (λ xs. some (record socket { streams = xs }, events'))
              (map-gather b sid message ms socket.streams)),
    )
