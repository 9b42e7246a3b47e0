-- ===== src/Flow/Multistream/Collision.antt =====
-- A stream that is opened with the identifier of another.
use neat.Base.{
  ℕ, ◌≡◌, sym, ap, subst, Bool, true, Bool-cases, inl, inr, List, [], ◌∷◌, some, ltb, ◌&&◌, arith,
}
use neat.Flow.Multistream.{
  Stream, Association, readable, get_flow_by_sid, new_stream, plus_one, open_stream, enqueue,
  update, deliver, receive,
}
use neat.Flow.Multistream.Streams.{get-id}

found_first :
    (name sid : ℕ) (streams : List Stream)
    → get_flow_by_sid (new_stream name sid ∷ streams) sid ≡ some (new_stream name sid)
unfolding get_flow_by_sid
found_first name sid streams = ground arith

updated_first :
    (name sid : ℕ) (streams : List Stream) (f : Stream → Stream)
    → update (new_stream name sid ∷ streams) sid f ≡ f (new_stream name sid) ∷ streams
unfolding update
updated_first name sid streams f = ground arith

-- A flow at the front of the list gets the messages of its stream.
deliver_first :
    (socket : Association) (name sid : ℕ) (streams : List Stream) (byte : ℕ) (bytes : List ℕ)
    → deliver true (record socket { streams = new_stream name sid ∷ streams }) sid (byte ∷ bytes)
      ≡ some (
        record socket { streams = enqueue (byte ∷ bytes) (new_stream name sid) ∷ streams },
        readable name ∷ [],
      )
unfolding deliver
deliver_first socket name sid streams byte bytes =
    simp (found_first name sid streams, deliver)
      (ap (λ xs. some (record socket { streams = xs }, readable name ∷ []))
        (updated_first name sid streams (enqueue (byte ∷ bytes))))

receive_first :
    (socket : Association) (name sid other : ℕ) (streams : List Stream) (creates : Bool) (byte : ℕ)
    (bytes : List ℕ)
    → receive creates true
        (record socket { streams = new_stream name sid ∷ streams })
        other
        sid
        (byte ∷ bytes)
      ≡ some (
        record socket { streams = enqueue (byte ∷ bytes) (new_stream name sid) ∷ streams },
        readable name ∷ [],
      )
unfolding receive
receive_first socket name sid other streams creates byte bytes =
    let e = found_first name sid streams in
    let d = deliver_first socket name sid streams byte bytes in
    elim (Bool-cases (ltb 0 sid && socket.sctp_neat_peer)) [
      | inl s ↦ simp (s, e) d
      | inr s ↦ simp (s) d
    ]

-- The identifier of a new stream is one more than the number of streams in use. If a flow of the
-- association has that identifier already, as when a stream with a smaller one was closed, each
-- message of that flow goes to the new flow alone from then on, if it can be queued.
pub open_stream-collides :
    (socket : Association) (name other : ℕ) (creates : Bool) (byte : ℕ) (bytes : List ℕ)
    (flow : Stream)
    → get_flow_by_sid socket.streams (plus_one socket.sctp_streams_used) ≡ some flow
    → receive creates true (open_stream socket name) other flow.multistream_id (byte ∷ bytes)
      ≡ some (
        record (open_stream socket name) {
          streams =
              enqueue (byte ∷ bytes) (new_stream name (plus_one socket.sctp_streams_used))
              ∷ socket.streams;
        },
        readable name ∷ [],
      )
unfolding open_stream
open_stream-collides socket name other creates byte bytes flow e =
    let used = plus_one socket.sctp_streams_used in
    subst
      (λ (k : ℕ).
        receive creates true (open_stream socket name) other k (byte ∷ bytes)
        ≡ some (
          record (open_stream socket name) {
            streams = enqueue (byte ∷ bytes) (new_stream name used) ∷ socket.streams;
          },
          readable name ∷ [],
        ))
      (sym (get-id socket.streams used flow e))
      (receive_first (record socket { sctp_streams_used = used }) name used other socket.streams
        creates byte bytes)
