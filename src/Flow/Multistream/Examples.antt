-- ===== src/Flow/Multistream/Examples.antt =====
-- An association with three flows, and with two after one of them was closed.
use neat.Base.{ℕ, Bool, false, ◌≡◌, refl, true, List, [], ◌∷◌, some, map, arith}
use neat.Flow.Multistream.{
  Association, Event, new_stream, open_stream, get_flow_by_sid, outgoing, handle_reset_stream,
}
use neat.Flow.Multistream.Demultiplex.{receive_all, gather, receive_all-gather}
use neat.Flow.Multistream.Resets.{IsValid, handle_reset_stream-IsValid}

abbrev first : Association
first = record {
  streams = new_stream 7 0 ∷ [];
  sctp_streams_used = 1;
  sctp_streams_available = 10;
  sctp_neat_peer = true;
  is_closed = false;
}

abbrev three : Association
three = record first {
  streams = new_stream 9 3 ∷ new_stream 8 2 ∷ new_stream 7 0 ∷ [];
  sctp_streams_used = 3;
}

three_opened : open_stream (open_stream first 8) 9 ≡ three
unfolding open_stream
three_opened = refl

-- Four messages; for the element of the last one there is no memory.
abbrev arrived : List (ℕ × List ℕ × Bool)
arrived = (2, 1 ∷ [], true) ∷ (3, 5 ∷ [], true) ∷ (2, 4 ∷ [], true) ∷ (3, 6 ∷ [], false) ∷ []

receive_all-gather_example :
    (events : List Event) × (receive_all three arrived
      ≡ some (record three { streams = map (gather arrived) three.streams }, events))
unfolding get_flow_by_sid
receive_all-gather_example =
    receive_all-gather three arrived (refl, (refl, (refl, tt)))
      (
        ((new_stream 8 2, refl), omega arith),
        (
          ((new_stream 9 3, refl), omega arith),
          (((new_stream 8 2, refl), omega arith), (((new_stream 9 3, refl), omega arith), tt)),
        ),
      )

-- The flow 8 is reset in one direction, and then in the other.
abbrev half : Association
half = record three {
  streams = new_stream 9 3 ∷ record (new_stream 8 2) { reset_in = true } ∷ new_stream 7 0 ∷ [];
}

half-IsValid : IsValid half
unfolding get_flow_by_sid
half-IsValid = record {
  distinct = (refl, (refl, (refl, tt)));
  counted = refl;
  bounded = omega arith;
  alive = (
    record { is_open = refl; one_way = refl },
    (record { is_open = refl; one_way = refl }, (record { is_open = refl; one_way = refl }, tt)),
  );
}

handle_reset_stream-IsValid_example :
    (last : Association) × (events : List Event) × (handle_reset_stream outgoing (2 ∷ []) half
      ≡ some (last, events))
    × IsValid last
unfolding get_flow_by_sid
handle_reset_stream-IsValid_example =
    handle_reset_stream-IsValid outgoing (2 ∷ []) half half-IsValid
      ((record (new_stream 8 2) { reset_in = true }, refl, refl), tt, tt)

-- Then a new flow gets the identifier of the flow 9.
abbrev two : Association
two = record three { streams = new_stream 9 3 ∷ new_stream 7 0 ∷ []; sctp_streams_used = 2 }
