-- ===== src/Flow/Fill/Queue.antt =====
-- What `write_fillbuffer` does to the queue of messages of a flow.
use neat.Base.{
  ℕ, ◌<◌, ◌≡◌, refl, sym, ap, ◌∙◌, List, [], ◌∷◌, ◌++◌, true, false, arith, length, append-nil,
  append_assoc, ◌==◌, Bool-cases, inl, inr,
}
use neat.Flow.Stack.{is_tcp}
use neat.Flow.Memory.{Block, cells}
use neat.Flow.State.{Code, Message, Flow, Run, done}
use neat.Flow.Fill.Append.{IsValid, pending, SameOptions, Appended, append_bytes-Appended}
use neat.Flow.Fill.{
  Options, empty_message, append_bytes, map_run, on_last, is_empty, insert_tail, starts_message,
  write_fillbuffer,
}

abbrev pub AllValid : List Message → Type 0
AllValid [] = Unit {0}
AllValid (m ∷ ms) = IsValid m × AllValid ms

-- The bytes that a flow still has to give to its socket, in order.
abbrev pub backlog : List Message → Block
backlog [] = []
backlog (m ∷ ms) = pending m ++ backlog ms

pub backlog-insert_tail :
    (ms : List Message) (m : Message) → backlog (insert_tail ms m) ≡ backlog ms ++ pending m
backlog-insert_tail [] m = append-nil _
backlog-insert_tail (x ∷ ms) m = rw (backlog-insert_tail ms m, append_assoc)

AllValid-insert_tail :
    (ms : List Message) (m : Message) → AllValid ms → IsValid m → AllValid (insert_tail ms m)
AllValid-insert_tail [] m vs v = (v, tt)
AllValid-insert_tail (x ∷ ms) m vs v = (vs.0, AllValid-insert_tail ms m vs.1 v)

on_last-insert_tail :
    (f : Message → Run Message) (ms : List Message) (m : Message)
    → on_last f (insert_tail ms m) ≡ map_run (insert_tail ms) (f m)
unfolding on_last
on_last-insert_tail f [] m = refl
on_last-insert_tail f (x ∷ []) m = ground arith
on_last-insert_tail f (x ∷ y ∷ ms) m = rw (on_last-insert_tail f (y ∷ ms) m) (ground arith)

-- A queue that is not empty ends in a message.
ends_in :
    (ms : List Message)
    → is_empty ms ≡ false
    → (front : List Message) × (m : Message) × (ms ≡ insert_tail front m)
unfolding is_empty
ends_in [] e = cc
ends_in (m ∷ []) e = ([], m, refl)
ends_in (x ∷ y ∷ ms) e =
    let (front, m, q) = ends_in (y ∷ ms) refl in (x ∷ front, m, ap (λ l. x ∷ l) q)

IsValid-of-last :
    (front : List Message) (m : Message)
    → AllValid (insert_tail front m)
    → AllValid front × IsValid m
IsValid-of-last [] m v = (tt, v.0)
IsValid-of-last (x ∷ front) m v = let (a, b) = IsValid-of-last front m v.1 in ((v.0, a), b)

-- A flow whose queue has the new bytes at its end, and nothing else changed.
pub record Filled (flow : Flow) (bs : List ℕ) (flow' : Flow) : Type 0 where
  pub valid : AllValid flow'.buffered_messages
  pub grown : backlog flow'.buffered_messages ≡ backlog flow.buffered_messages ++ cells bs
  pub same : flow' ≡ record flow { buffered_messages = flow'.buffered_messages }

fill_new :
    (flow : Flow) (bs : List ℕ) (o : Options)
    → (m : Message) × (map_run
          (λ ms. record flow { buffered_messages = ms })
          (on_last
            (λ m. append_bytes m bs true)
            (insert_tail flow.buffered_messages (empty_message o)))
        ≡ done Code.ok (record flow { buffered_messages = insert_tail flow.buffered_messages m }))
      × Appended (empty_message o) bs m
fill_new flow bs o =
    let (m, e, w) =
      append_bytes-Appended (empty_message o) bs (record { sized = refl; inside = omega arith }) in
    (m, rw (on_last-insert_tail, e) refl, w)

-- On a stack other than TCP, if the allocations succeed, each write of at least a byte becomes
-- one valid message of its own at the end of the queue, with the options of the write and its
-- bytes alone to send.
pub write_fillbuffer-message :
    (flow : Flow) (bs : List ℕ) (o : Options)
    → is_tcp flow.socket.stack ≡ false
    → 0 < length bs
    → (m : Message) × (write_fillbuffer flow bs o true true
        ≡ done Code.ok (record flow { buffered_messages = insert_tail flow.buffered_messages m }))
      × IsValid m
      × (pending m ≡ cells bs)
      × SameOptions (empty_message o) m
unfolding write_fillbuffer starts_message
write_fillbuffer-message flow bs o not_tcp some_bytes =
    let (m, e, w) = fill_new flow bs o in
    let z : (length bs == 0) ≡ false = ground arith in
    (m, rw (z, not_tcp) e, w.valid, w.grown, w.options)

fill_last :
    (flow : Flow) (bs : List ℕ) (o : Options)
    → is_empty flow.buffered_messages ≡ false
    → AllValid flow.buffered_messages
    → (flow' : Flow) × (map_run
          (λ ms. record flow { buffered_messages = ms })
          (on_last (λ m. append_bytes m bs true) flow.buffered_messages)
        ≡ done Code.ok flow')
      × Filled flow bs flow'
fill_last flow bs o some_message vs =
    let (front, m, q) = ends_in flow.buffered_messages some_message in
    let vs' : AllValid (insert_tail front m) = rw q at vs in
    let (valid_front, v) = IsValid-of-last front m vs' in
    let (m', e, w) = append_bytes-Appended m bs v in
    (
      record flow { buffered_messages = insert_tail front m' },
      rw (q, on_last-insert_tail, e) refl,
      record {
        valid = AllValid-insert_tail front m' valid_front w.valid;
        grown =
            backlog-insert_tail front m'
            ∙ ap (λ x. backlog front ++ x) w.grown
            ∙ sym (append_assoc (backlog front) (pending m) (cells bs))
            ∙ ap (λ x. x ++ cells bs) (sym (backlog-insert_tail front m) ∙ ap backlog (sym q));
        same = refl;
      },
    )

old_message :
    (flow : Flow)
    → starts_message flow ≡ false
    → (is_tcp flow.socket.stack ≡ true) × (is_empty flow.buffered_messages ≡ false)
unfolding starts_message
old_message flow e = ground arith

-- When the allocations succeed and the messages of the flow are valid, a write puts its bytes
-- behind all that the flow still has to send, keeps every message valid and touches nothing but
-- the queue. (On a TCP flow its stream number has to be 0, as the source asserts.)
pub write_fillbuffer-Filled :
    (flow : Flow) (bs : List ℕ) (o : Options)
    → AllValid flow.buffered_messages
    → (is_tcp flow.socket.stack ≡ true → o.stream_id ≡ 0)
    → (flow' : Flow) × (write_fillbuffer flow bs o true true ≡ done Code.ok flow')
      × Filled flow bs flow'
unfolding write_fillbuffer
write_fillbuffer-Filled flow [] o vs stream =
    (flow, refl, record { valid = vs; grown = sym (append-nil _); same = refl })
write_fillbuffer-Filled flow (b ∷ bs) o vs stream = elim (Bool-cases (starts_message flow)) [
  | inl new ↦
      let (m, e, w) = fill_new flow (b ∷ bs) o in
      (
        record flow { buffered_messages = insert_tail flow.buffered_messages m },
        rw (nonzero, new) e,
        record {
          valid = AllValid-insert_tail flow.buffered_messages m vs w.valid;
          grown =
              backlog-insert_tail flow.buffered_messages m
              ∙ ap (λ x. backlog flow.buffered_messages ++ x) w.grown;
          same = refl;
        },
      )
  | inr old ↦
      let (tcp, some_message) = old_message flow old in
      let stream_zero : (o.stream_id == 0) ≡ true = ground (arith, stream tcp) in
      let (flow', e, w) = fill_last flow (b ∷ bs) o some_message vs in
      (flow', rw (nonzero, old, stream_zero) e, w)
]
  where
    nonzero : (length (b ∷ bs) == 0) ≡ false
    nonzero = ground arith
