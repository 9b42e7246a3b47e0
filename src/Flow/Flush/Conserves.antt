-- ===== src/Flow/Flush/Conserves.antt =====
-- The flush of a flow without security: no byte is lost, repeated or reordered.
use neat.Base.{
  ℕ, ◌≤◌, ◌≡◌, refl, ◌≢◌, ◌⊎◌, sym, ap, ◌∙◌, List, [], ◌∷◌, ◌++◌, true, false, some, arith,
  append-nil, append_assoc, ltb, Bool-cases, inl, inr, take, drop, min,
}
use neat.Flow.Memory.{Block, read_at}
use neat.Flow.Memory.Window.{window, read_at-window, window_split, take-take}
use neat.Flow.State.{Code, Message, Flow}
use neat.Flow.Fill.{is_empty}
use neat.Flow.Fill.Append.{IsValid, pending}
use neat.Flow.Fill.Queue.{AllValid, backlog}
use neat.Flow.Flush.{
  Answer, room, would_block, failed, Chunk, Flush, finished, running, fault, offered, chunk,
  consume, logged, stop, went, round, flush_from, in_flow, write_flush,
}

abbrev pub taken : List Chunk → Block
taken [] = []
taken (c ∷ log) = c.bytes ++ taken log

taken-append : (a b : List Chunk) → taken (a ++ b) ≡ taken a ++ taken b
taken-append [] b = refl
taken-append (c ∷ a) b = rw (taken-append a b, append_assoc)

pub offered-le : (flow : Flow) (size : ℕ) → offered flow size ≤ size
unfolding offered
offered-le flow size = ground arith

-- What a round that goes on leaves: the bytes taken and those that still wait make up the message.
pub record Takes (m m' : Message) (log : List Chunk) : Type 0 where
  pub valid : IsValid m'
  pub whole : taken log ++ pending m' ≡ pending m

consume-Takes :
    (flow : Flow) (m : Message) (len rv : ℕ)
    → IsValid m
    → rv ≤ len
    → len ≤ m.buffered_size
    → Takes m
        (consume m rv)
        (chunk flow m len (take rv (window m.buffered m.buffered_offset len)) ∷ [])
consume-Takes flow m len rv v a b = record {
  valid = record { sized = v.sized; inside = omega (arith, v.inside) };
  whole =
      ap (λ x. x ++ pending (consume m rv))
        (append-nil _ ∙ take-take (drop m.buffered_offset m.buffered) rv len a)
      ∙ window_split m.buffered m.buffered_offset m.buffered_size rv (omega arith);
}

module _ (flow : Flow) (open_fd : flow.socket.has_fd ≡ true)
    (plain : flow.security_needed ≡ false) where
  -- A round on a valid message stays in its block; it stops on a negative answer, and else goes on.
  round_cases :
      (m : Message) (a : Answer)
      → IsValid m
      → ((c : Code) × (round flow m a ≡ stop c) × (c ≢ Code.ok))
        ⊎ ((m' : Message) × (log : List Chunk) × (round flow m a ≡ went m' log) × Takes m m' log)
  unfolding round
  round_cases m a v = go a
    where
      len : ℕ
      len = offered flow m.buffered_size

      read :
          read_at m.buffered m.buffered_offset len ≡ some (window m.buffered m.buffered_offset len)
      read =
          read_at-window m.buffered m.buffered_offset len
            (omega (arith, offered-le flow m.buffered_size, v.sized, v.inside))

      go :
          (a : Answer)
          → ((c : Code) × (round flow m a ≡ stop c) × (c ≢ Code.ok))
            ⊎ ((m' : Message) × (log : List Chunk) × (round flow m a ≡ went m' log)
                × Takes m m' log)
      go would_block = inl (Code.would_block, rw (open_fd, read, plain, round) refl, λ e. cc)
      go (failed b) = inl (Code.io, rw (open_fd, read, plain, round) refl, λ e. cc)
      go (room n) = inr (
        consume m (min n len),
        chunk flow m len (take (min n len) (window m.buffered m.buffered_offset len)) ∷ [],
        rw (open_fd, read, plain, round) refl,
        consume-Takes flow m len (min n len) v (omega arith) (offered-le flow m.buffered_size),
      )

-- What a run of the loops leaves, of the messages `ms`: every byte is taken, in order, or waits.
abbrev pub Accounts : List Message → Flush (List Message) → Type 0
Accounts ms (finished code left log) =
    AllValid left × (taken log ++ backlog left ≡ backlog ms) × (code ≡ Code.ok → left ≡ [])
Accounts ms (running left log) = AllValid left × (taken log ++ backlog left ≡ backlog ms)
Accounts ms fault = ⊥

regroup :
    {m m' : Message} {log : List Chunk} (ms : List Message) (later : List Chunk) (left : Block)
    → Takes m m' log
    → taken later ++ left ≡ pending m' ++ backlog ms
    → taken (log ++ later) ++ left ≡ pending m ++ backlog ms
regroup {m} {m'} {log} ms later left t e =
    ap (λ x. x ++ left) (taken-append log later)
    ∙ append_assoc (taken log) (taken later) left
    ∙ ap (λ x. taken log ++ x) e
    ∙ sym (append_assoc (taken log) (pending m') (backlog ms))
    ∙ ap (λ x. x ++ backlog ms) t.whole

Accounts-logged :
    {m m' : Message} {log : List Chunk} (ms : List Message) (r : Flush (List Message))
    → Takes m m' log
    → Accounts (m' ∷ ms) r
    → Accounts (m ∷ ms) (logged log r)
Accounts-logged ms (finished code left later) t (v, e, k) =
    (v, regroup ms later (backlog left) t e, k)
Accounts-logged ms (running left later) t (v, e) = (v, regroup ms later (backlog left) t e)
Accounts-logged ms fault t h = h

-- A message with nothing left to send can go.
Accounts-spent :
    (m : Message) (ms : List Message) (r : Flush (List Message))
    → m.buffered_size ≡ 0
    → Accounts ms r
    → Accounts (m ∷ ms) r
Accounts-spent m ms (finished code left later) z (v, e, k) = (v, e ∙ rw z refl, k)
Accounts-spent m ms (running left later) z (v, e) = (v, e ∙ rw z refl)
Accounts-spent m ms fault z h = h

not_less-zero : (n : ℕ) → ltb 0 n ≡ false → n ≡ 0
not_less-zero n e = ground arith

module _ (flow : Flow) (open_fd : flow.socket.has_fd ≡ true)
    (plain : flow.security_needed ≡ false) where
  flush_from-Accounts :
      (answers : List Answer) (ms : List Message)
      → AllValid ms
      → Accounts ms (flush_from flow answers ms)
  unfolding flush_from
  flush_from-Accounts answers [] vs = (tt, refl, λ e. refl)
  flush_from-Accounts [] (m ∷ ms) vs = (vs, refl)
  flush_from-Accounts (a ∷ answers) (m ∷ ms) (v, vs) = elim (round_cases flow open_fd plain m a v) [
    | inl (c, e, bad) ↦ rw (plain, e, flush_from) ((v, vs), refl, λ q. absurd (bad q))
    | inr (m', log, e, t) ↦
        let on : Accounts (m' ∷ ms) (flush_from flow answers (m' ∷ ms)) =
          flush_from-Accounts answers (m' ∷ ms) (t.valid, vs) in
        let next : Accounts ms (flush_from flow answers ms) = flush_from-Accounts answers ms vs in
        elim (Bool-cases (ltb 0 m'.buffered_size)) [
          | inl more ↦ rw (plain, e, more, flush_from) (Accounts-logged ms _ t on)
          | inr spent ↦
              rw (plain, e, spent, flush_from)
                (Accounts-logged ms _ t
                  (Accounts-spent m' ms _ (not_less-zero m'.buffered_size spent) next))
        ]
  ]

is_empty-nil : (ms : List Message) → is_empty ms ≡ true → ms ≡ []
unfolding is_empty
is_empty-nil [] e = refl
is_empty-nil (m ∷ ms) e = cc

-- What a flush leaves of a flow.
abbrev pub FlowAccounts : Flow → Flush Flow → Type 0
FlowAccounts flow (finished code flow' log) =
    AllValid flow'.buffered_messages
    × (taken log ++ backlog flow'.buffered_messages ≡ backlog flow.buffered_messages)
    × (code ≡ Code.ok → flow'.buffered_messages ≡ [])
    × (code ≡ Code.ok → is_empty flow.buffered_messages ≡ false → flow'.is_draining ≡ false)
FlowAccounts flow (running flow' log) =
    AllValid flow'.buffered_messages
    × (taken log ++ backlog flow'.buffered_messages ≡ backlog flow.buffered_messages)
FlowAccounts flow fault = ⊥

in_flow-Accounts :
    (flow : Flow) (r : Flush (List Message))
    → Accounts flow.buffered_messages r
    → FlowAccounts flow (in_flow flow r)
unfolding is_empty
in_flow-Accounts flow (finished code left log) (v, e, k) = (v, e, k, λ c some_message. rw (k c))
in_flow-Accounts flow (running left log) h = h
in_flow-Accounts flow fault h = h

-- Whatever the kernel answers, a flush of a flow with an open socket, without security and with
-- valid messages stays in its blocks, and what the kernel took, followed by what still waits, is
-- what waited before, byte for byte. It returns NEAT_OK only with an empty queue, and then a
-- flow that had something to send is not draining.
pub write_flush-Accounts :
    (flow : Flow) (answers : List Answer)
    → flow.socket.has_fd ≡ true
    → flow.security_needed ≡ false
    → AllValid flow.buffered_messages
    → FlowAccounts flow (write_flush flow answers)
unfolding write_flush
write_flush-Accounts flow answers open_fd plain vs =
    elim (Bool-cases (is_empty flow.buffered_messages)) [
      | inl e ↦ rw e (vs, refl, λ c. is_empty-nil flow.buffered_messages e, λ c f. cc)
      | inr e ↦ rw e (
          in_flow-Accounts flow _
            (flush_from-Accounts flow open_fd plain answers flow.buffered_messages vs))
    ]
