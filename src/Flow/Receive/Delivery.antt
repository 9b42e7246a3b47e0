-- ===== src/Flow/Receive/Delivery.antt =====
-- The delivery of a whole SCTP message by `io_readable`, call after call, and its read by
-- `nt_read_from_lower_layer`.
use neat.Base.{
  ℕ, zero, suc, ◌+◌, ◌-◌, ◌≤◌, ◌<◌, ◌≡◌, refl, ap, sym, ◌∙◌, true, false, Bool-cases, subst, inl,
  inr, List, [], ◌∷◌, ◌++◌, Option, none, some, arith, length, take, drop, leb, length-take,
  length-drop, map-append, append_assoc, take-append-drop,
}
use neat.Flow.Stack.{base_stack}
use neat.Flow.Memory.{Block, cells}
use neat.Flow.Memory.Window.{window, length-window}
use neat.Flow.State.{Flow, Code, Run, done}
use neat.Flow.Read.{ReadTag, Received, Reading, is_webrtc, is_message_stack, read_from_lower_layer}
use neat.Flow.Read.Conserves.{
  waiting, IsReadable, ReadsMessage, TakesMessage, incomplete, too_big, whole,
  read_from_lower_layer-boundaries,
}
use neat.Flow.Read.Resize.{IsSized}
use neat.Flow.Receive.{Acceptance, io_readable}
use neat.Flow.Receive.Growth.{Expects, delivering, io_readable-Advances, refilled}

-- `io_readable` for the same flow again and again, until the message is complete; `bytes` is what is
-- still to come of it, and `limits` says how many of them the kernel has at hand at each call at most.
-- `none` is a run that is not over.
unfoldable pub deliver : List ℕ → Flow → List ℕ → Acceptance → Option Flow
deliver [] flow bytes acceptance = none
deliver (limit ∷ limits) flow bytes acceptance =
    elim (io_readable flow (delivering limit bytes) acceptance) [
      | none ↦ none
      | some h ↦ elim h.flow.read_buffer_msg_complete [
        | true ↦ some h.flow
        | false ↦
            deliver limits h.flow (drop (h.flow.read_buffer_size - flow.read_buffer_size) bytes)
              acceptance
      ]
    ]

-- The kernel has at least a byte at hand at each call.
abbrev pub AllPositive : List ℕ → Type 0
AllPositive [] = Unit
AllPositive (limit ∷ limits) = (0 < limit) × AllPositive limits

-- The flow after the delivery: everything but the buffer is as before.
pub record Delivered (flow : Flow) (bytes : List ℕ) (run : Option Flow) : Type 0 where
  pub mem : Block
  pub allocation : ℕ
  pub over : run ≡ some (refilled flow mem allocation (flow.read_buffer_size + length bytes) true)
  pub sized : IsSized (refilled flow mem allocation (flow.read_buffer_size + length bytes) true)
  pub appended : window mem 0 (flow.read_buffer_size + length bytes) ≡ waiting flow ++ cells bytes

take_all {ℓ} : {A : Type ℓ} (n : ℕ) (xs : List A) → length xs ≤ n → take n xs ≡ xs
take_all zero [] h = refl
take_all zero (x ∷ xs) h = absurd (omega arith)
take_all (suc n) [] h = refl
take_all (suc n) (x ∷ xs) h = ap (λ l. x ∷ l) (take_all n xs (omega arith))

-- The last piece of a message.
finishes :
    {flow : Flow} {bytes : List ℕ} {mem : Block} {allocation : ℕ} (r : ℕ)
    → take r bytes ≡ bytes
    → IsSized (refilled flow mem allocation (flow.read_buffer_size + length (take r bytes)) true)
    → window mem 0 (flow.read_buffer_size + length (take r bytes))
      ≡ waiting flow ++ cells (take r bytes)
    → Delivered flow bytes
        (some (refilled flow mem allocation (flow.read_buffer_size + length (take r bytes)) true))
finishes {flow} {bytes} {mem} {allocation} r t v w = record {
  mem = mem;
  allocation = allocation;
  over = ap (λ xs. some (refilled flow mem allocation (flow.read_buffer_size + length xs) true)) t;
  sized =
      subst (λ xs. IsSized (refilled flow mem allocation (flow.read_buffer_size + length xs) true))
        t v;
  appended =
      subst (λ xs. window mem 0 (flow.read_buffer_size + length xs) ≡ waiting flow ++ cells xs) t w;
}

-- A piece in front of a rest that is delivered.
continues :
    {flow : Flow} {bytes : List ℕ} {mem : Block} {allocation : ℕ} (r : ℕ) {run : Option Flow}
    → window mem 0 (flow.read_buffer_size + length (take r bytes))
      ≡ waiting flow ++ cells (take r bytes)
    → Delivered
        (refilled flow mem allocation (flow.read_buffer_size + length (take r bytes)) false)
        (drop r bytes)
        run
    → Delivered flow bytes run
continues {flow} {bytes} r w d =
    let t = length-take r bytes in
    let l = length-drop r bytes in
    let n : flow.read_buffer_size + length (take r bytes) + length (drop r bytes)
        ≡ flow.read_buffer_size + length bytes =
      omega (arith, t, l) in
    let c : cells (take r bytes) ++ cells (drop r bytes) ≡ cells bytes =
      sym (map-append some (take r bytes) (drop r bytes)) ∙ ap cells (take-append-drop r bytes) in
    record {
      mem = d.mem;
      allocation = d.allocation;
      over = d.over ∙ ap (λ n. some (refilled flow d.mem d.allocation n true)) n;
      sized = subst (λ n. IsSized (refilled flow d.mem d.allocation n true)) n d.sized;
      appended =
          ap (λ n. window d.mem 0 n) (sym n)
          ∙ d.appended
          ∙ ap (λ xs. xs ++ cells (drop r bytes)) w
          ∙ append_assoc (waiting flow) (cells (take r bytes)) (cells (drop r bytes))
          ∙ ap (λ xs. waiting flow ++ xs) c;
    }

pub deliver-Delivered :
    (limits : List ℕ) (flow : Flow) (bytes : List ℕ) (acceptance : Acceptance)
    → Expects flow
    → AllPositive limits
    → 0 < length bytes
    → length bytes ≤ length limits
    → Delivered flow bytes (deliver limits flow bytes acceptance)
unfolding deliver
deliver-Delivered [] flow bytes acceptance v p h f = absurd (omega arith)
deliver-Delivered (limit ∷ limits) flow bytes acceptance v (p, ps) h f =
    let a = io_readable-Advances flow limit bytes acceptance v p h in
    let t = length-take a.r bytes in
    let l = length-drop a.r bytes in
    elim (Bool-cases (leb (length bytes) a.r)) [
      | inl e ↦
          simp (a.returned, a.after, e, deliver)
            (finishes {flow = flow} a.r (take_all a.r bytes (ground arith))
              (record { recorded = a.sized.recorded; fits = a.sized.fits }) a.appended)
      | inr e ↦
          let n : flow.read_buffer_size + length (take a.r bytes) - flow.read_buffer_size ≡ a.r =
            ground (arith, t) in
          let s : IsSized (
              refilled flow a.mem a.allocation (flow.read_buffer_size + length (take a.r bytes))
                false) =
            record { recorded = a.sized.recorded; fits = a.sized.fits } in
          simp (a.returned, a.after, e, n, deliver)
            (continues {flow = flow} a.r a.appended (
              deliver-Delivered limits _ (drop a.r bytes) acceptance
                (record {
                  over_sctp = v.over_sctp;
                  known = v.known;
                  sized = s;
                  open_message = refl;
                  not_accepting = v.not_accepting;
                })
                ps (ground (arith, l)) (ground (arith, l, a.positive, f))))
    ]

take-append_self {ℓ} : {A : Type ℓ} (xs ys : List A) → take (length xs) (xs ++ ys) ≡ xs
take-append_self [] ys = refl
take-append_self (x ∷ xs) ys = ap (λ l. x ∷ l) (take-append_self xs ys)

-- A front as long as the whole is the whole.
whole_front {ℓ} :
    {A : Type ℓ} (xs ys : List A) {zs : List A} → xs ++ ys ≡ zs → length xs ≡ length zs → xs ≡ zs
whole_front xs ys {zs} e l =
    sym (take-append_self xs ys) ∙ ap (take (length xs)) e ∙ take_all (length xs) zs (omega arith)

-- A complete message that fits is read whole.
read_complete :
    {flow : Flow} {amt : ℕ} {run : Run Reading}
    → ReadsMessage flow amt run
    → flow.read_buffer_msg_complete ≡ true
    → flow.read_buffer_size ≤ amt
    → TakesMessage flow run
read_complete (incomplete e) c h = absurd cc
read_complete (too_big e g) c h = absurd (omega arith)
read_complete (whole run e g t) c h = t

pub read_waiting :
    (flow : Flow) (amt : ℕ) (optional : List ReadTag) (answer : Received)
    → IsReadable flow
    → is_webrtc flow.socket.stack ≡ false
    → is_message_stack (base_stack flow.socket.stack) ≡ true
    → flow.preserve_message_boundaries ≡ true
    → flow.read_buffer_msg_complete ≡ true
    → flow.read_buffer_size ≤ amt
    → (r : Reading) × (read_from_lower_layer flow amt optional answer ≡ done Code.ok r)
      × (r.bytes ≡ waiting flow)
read_waiting flow amt optional answer v w m p c h =
    let (r, e, t, z, c') =
      read_complete (read_from_lower_layer-boundaries flow amt optional answer v w m p) c h in
    let l = length-window flow.read_buffer 0 flow.read_buffer_size (omega (arith, v.within)) in
    (r, e, whole_front r.bytes _ t.in_order (omega (arith, t.count, l)))

-- On an SCTP flow that preserves message boundaries and has nothing buffered, the event loop's
-- calls of `io_readable` get a message that is not empty whole, however few of its bytes the
-- kernel has at hand at each call, if at least one, and however many of these there is room for;
-- one call for each byte of the message is enough. A read with a buffer that is large enough
-- then returns exactly its bytes. The reallocs succeed, and the receive buffer of the socket is
-- of unknown size or of at least 4 bytes.
pub deliver-read_from_lower_layer :
    (limits : List ℕ) (flow : Flow) (bytes : List ℕ) (acceptance : Acceptance) (amt : ℕ)
    (optional : List ReadTag) (answer : Received)
    → Expects flow
    → AllPositive limits
    → length bytes ≤ length limits
    → flow.preserve_message_boundaries ≡ true
    → flow.read_buffer_size ≡ 0
    → 0 < length bytes
    → length bytes ≤ amt
    → (after : Flow) × (r : Reading) × (deliver limits flow bytes acceptance ≡ some after)
      × (read_from_lower_layer after amt optional answer ≡ done Code.ok r)
      × (r.bytes ≡ cells bytes)
unfolding base_stack
deliver-read_from_lower_layer limits flow bytes acceptance amt optional answer v ps g p z h f =
    let d = deliver-Delivered limits flow bytes acceptance v ps h g in
    let after = refilled flow d.mem d.allocation (flow.read_buffer_size + length bytes) true in
    let w : is_webrtc flow.socket.stack ≡ false = simp (v.over_sctp) refl in
    let m : is_message_stack (base_stack flow.socket.stack) ≡ true = simp (v.over_sctp) refl in
    let (r, e, q) =
      read_waiting after amt optional answer
        (record {
          allocated = omega (arith, d.sized.recorded, d.sized.fits);
          within = omega (arith, d.sized.recorded, d.sized.fits);
        })
        w m p refl (omega (arith, z)) in
    (after, r, d.over, e, q ∙ d.appended ∙ ap (λ n. window flow.read_buffer 0 n ++ cells bytes) z)
