-- ===== src/Ipc/Pieces.antt =====
-- A reply that arrives in pieces.
use neat.Base.{
  ℕ, ◌≡◌, refl, ap, sym, subst, ◌∙◌, Bool, true, false, Bool-cases, inl, inr, List, [], ◌∷◌, ◌++◌,
  append-nil, append_assoc, Option, ◌==◌, if◌then◌else◌, arith,
}
use neat.Ipc.{
  Context, bytes, is_open, is_close, is_space, nested, Scan, load, scan_byte, scan, conclude,
  started, unix_json_read, read_all,
}

-- The text whose last byte closes the last bracket, and no byte in front of it does.
abbrev pub IsMessage : ℕ → List ℕ → Type 0
IsMessage count [] = ⊥
IsMessage count (c ∷ []) = (is_space c ≡ false) × ((nested count c == 0) ≡ true)
IsMessage count (c ∷ d ∷ text) =
    ((nested count c == 0) ≡ false) × IsMessage (nested count c) (d ∷ text)

abbrev pub IsFilled : List ℕ → Type 0
IsFilled [] = ⊥
IsFilled (c ∷ text) = Unit

abbrev pub joined : List (List ℕ) → List ℕ
joined [] = []
joined (piece ∷ pieces) = piece ++ joined pieces

abbrev advance : ℕ → List ℕ → ℕ
advance count [] = count
advance count (c ∷ text) = advance (nested count c) text

IsMessage-cons :
    (count c : ℕ) (text : List ℕ)
    → IsFilled text
    → IsMessage count (c ∷ text)
    → ((nested count c == 0) ≡ false) × IsMessage (nested count c) text
IsMessage-cons count c [] f m = absurd f
IsMessage-cons count c (d ∷ text) f m = m

IsFilled-append : (piece text : List ℕ) → IsFilled text → IsFilled (piece ++ text)
IsFilled-append [] text f = f
IsFilled-append (c ∷ piece) text f = tt

nested_space : (count c : ℕ) → is_space c ≡ true → nested count c ≡ count
nested_space count c e =
    let o : is_open c ≡ false = ground (arith, e) in
    let l : is_close c ≡ false = ground (arith, e) in simp (o, l) refl

-- In front of the end of a message the state of the brackets changes.
IsMessage-advance :
    (count : ℕ) (piece text : List ℕ)
    → IsFilled text
    → IsMessage count (piece ++ text)
    → IsMessage (advance count piece) text
IsMessage-advance count [] text f m = m
IsMessage-advance count (c ∷ piece) text f m =
    IsMessage-advance (nested count c) piece text f
      (IsMessage-cons count c (piece ++ text) (IsFilled-append piece text f) m).1

advance_open :
    (count : ℕ) (piece text : List ℕ)
    → IsFilled text
    → (count == 0) ≡ false
    → IsMessage count (piece ++ text)
    → (advance count piece == 0) ≡ false
advance_open count [] text f o m = o
advance_open count (c ∷ piece) text f o m =
    let (n, i) = IsMessage-cons count c (piece ++ text) (IsFilled-append piece text f) m in
    advance_open (nested count c) piece text f n i

module _ {Json : Type 0} (json_loadb : List ℕ → Option Json) where
  scan_byte_inside :
      (wanted : Bool) (s : Scan Json) (c : ℕ)
      → (nested s.count c == 0) ≡ false
      → scan_byte json_loadb wanted s c
        ≡ record s { count = nested s.count c; held = s.held ++ c ∷ [] }
  unfolding scan_byte
  scan_byte_inside wanted s c e = elim (Bool-cases (is_space c)) [
    | inl b ↦ simp (b, nested_space s.count c b) refl
    | inr b ↦ simp (b, e) refl
  ]

  scan_inside :
      (wanted : Bool) (s : Scan Json) (piece text : List ℕ)
      → IsFilled text
      → IsMessage s.count (piece ++ text)
      → scan json_loadb wanted s piece
        ≡ record s { count = advance s.count piece; held = s.held ++ piece }
  unfolding scan
  scan_inside wanted s [] text f m = ap (λ h. record s { held = h }) (sym (append-nil s.held))
  scan_inside wanted s (c ∷ piece) text f m =
      let (n, i) = IsMessage-cons s.count c (piece ++ text) (IsFilled-append piece text f) m in
      let next : Scan Json = record s { count = nested s.count c; held = s.held ++ c ∷ [] } in
      ap (λ x. scan json_loadb wanted x piece) (scan_byte_inside wanted s c n)
      ∙ scan_inside wanted next piece text f i
      ∙ ap (λ h. record s { count = advance s.count (c ∷ piece); held = h })
          (append_assoc s.held (c ∷ []) piece)

  -- The last byte of a message hands it on.
  abbrev Delivered : Bool → Scan Json → List ℕ → Scan Json → Type 0
  Delivered wanted s text after =
      ((after.count == 0) ≡ true) × (after.log ≡ s.log ++ load json_loadb wanted (s.held ++ text))

  scan-Delivered :
      (wanted : Bool) (s : Scan Json) (text : List ℕ)
      → IsMessage s.count text
      → Delivered wanted s text (scan json_loadb wanted s text)
  unfolding scan scan_byte
  scan-Delivered wanted s [] m = absurd m
  scan-Delivered wanted s (c ∷ []) (b, e) = simp (b, e) (refl, refl)
  scan-Delivered wanted s (c ∷ d ∷ text) (n, m) =
      let next : Scan Json = record s { count = nested s.count c; held = s.held ++ c ∷ [] } in
      let (a, b) = scan-Delivered wanted next (d ∷ text) m in
      subst (λ x. Delivered wanted s (c ∷ d ∷ text) (scan json_loadb wanted x (d ∷ text)))
        (sym (scan_byte_inside wanted s c n))
        (
          a,
          b ∙ ap (λ h. s.log ++ load json_loadb wanted h) (append_assoc s.held (c ∷ []) (d ∷ text)),
        )

  kept :
      (context : Context) (piece text : List ℕ)
      → IsFilled text
      → ((context.json_nesting_count == 0) ≡ true → context.read_buffer ≡ [])
      → IsMessage context.json_nesting_count (piece ++ text)
      → (if advance context.json_nesting_count piece == 0 then [] else context.read_buffer ++ piece)
        ≡ context.read_buffer ++ piece
  kept context [] text f inv m = elim (Bool-cases (context.json_nesting_count == 0)) [
    | inl e ↦ simp e (ap (λ b. b ++ []) (sym (inv e)))
    | inr e ↦ simp e refl
  ]
  kept context (c ∷ piece) text f inv m =
      let count = context.json_nesting_count in
      let (n, i) = IsMessage-cons count c (piece ++ text) (IsFilled-append piece text f) m in
      let o = advance_open (nested count c) piece text f n i in simp o refl

  abbrev later : Context → List ℕ → Context
  later context piece = record {
    read_buffer = context.read_buffer ++ piece;
    json_nesting_count = advance context.json_nesting_count piece;
  }

  later_empty :
      (context : Context) (piece text : List ℕ)
      → IsFilled text
      → ((context.json_nesting_count == 0) ≡ true → context.read_buffer ≡ [])
      → IsMessage context.json_nesting_count (piece ++ text)
      → (advance context.json_nesting_count piece == 0) ≡ true
      → context.read_buffer ++ piece ≡ []
  later_empty context piece text f inv m e =
      sym (kept context piece text f inv m)
      ∙ ap (λ b. if b then [] else context.read_buffer ++ piece) e

  -- A piece of a message is kept behind what is there.
  read_inside :
      (wanted : Bool) (context : Context) (piece text : List ℕ)
      → IsFilled text
      → ((context.json_nesting_count == 0) ≡ true → context.read_buffer ≡ [])
      → IsMessage context.json_nesting_count (piece ++ text)
      → unix_json_read json_loadb wanted context (bytes true piece) ≡ (later context piece, [])
  unfolding unix_json_read conclude
  read_inside wanted context piece text f inv m =
      let k = kept context piece text f inv m in
      ap (λ x. (conclude json_loadb x, x.log))
        (scan_inside wanted (started json_loadb context) piece text f m)
      ∙ ap (λ h. (record (later context piece) { read_buffer = h }, [])) k

  conclude_closed :
      (s : Scan Json)
      → (s.count == 0) ≡ true
      → conclude json_loadb s ≡ record { read_buffer = []; json_nesting_count = 0 }
  unfolding conclude
  conclude_closed s e =
      let z : s.count ≡ 0 = ground (arith, e) in
      simp e (ap (λ n. record { read_buffer = []; json_nesting_count = n }) z)

  read_last :
      (wanted : Bool) (context : Context) (text : List ℕ)
      → IsMessage context.json_nesting_count text
      → unix_json_read json_loadb wanted context (bytes true text) ≡ (
        record { read_buffer = []; json_nesting_count = 0 },
        load json_loadb wanted (context.read_buffer ++ text),
      )
  unfolding unix_json_read
  read_last wanted context text m =
      let (a, b) = scan-Delivered wanted (started json_loadb context) text m in
      let c = conclude_closed (scan json_loadb wanted (started json_loadb context) text) a in
      λ k. (c k, b k)

  abbrev empty_context : Context
  empty_context = record { read_buffer = []; json_nesting_count = 0 }

  read_pieces :
      (wanted : Bool) (context : Context) (pieces : List (List ℕ)) (last : List ℕ)
      → IsFilled last
      → ((context.json_nesting_count == 0) ≡ true → context.read_buffer ≡ [])
      → IsMessage context.json_nesting_count (joined pieces ++ last)
      → read_all json_loadb wanted context (pieces ++ last ∷ [])
        ≡ (empty_context, load json_loadb wanted (context.read_buffer ++ (joined pieces ++ last)))
  unfolding read_all
  read_pieces wanted context [] last f inv m =
      let text = context.read_buffer ++ last in
      ap (λ r. (r.0, r.1 ++ [])) (read_last wanted context last m)
      ∙ ap (λ l. (empty_context, l)) (append-nil (load json_loadb wanted text))
  read_pieces wanted context (piece ∷ pieces) last f inv m =
      let text = joined pieces ++ last in
      let filled = IsFilled-append (joined pieces) last f in
      let inside =
        subst (IsMessage context.json_nesting_count) (append_assoc piece (joined pieces) last) m in
      let rest =
        read_pieces wanted (later context piece) pieces last f
          (later_empty context piece text filled inv inside)
          (IsMessage-advance context.json_nesting_count piece text filled inside) in
      let follow = λ (r : Context). read_all json_loadb wanted r (pieces ++ last ∷ []) in
      ap (λ r. ((follow r.0).0, r.1 ++ (follow r.0).1))
        (read_inside wanted context piece text filled inv inside)
      ∙ rest
      ∙ ap (λ t. (empty_context, load json_loadb wanted t))
          (append_assoc context.read_buffer piece text
            ∙ ap (λ t. context.read_buffer ++ t) (sym (append_assoc piece (joined pieces) last)))

  -- A reply whose last byte, and no byte in front of it, closes the last of its brackets is
  -- handed to json_loadb once and whole, however it was cut into pieces of which the last is
  -- not empty; then nothing is buffered and no bracket is open. The reallocs succeed.
  pub read_all-load :
      (wanted : Bool) (pieces : List (List ℕ)) (last : List ℕ)
      → IsFilled last
      → IsMessage 0 (joined pieces ++ last)
      → read_all json_loadb wanted
          (record { read_buffer = []; json_nesting_count = 0 })
          (pieces ++ last ∷ [])
        ≡ (
          record { read_buffer = []; json_nesting_count = 0 },
          load json_loadb wanted (joined pieces ++ last),
        )
  read_all-load wanted pieces last f m =
      read_pieces wanted (record { read_buffer = []; json_nesting_count = 0 }) pieces last f
        (λ e. refl) m
