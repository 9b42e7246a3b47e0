-- ===== src/EventCallbacks/Last.antt =====
-- Which callbacks an event calls.
use neat.Base.{
  ℕ, zero, suc, length-set, ◌+◌, ◌-◌, ◌<◌, ◌≤◌, ◌≡◌, ◌≢◌, refl, sym, ap, subst, ◌∙◌, Bool, true,
  false, ◌&&◌, Bool-cases, inl, inr, List, [], ◌∷◌, Option, none, some, Option-cases, arith, ltb,
  ◌==◌, length, if◌then◌else◌, set, get_or, replicate,
}
use neat.EventCallbacks.{
  max_event, EventCbs, contains, remove, created, insert, add_apart, in_other, entangles,
  add_event_cb, remove_event_cb, run_event_cb,
}

-- What the parts of the library ask for.
pub data Request : Type 0 where
  add : ℕ → ℕ → Request
  drop : ℕ → ℕ → Request

-- The callbacks after some requests, the latest first, if every allocation succeeds; none once the
-- lists are tied together.
abbrev pub after : List Request → Option EventCbs
after [] = some none
after (add event_type cb ∷ rs) = elim (after rs) [
  | none ↦ none
  | some cbs ↦ elim (add_event_cb true cbs event_type cb) [ none ↦ none | some r ↦ some (r.0) ]
]
after (drop event_type cb ∷ rs) = elim (after rs) [
  | none ↦ none
  | some cbs ↦ some ((remove_event_cb cbs event_type cb).0)
]

-- Each callback is added for one event only, its home.
abbrev pub AllHome : (ℕ → ℕ) → List Request → Type 0
AllHome home [] = Unit
AllHome home (add event_type cb ∷ rs) = (home cb ≡ event_type) × AllHome home rs
AllHome home (drop event_type cb ∷ rs) = AllHome home rs

-- The callbacks while the lists are separate.
abbrev apart : List Request → EventCbs
apart [] = none
apart (add event_type cb ∷ rs) = (add_apart true (apart rs) event_type cb).0
apart (drop event_type cb ∷ rs) = (remove_event_cb (apart rs) event_type cb).0

-- Whether the latest request about an event and a callback adds it.
abbrev pub is_added : List Request → ℕ → ℕ → Bool
is_added [] event_type cb = false
is_added (add e c ∷ rs) event_type cb =
    if (e == event_type) && (c == cb) then true else is_added rs event_type cb
is_added (drop e c ∷ rs) event_type cb =
    if (e == event_type) && (c == cb) then false else is_added rs event_type cb

abbrev pub count : ℕ → List ℕ → ℕ
count cb [] = 0
count cb (c ∷ cs) = (if c == cb then 1 else 0) + count cb cs

abbrev pub as_number : Bool → ℕ
as_number b = if b then 1 else 0

contains-count : (cbs : List ℕ) (cb : ℕ) → contains cbs cb ≡ ltb 0 (count cb cbs)
contains-count [] cb = refl
contains-count (c ∷ cs) cb = ground (arith, contains-count cs cb)

count-remove_other :
    (cbs : List ℕ) (c cb : ℕ) → (c == cb) ≡ false → count cb (remove cbs c) ≡ count cb cbs
unfolding remove
count-remove_other [] c cb e = refl
count-remove_other (x ∷ xs) c cb e = ground (arith, count-remove_other xs c cb)

count-remove_self : (cbs : List ℕ) (cb : ℕ) → count cb (remove cbs cb) ≡ count cb cbs - 1
unfolding remove
count-remove_self [] cb = refl
count-remove_self (x ∷ xs) cb = ground (arith, count-remove_self xs cb)

module _ {ℓ} {A : Type ℓ} where
  get_or-set_self : (xs : List A) (i : ℕ) (v d : A) → i < length xs → get_or (set xs i v) i d ≡ v
  get_or-set_self [] i v d l = absurd (omega (arith, l))
  get_or-set_self (x ∷ xs) zero v d l = refl
  get_or-set_self (x ∷ xs) (suc i) v d l = get_or-set_self xs i v d (omega (arith, l))

  get_or-set_other :
      (xs : List A) (i j : ℕ) (v d : A) → (i == j) ≡ false → get_or (set xs i v) j d ≡ get_or xs j d
  get_or-set_other [] i j v d e = refl
  get_or-set_other (x ∷ xs) zero zero v d e =
      absurd (let f : ◌≢◌ {A = ℕ} 0 0 = ground (arith, e) in f refl)
  get_or-set_other (x ∷ xs) zero (suc j) v d e = refl
  get_or-set_other (x ∷ xs) (suc i) zero v d e = refl
  get_or-set_other (x ∷ xs) (suc i) (suc j) v d e = get_or-set_other xs i j v d (ground (arith, e))

-- The array has a list for each event.
abbrev IsTable : EventCbs → Type 0
IsTable none = Unit
IsTable (some lists) = length lists ≡ max_event + 1

-- The list of an event after a list was set.
listed_set :
    (lists : List (List ℕ)) (e' e : ℕ) (cbs : List ℕ)
    → e' < length lists
    → get_or (set lists e' cbs) e [] ≡ (if e' == e then cbs else get_or lists e [])
listed_set lists e' e cbs l = elim (Bool-cases (e' == e)) [
  | inl same ↦
      let s : e' ≡ e = ground (arith, same) in
      rw same
        (subst (λ i. get_or (set lists e' cbs) i [] ≡ cbs) s (get_or-set_self lists e' cbs [] l))
  | inr other ↦ rw other (get_or-set_other lists e' e cbs [] other)
]

-- How often a callback is called for an event after another was added or removed.
module _ (lists : List (List ℕ)) (e' e c cb : ℕ) (n : length lists ≡ max_event + 1) where
  count-insert :
      e' ≤ max_event
      → count cb (get_or lists e []) ≤ 1
      → (next : List (List ℕ)) × ((insert lists e' c).0 ≡ some next)
        × (length next ≡ max_event + 1)
        × (count cb (get_or next e [])
            ≡ (if (e' == e) && (c == cb) then 1 else count cb (get_or lists e [])))
  unfolding insert
  count-insert l o =
      let inside : e' < length lists = omega (arith, n, l) in
      elim (Bool-cases (contains (get_or lists e' []) c)) [
        | inl there ↦
            (lists, rw there, n, ground (arith, contains-count (get_or lists e' []) c, there, o))
        | inr new ↦ (
          set lists e' (c ∷ get_or lists e' []),
          rw new,
          length-set lists e' _ ∙ n,
          ground (
            arith,
            contains-count (get_or lists e' []) c,
            new,
            o,
            listed_set lists e' e (c ∷ get_or lists e' []) inside,
          ),
        )
      ]

  count-drop :
      e' ≤ max_event
      → count cb (get_or lists e []) ≤ 1
      → count cb (get_or (set lists e' (remove (get_or lists e' []) c)) e [])
        ≡ (if (e' == e) && (c == cb) then 0 else count cb (get_or lists e []))
  count-drop l o =
      let inside : e' < length lists = omega (arith, n, l) in
      let other : (c == cb) ≡ false
          → count cb (remove (get_or lists e' []) c) ≡ count cb (get_or lists e' []) =
        count-remove_other (get_or lists e' []) c cb in
      elim (Bool-cases (c == cb)) [
        | inl same ↦
            let s : c ≡ cb = ground (arith, same) in
            let r : count cb (remove (get_or lists e' []) c) ≡ count cb (get_or lists e' []) - 1 =
              subst
                (λ x. count cb (remove (get_or lists e' []) x) ≡ count cb (get_or lists e' []) - 1)
                (sym s) (count-remove_self (get_or lists e' []) cb) in
            ground (arith, same, r, o, listed_set lists e' e (remove (get_or lists e' []) c) inside)
        | inr new ↦
            let r = count-remove_other (get_or lists e' []) c cb new in
            ground (arith, new, r, o, listed_set lists e' e (remove (get_or lists e' []) c) inside)
      ]

-- What holds of the callbacks when b says whether the latest request added the callback.
abbrev Follows : EventCbs → ℕ → ℕ → Bool → Type 0
Follows cbs e cb b = IsTable cbs × (count cb (run_event_cb cbs e) ≡ as_number b)

listed :
    (lists : List (List ℕ)) (e : ℕ)
    → e ≤ max_event
    → run_event_cb (some lists) e ≡ get_or lists e []
unfolding run_event_cb
listed lists e l = ground (arith, l)

fresh : (e cb : ℕ) → count cb (get_or (replicate (max_event + 1) []) e []) ≡ 0
fresh zero cb = refl
fresh (suc zero) cb = refl
fresh (suc (suc zero)) cb = refl
fresh (suc (suc (suc e))) cb = refl

module _ (e' c e cb : ℕ) (b : Bool) (l : e ≤ max_event) where
  insert-Follows :
      (lists : List (List ℕ))
      → length lists ≡ max_event + 1
      → count cb (get_or lists e []) ≡ as_number b
      → e' ≤ max_event
      → Follows (insert lists e' c).0 e cb (if (e' == e) && (c == cb) then true else b)
  insert-Follows lists n k l' =
      let o : count cb (get_or lists e []) ≤ 1 = ground (arith, k) in
      let (next, f, m, q) = count-insert lists e' e c cb n l' o in
      rw (f, listed next e l) (m, ground (arith, q, k))

  add-Follows :
      (cbs : EventCbs)
      → Follows cbs e cb b
      → Follows (add_apart true cbs e' c).0 e cb (if (e' == e) && (c == cb) then true else b)
  unfolding add_apart created run_event_cb
  add-Follows none (t, k) = elim (Bool-cases (ltb max_event e')) [
    | inl far ↦ simp (far) (tt, ground (arith, far, l, k))
    | inr near ↦
        simp (near) (
          insert-Follows (replicate (max_event + 1) []) refl (fresh e cb ∙ k)
            (ground (arith, near)))
  ]
  add-Follows (some lists) (t, k) = elim (Bool-cases (ltb max_event e')) [
    | inl far ↦ simp (far) (t, ground (arith, far, l, k))
    | inr near ↦
        simp (near) (
          insert-Follows lists t (ap (count cb) (sym (listed lists e l)) ∙ k)
            (ground (arith, near)))
  ]

  drop-Follows :
      (cbs : EventCbs)
      → Follows cbs e cb b
      → Follows (remove_event_cb cbs e' c).0 e cb (if (e' == e) && (c == cb) then false else b)
  unfolding remove_event_cb run_event_cb
  drop-Follows none (t, k) = (tt, ground (arith, k))
  drop-Follows (some lists) (t, k) = elim (Bool-cases (ltb max_event e')) [
    | inl far ↦ simp (far) (t, ground (arith, far, l, k))
    | inr near ↦
        let h : count cb (get_or lists e []) ≡ as_number b =
          ap (count cb) (sym (listed lists e l)) ∙ k in
        let o : count cb (get_or lists e []) ≤ 1 = ground (arith, h) in
        let q = count-drop lists e' e c cb t (ground (arith, near)) o in
        simp (near) (
          length-set lists e' _ ∙ t,
          ap (count cb) (listed (set lists e' (remove (get_or lists e' []) c)) e l)
              ∙ ground (arith, q, h),
        )
  ]

Follows-apart :
    (rs : List Request) (e cb : ℕ) → e ≤ max_event → Follows (apart rs) e cb (is_added rs e cb)
unfolding run_event_cb
Follows-apart [] e cb l = (tt, refl)
Follows-apart (add e' c ∷ rs) e cb l =
    add-Follows e' c e cb (is_added rs e cb) l (apart rs) (Follows-apart rs e cb l)
Follows-apart (drop e' c ∷ rs) e cb l =
    drop-Follows e' c e cb (is_added rs e cb) l (apart rs) (Follows-apart rs e cb l)

home_event :
    (home : ℕ → ℕ) (rs : List Request) (e cb : ℕ)
    → AllHome home rs
    → (home cb == e) ≡ false
    → is_added rs e cb ≡ false
home_event home [] e cb h n = refl
home_event home (add e' c ∷ rs) e cb (q, h) n =
    let i = home_event home rs e cb h n in
    elim (Bool-cases (c == cb)) [
      | inl s ↦
          let t : home cb ≡ e' = ap home (let u : cb ≡ c = ground (arith, s) in u) ∙ q in
          let d : (e' == e) ≡ false = ground (arith, t, n) in simp d i
      | inr s ↦ ground (arith, s, i)
    ]
home_event home (drop e' c ∷ rs) e cb h n = let i = home_event home rs e cb h n in ground (arith, i)

-- The requests for other events do not tie the lists together.
apart_other :
    (home : ℕ → ℕ) (rs : List Request) (lists : List (List ℕ)) (e cb i : ℕ)
    → AllHome home rs
    → home cb ≡ e
    → apart rs ≡ some lists
    → i ≤ max_event
    → in_other lists e cb i ≡ false
apart_other home rs lists e cb i h q a l = elim (Bool-cases (i == e)) [
  | inl s ↦ simp s refl
  | inr s ↦
      let n : (home cb == i) ≡ false = ground (arith, s, q) in
      let k =
        ap (count cb) (sym (listed lists i l))
        ∙ ap (λ c. count cb (run_event_cb c i)) (sym a)
        ∙ (Follows-apart rs i cb l).1
        ∙ ap as_number (home_event home rs i cb h n) in
      ground (arith, contains-count (get_or lists i []) cb, k)
]

apart_separate :
    (home : ℕ → ℕ) (rs : List Request) (e cb : ℕ)
    → AllHome home rs
    → home cb ≡ e
    → entangles (apart rs) e cb ≡ false
unfolding entangles
apart_separate home rs e cb h q = elim (Option-cases (apart rs)) [
  | inl a ↦ simp (a, entangles) refl
  | inr (lists, a) ↦
      let others : (i : ℕ) → i ≤ max_event → in_other lists e cb i ≡ false =
        λ i l. apart_other home rs lists e cb i h q a l in
      let x = others 0 (omega arith) in
      let y = others 1 (omega arith) in
      let z = others 2 (omega arith) in simp (a, entangles) (ground (arith, x, y, z))
]

after-apart : (home : ℕ → ℕ) (rs : List Request) → AllHome home rs → after rs ≡ some (apart rs)
unfolding add_event_cb
after-apart home [] h = refl
after-apart home (add e c ∷ rs) (q, h) =
    simp (after-apart home rs h, apart_separate home rs e c h q, add_event_cb) refl
after-apart home (drop e c ∷ rs) h = simp (after-apart home rs h) refl

-- After any requests that add each callback for one event only, its home, if every allocation
-- succeeds, the lists are separate, and an event calls a callback once if the latest request
-- about that event and that callback added it, and otherwise not at all.
pub run_event_cb-is_added :
    (home : ℕ → ℕ) (rs : List Request) (e cb : ℕ)
    → AllHome home rs
    → e ≤ max_event
    → (cbs : EventCbs) × (after rs ≡ some cbs)
      × (count cb (run_event_cb cbs e) ≡ as_number (is_added rs e cb))
run_event_cb-is_added home rs e cb h l =
    (apart rs, after-apart home rs h, (Follows-apart rs e cb l).1)
