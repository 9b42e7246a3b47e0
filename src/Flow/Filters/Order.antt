-- ===== src/Flow/Filters/Order.antt =====
-- The order in which the filters see what is read.
use neat.Base.{
  ℕ, ◌≡◌, refl, sym, ap, ◌∙◌, true, false, Bool-cases, inl, inr, List, [], ◌∷◌, ◌++◌, append-nil,
  append_assoc, subst, some, none, ◌==◌, arith, if◌then◌else◌, Option-cases,
}
use mathlib.Core.List.{reverse, reverse-cons, reverse-reverse}
use neat.Flow.State.{Code, ok}
use neat.Flow.Filters.{
  Outcome, Filter, End, is_ok, insert_iofilter, end_of, filtered, free_iofilters, then_filter,
  recursive_filter_read, read,
}

is_ok→≡ : (code : Code) → is_ok code ≡ true → code ≡ ok
is_ok→≡ ok e = refl
is_ok→≡ Code.would_block e = absurd cc
is_ok→≡ Code.bad_argument e = absurd cc
is_ok→≡ Code.io e = absurd cc
is_ok→≡ Code.dns e = absurd cc
is_ok→≡ Code.internal e = absurd cc
is_ok→≡ Code.security e = absurd cc
is_ok→≡ Code.unable e = absurd cc
is_ok→≡ Code.message_too_big e = absurd cc
is_ok→≡ Code.remote e = absurd cc
is_ok→≡ Code.out_of_memory e = absurd cc

not_ok : {code : Code} → is_ok code ≡ false → ¬ (code ≡ ok)
not_ok e h = absurd (let z = sym (ap is_ok h) ∙ e in cc)

module _ {S : Type 0} where
  -- The functions that the application gives to the filter that was just inserted.
  abbrev pub configured : Filter S → List (Filter S) → List (Filter S)
  configured filter [] = []
  configured filter (f ∷ fs) =
      if f.name == filter.name then filter ∷ fs else f ∷ configured filter fs

  -- The filters of a flow after some were inserted, each calloc giving another address.
  abbrev pub inserted : List (Filter S) → List (Filter S) → List (Filter S)
  inserted iofilters [] = iofilters
  inserted iofilters (filter ∷ filters) =
      inserted (configured filter (insert_iofilter (some filter.name) iofilters)) filters

  -- What was read passes the filters one after the other.
  pub data Passes : List (Filter S) → Outcome S → Outcome S → Type 0 where
    through : {r : Outcome S} → Passes [] r r
    -- A filter runs on what the one before left, if that gave NEAT_OK.
    runs :
        {f : Filter S} {fs : List (Filter S)} {r last : Outcome S} (readfx : List ℕ → S → Outcome S)
        → r.code ≡ ok
        → ¬ (r.bytes ≡ [])
        → f.readfx ≡ some readfx
        → Passes fs (readfx r.bytes r.state) last
        → Passes (f ∷ fs) r last
    -- A filter that cannot read is passed over.
    cannot_read :
        {f : Filter S} {fs : List (Filter S)} {r last : Outcome S}
        → f.readfx ≡ none
        → Passes fs r last
        → Passes (f ∷ fs) r last
    -- So is one for which nothing is left.
    nothing_left :
        {f : Filter S} {fs : List (Filter S)} {r last : Outcome S}
        → r.bytes ≡ []
        → Passes fs r last
        → Passes (f ∷ fs) r last
    -- Another code goes to the application as it is.
    stops : {fs : List (Filter S)} {r : Outcome S} → ¬ (r.code ≡ ok) → Passes fs r r

  insert-configured :
      (filter : Filter S) (iofilters : List (Filter S))
      → configured filter (insert_iofilter (some filter.name) iofilters) ≡ filter ∷ iofilters
  unfolding insert_iofilter
  insert-configured filter iofilters = ground arith

  inserted-reverse :
      (filters iofilters : List (Filter S))
      → inserted iofilters filters ≡ reverse filters ++ iofilters
  inserted-reverse [] iofilters = refl
  inserted-reverse (f ∷ fs) iofilters =
      ap (λ l. inserted l fs) (insert-configured f iofilters)
      ∙ inserted-reverse fs (f ∷ iofilters)
      ∙ sym (append_assoc (reverse fs) (f ∷ []) iofilters)
      ∙ ap (λ l. l ++ iofilters) (sym (reverse-cons f fs))

  filtered-Passes :
      (f : Filter S) (bytes : List ℕ) (s : S)
      → Passes (f ∷ []) (record { code = ok; bytes = bytes; state = s }) (filtered f bytes s)
  unfolding filtered
  filtered-Passes f [] s = nothing_left refl through
  filtered-Passes f (b ∷ bytes) s = elim (Option-cases f.readfx) [
    | inl n ↦ simp (n, filtered) (cannot_read n through)
    | inr (readfx, n) ↦ simp (n, filtered) (runs readfx refl (λ e. absurd cc) n through)
  ]

  then_filter_one : (f : Filter S) (r : Outcome S) → Passes (f ∷ []) r (then_filter f r)
  then_filter_one f r = elim (Bool-cases (is_ok r.code)) [
    | inl e ↦ simp e (
        subst
          (λ c.
            Passes (f ∷ []) (record { code = c; bytes = r.bytes; state = r.state })
              (filtered f r.bytes r.state))
          (sym (is_ok→≡ r.code e)) (filtered-Passes f r.bytes r.state))
    | inr e ↦ simp e (stops (not_ok e))
  ]

  -- A filter at the end runs on what all before it left.
  then_filter-Passes :
      {fs : List (Filter S)} (f : Filter S) {r last : Outcome S}
      → Passes fs r last
      → Passes (fs ++ f ∷ []) r (then_filter f last)
  then_filter-Passes f {r} through = then_filter_one f r
  then_filter-Passes f (runs readfx c b e p) = runs readfx c b e (then_filter-Passes f p)
  then_filter-Passes f (cannot_read e p) = cannot_read e (then_filter-Passes f p)
  then_filter-Passes f (nothing_left e p) = nothing_left e (then_filter-Passes f p)
  then_filter-Passes f {r} (stops c) = elim (Bool-cases (is_ok r.code)) [
    | inl e ↦ absurd (c (is_ok→≡ r.code e))
    | inr e ↦ simp e (stops c)
  ]

  recursive-Passes :
      (fs : List (Filter S)) (bytes : List ℕ) (s : S)
      → Passes
          (reverse fs)
          (record { code = ok; bytes = bytes; state = s })
          (recursive_filter_read fs bytes s)
  unfolding recursive_filter_read
  recursive-Passes [] bytes s = through
  recursive-Passes (f ∷ fs) bytes s =
      subst
        (λ l.
          Passes l (record { code = ok; bytes = bytes; state = s })
            (then_filter f (recursive_filter_read fs bytes s)))
        (sym (reverse-cons f fs)) (then_filter-Passes f (recursive-Passes fs bytes s))

  -- A read through the filters that the application has inserted is that of the lower layer,
  -- followed by the filters in the order of their insertion: each runs on what the one before
  -- left, if that gave NEAT_OK, and is passed over if it has no readfx or nothing is left to
  -- filter; what is returned with another code reaches the application as it is.
  pub read-Passes :
      (readfx : S → Outcome S) (filters : List (Filter S)) (s : S)
      → Passes filters (readfx s) (read readfx (inserted [] filters) s)
  unfolding read
  read-Passes readfx filters s =
      let all = inserted-reverse filters [] ∙ append-nil (reverse filters) in
      elim (Bool-cases (is_ok (readfx s).code)) [
        | inl e ↦
            simp (e, all)
              (subst
                (λ l.
                  Passes l (readfx s)
                    (recursive_filter_read (reverse filters) (readfx s).bytes (readfx s).state))
                (reverse-reverse filters)
                (subst
                  (λ c.
                    Passes (reverse (reverse filters))
                      (record { code = c; bytes = (readfx s).bytes; state = (readfx s).state })
                      (recursive_filter_read (reverse filters) (readfx s).bytes (readfx s).state))
                  (sym (is_ok→≡ (readfx s).code e))
                  (recursive-Passes (reverse filters) (readfx s).bytes (readfx s).state)))
        | inr e ↦ simp e (stops (not_ok e))
      ]

  -- What ends with all filters, from the one that was inserted first.
  abbrev pub ends : List (Filter S) → List End
  ends [] = []
  ends (f ∷ fs) = end_of f ++ ends fs

  ends-append : (fs gs : List (Filter S)) → ends (fs ++ gs) ≡ ends fs ++ ends gs
  ends-append [] gs = refl
  ends-append (f ∷ fs) gs = simp (ends-append fs gs, append_assoc)

  -- The filters end in the order in which they were inserted, each once.
  free_iofilters-ends : (fs : List (Filter S)) → free_iofilters fs ≡ ends (reverse fs)
  unfolding free_iofilters
  free_iofilters-ends [] = refl
  free_iofilters-ends (f ∷ fs) =
      ap (λ es. es ++ end_of f) (free_iofilters-ends fs)
      ∙ ap (λ es. ends (reverse fs) ++ es) (sym (append-nil (end_of f)))
      ∙ sym (ends-append (reverse fs) (f ∷ []))
      ∙ ap ends (sym (reverse-cons f fs))
