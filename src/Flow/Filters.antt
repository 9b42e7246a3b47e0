-- ===== src/Flow/Filters.antt =====
-- The filters between the application and the lower layer: insert_neat_iofilter, free_iofilters,
-- neat_write and neat_read with nt_recursive_filter_read (neat_core.c). S is what the functions of the
-- filters and of the lower layer see and change, the flow among it. The buffer of a read is the list
-- of the *actualAmt bytes in it.
pub mod Order
mod Examples
use neat.Base.{ℕ, Bool, true, false, List, [], ◌∷◌, ◌++◌, Option, none, some, if◌then◌else◌}
use neat.Flow.State.{Code, ok}

-- What a function that reads or filters leaves.
pub record Outcome (S : Type 0) : Type 0 where
  pub code : Code
  pub bytes : List ℕ
  pub state : S

-- `struct neat_iofilter`, with a name for its address.
pub record Filter (S : Type 0) : Type 0 where
  pub name : ℕ
  pub writefx : Option (List ℕ → S → Code × S)
  pub readfx : Option (List ℕ → S → Outcome S)
  pub has_dtor : Bool

-- What ends with a filter: its destructor is called, its memory is given back.
pub data End : Type 0 where
  destroyed freed : ℕ → End

abbrev pub is_ok : Code → Bool
is_ok ok = true
is_ok _ = false

module _ {S : Type 0} where
  -- A filter from calloc: it has no functions yet.
  abbrev pub blank : ℕ → Filter S
  blank name = record { name = name; writefx = none; readfx = none; has_dtor = false }

  -- `insert_neat_iofilter`; none if calloc fails.
  unfoldable pub insert_iofilter : Option ℕ → List (Filter S) → List (Filter S)
  insert_iofilter none iofilters = iofilters
  insert_iofilter (some name) iofilters = blank name ∷ iofilters

  abbrev pub end_of : Filter S → List End
  end_of filter =
      if filter.has_dtor
      then destroyed filter.name ∷ freed filter.name ∷ []
      else freed filter.name ∷ []

  -- `free_iofilters`.
  unfoldable pub free_iofilters : List (Filter S) → List End
  free_iofilters [] = []
  free_iofilters (filter ∷ filters) = free_iofilters filters ++ end_of filter

  -- `neat_write`: the first filter that can write, or the function of the flow.
  unfoldable pub write : (List ℕ → S → Code × S) → List (Filter S) → List ℕ → S → Code × S
  write writefx [] buffer state = writefx buffer state
  write writefx (filter ∷ filters) buffer state = elim filter.writefx [
    | none ↦ write writefx filters buffer state
    | some filter_writefx ↦ filter_writefx buffer state
  ]

  -- One filter on what was read, if it can read and there is something.
  unfoldable pub filtered : Filter S → List ℕ → S → Outcome S
  filtered filter [] state = record { code = ok; bytes = []; state = state }
  filtered filter (b ∷ bytes) state = elim filter.readfx [
    | none ↦ record { code = ok; bytes = b ∷ bytes; state = state }
    | some readfx ↦ readfx (b ∷ bytes) state
  ]

  -- Goes on after a function that gave NEAT_OK.
  abbrev pub then_filter : Filter S → Outcome S → Outcome S
  then_filter filter read = if is_ok read.code then filtered filter read.bytes read.state else read

  -- `nt_recursive_filter_read`.
  unfoldable pub recursive_filter_read : List (Filter S) → List ℕ → S → Outcome S
  recursive_filter_read [] bytes state = record { code = ok; bytes = bytes; state = state }
  recursive_filter_read (filter ∷ filters) bytes state =
      then_filter filter (recursive_filter_read filters bytes state)

  -- `neat_read`: readfx starts with *actualAmt at 0, so that it need not set it.
  unfoldable pub read : (S → Outcome S) → List (Filter S) → S → Outcome S
  read readfx iofilters state =
      let lower = readfx state in
      if is_ok lower.code then recursive_filter_read iofilters lower.bytes lower.state else lower
