-- ===== src/Flow/Filters/Examples.antt =====
-- Two filters to read through.
use neat.Base.{ℕ, ◌+◌, false, [], ◌∷◌, none, some, map}
use neat.Flow.State.{ok}
use neat.Flow.Filters.{Outcome, Filter, read}
use neat.Flow.Filters.Order.{inserted, Passes, read-Passes}

-- A filter that adds to each byte, and counts its calls in the state.
abbrev adding : ℕ → Filter ℕ
adding n = record {
  name = n;
  writefx = none;
  readfx =
      some λ bytes calls. record { code = ok; bytes = map (λ b. b + n) bytes; state = calls + 1 };
  has_dtor = false;
}

-- A lower layer that has two bytes.
abbrev two_bytes : ℕ → Outcome ℕ
two_bytes calls = record { code = ok; bytes = 1 ∷ 2 ∷ []; state = calls }

-- The filter that adds 5 was inserted first.
read-Passes_example :
    Passes
      (adding 5 ∷ adding 3 ∷ [])
      (two_bytes 0)
      (read two_bytes (inserted [] (adding 5 ∷ adding 3 ∷ [])) 0)
read-Passes_example = read-Passes two_bytes (adding 5 ∷ adding 3 ∷ []) 0
