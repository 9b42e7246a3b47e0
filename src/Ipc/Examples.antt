-- ===== src/Ipc/Examples.antt =====
-- Replies to run the reading on.
use neat.Base.{ℕ, List, [], ◌∷◌, Option, none, some, true, ◌≡◌, refl, ◌==◌, if◌then◌else◌}
use neat.Ipc.{
  Context, on_reply, on_error, invalid_json, load, scan_byte, scan, conclude, bytes, unix_json_read,
  read_all,
}
use neat.Ipc.Pieces.{read_all-load}

-- A JSON value is its text, if that starts with a bracket.
abbrev loads : List ℕ → Option (List ℕ)
loads [] = none
loads (c ∷ text) = if c == 123 then some (c ∷ text) else none

abbrev nothing_read : Context
nothing_read = record { read_buffer = []; json_nesting_count = 0 }

-- The text {1{}} in three pieces.
read_all-load_example :
    read_all loads true nothing_read ((123 ∷ 49 ∷ []) ∷ (123 ∷ []) ∷ (125 ∷ 125 ∷ []) ∷ [])
    ≡ (nothing_read, load loads true (123 ∷ 49 ∷ 123 ∷ 125 ∷ 125 ∷ []))
read_all-load_example =
    read_all-load loads true ((123 ∷ 49 ∷ []) ∷ (123 ∷ []) ∷ []) (125 ∷ 125 ∷ []) tt
      (refl, (refl, (refl, (refl, (refl, refl)))))

-- Of two replies that arrive at once the second is refused.
second_is_refused :
    unix_json_read loads true nothing_read (bytes true (123 ∷ 125 ∷ 123 ∷ 125 ∷ []))
    ≡ (nothing_read, on_reply (123 ∷ 125 ∷ []) ∷ on_error invalid_json ∷ [])
unfolding unix_json_read conclude scan scan_byte load
second_is_refused = refl
