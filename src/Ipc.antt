-- ===== src/Ipc.antt =====
-- The replies of the policy manager as they arrive on a Unix socket: on_unix_json_read of
-- neat_unix_json_socket.c. json_loadb is a parameter; the callbacks are a log and leave the context alone.
pub mod Pieces
mod Examples
use neat.Base.{
  ℕ, ◌+◌, ◌-◌, ◌%◌, ◌^◌, Bool, true, false, ◌||◌, List, [], ◌∷◌, ◌++◌, Option, none, some, ◌==◌,
  if◌then◌else◌,
}

-- `struct neat_ipc_context`; an empty buffer is NULL.
pub record Context : Type 0 where
  pub read_buffer : List ℕ
  pub json_nesting_count : ℕ

-- PM_ERROR_SOCKET, PM_ERROR_INVALID_JSON and PM_ERROR_OOM.
pub data PmError : Type 0 where
  socket invalid_json oom : PmError

-- The calls of the callbacks.
pub data Event (Json : Type 0) : Type 0 where
  on_reply : Json → Event Json
  on_error : PmError → Event Json

-- What libuv reports: the end of the stream, UV_ENOBUFS, another error, or bytes, with whether the
-- realloc for them succeeds.
pub data Arrival : Type 0 where
  eof no_buffer failed : Arrival
  bytes : Bool → List ℕ → Arrival

abbrev pub is_open : ℕ → Bool
is_open c = (c == 123) || (c == 91)

abbrev pub is_close : ℕ → Bool
is_close c = (c == 125) || (c == 93)

abbrev pub is_space : ℕ → Bool
is_space c = (c == 32) || (c == 10) || (c == 9)

-- The size_t that counts the brackets that are open.
abbrev pub nested : ℕ → ℕ → ℕ
nested count c =
    if is_open c
    then (count + 1) % 2 ^ 64
    else if is_close c
    then (count + (2 ^ 64 - 1)) % 2 ^ 64
    else count

-- The loop over the new bytes: the count, the bytes from `offset` on, and the calls so far.
pub record Scan (Json : Type 0) : Type 0 where
  pub count : ℕ
  pub held : List ℕ
  pub log : List (Event Json)

module _ {Json : Type 0} (json_loadb : List ℕ → Option Json) where
  -- What is called for a text; `wanted` says that there is an on_reply.
  unfoldable pub load : Bool → List ℕ → List (Event Json)
  load wanted text = elim (json_loadb text) [
    | none ↦ on_error invalid_json ∷ []
    | some json ↦ if wanted then on_reply json ∷ [] else []
  ]

  -- A byte: if no bracket is open behind it, the text from `offset` on is handed on, and `offset` is
  -- set to this byte.
  unfoldable pub scan_byte : Bool → Scan Json → ℕ → Scan Json
  scan_byte wanted s c =
      if is_space c
      then record s { held = s.held ++ c ∷ [] }
      else if nested s.count c == 0
      then record {
        count = nested s.count c;
        held = c ∷ [];
        log = s.log ++ load wanted (s.held ++ c ∷ []);
      }
      else record s { count = nested s.count c; held = s.held ++ c ∷ [] }

  unfoldable pub scan : Bool → Scan Json → List ℕ → Scan Json
  scan wanted s [] = s
  scan wanted s (c ∷ chars) = scan wanted (scan_byte wanted s c) chars

  -- What stays in the buffer after the loop; the realloc that makes it smaller succeeds.
  unfoldable pub conclude : Scan Json → Context
  conclude s = record {
    read_buffer = if s.count == 0 then [] else s.held;
    json_nesting_count = s.count;
  }

  abbrev pub started : Context → Scan Json
  started context = record {
    count = context.json_nesting_count;
    held = context.read_buffer;
    log = [];
  }

  -- `on_unix_json_read`: the context, and the calls.
  unfoldable pub unix_json_read : Bool → Context → Arrival → Context × List (Event Json)
  unix_json_read wanted context eof = elim context.read_buffer [
    | [] ↦ (context, on_error socket ∷ [])
    | ◌∷◌ c text ↦ (context, load wanted (c ∷ text))
  ]
  unix_json_read wanted context no_buffer = (context, on_error oom ∷ [])
  unix_json_read wanted context failed = (context, on_error socket ∷ [])
  unix_json_read wanted context (bytes false chars) = (context, on_error oom ∷ [])
  unix_json_read wanted context (bytes true chars) =
      let s = scan wanted (started context) chars in (conclude s, s.log)

  -- What libuv makes of several arrivals, one after the other.
  unfoldable pub read_all : Bool → Context → List (List ℕ) → Context × List (Event Json)
  read_all wanted context [] = (context, [])
  read_all wanted context (piece ∷ pieces) =
      let (next, log) = unix_json_read wanted context (bytes true piece) in
      let (last, more) = read_all wanted next pieces in (last, log ++ more)
