-- ===== src/EventCallbacks.antt =====
-- The callbacks of a context for events of addresses: nt_add_event_cb, nt_remove_event_cb and
-- nt_run_event_cb of neat_core.c. A callback is the address of its `struct neat_event_cb`.
pub mod Last
mod Examples
use neat.Base.{
  ℕ, ◌+◌, Bool, true, false, not, ◌&&◌, ◌||◌, List, [], ◌∷◌, Option, none, some, ltb, ◌==◌,
  if◌then◌else◌, set, get_or, replicate,
}

-- NEAT_MAX_EVENT: the events are those of new, updated and deleted addresses.
abbrev pub max_event : ℕ
max_event = 2

-- `event_cbs`: none before the first callback is added, and then a list for each event.
abbrev pub EventCbs : Type 0
EventCbs = Option (List (List ℕ))

abbrev pub contains : List ℕ → ℕ → Bool
contains [] cb = false
contains (itr ∷ cbs) cb = (itr == cb) || contains cbs cb

-- LIST_REMOVE of the element at which the loop has stopped.
unfoldable pub remove : List ℕ → ℕ → List ℕ
remove [] cb = []
remove (itr ∷ cbs) cb = if itr == cb then cbs else itr ∷ remove cbs cb

-- The array, which calloc makes at the first use if it can.
unfoldable pub created : Bool → EventCbs → EventCbs
created allocated (some lists) = some lists
created allocated none = if allocated then some (replicate (max_event + 1) []) else none

-- The end of `nt_add_event_cb`: the callback goes to the front unless it is there.
unfoldable pub insert : List (List ℕ) → ℕ → ℕ → EventCbs × Bool
insert lists event_type cb =
    if contains (get_or lists event_type []) cb
    then (some lists, false)
    else (some (set lists event_type (cb ∷ get_or lists event_type [])), true)

-- `nt_add_event_cb` for a callback that is in the list of no other event; the Boolean is
-- RETVAL_SUCCESS.
unfoldable pub add_apart : Bool → EventCbs → ℕ → ℕ → EventCbs × Bool
add_apart allocated cbs event_type cb =
    if ltb max_event event_type then (cbs, false) else elim (created allocated cbs) [
      | none ↦ (none, false)
      | some lists ↦ insert lists event_type cb
    ]

abbrev pub in_other : List (List ℕ) → ℕ → ℕ → ℕ → Bool
in_other lists event_type cb other =
    not (other == event_type) && contains (get_or lists other []) cb

-- A callback has one `next_cb`: to insert it while it is in the list of another event ties the lists
-- together.
unfoldable pub entangles : EventCbs → ℕ → ℕ → Bool
entangles none event_type cb = false
entangles (some lists) event_type cb =
    not (ltb max_event event_type)
    && not (contains (get_or lists event_type []) cb)
    && (in_other lists event_type cb 0
        || in_other lists event_type cb 1
        || in_other lists event_type cb 2)

-- `nt_add_event_cb`; none if the lists are no longer separate, what the code then does with them is
-- left open.
unfoldable pub add_event_cb : Bool → EventCbs → ℕ → ℕ → Option (EventCbs × Bool)
add_event_cb allocated cbs event_type cb =
    if entangles cbs event_type cb then none else some (add_apart allocated cbs event_type cb)

-- `nt_remove_event_cb`.
unfoldable pub remove_event_cb : EventCbs → ℕ → ℕ → EventCbs × Bool
remove_event_cb none event_type cb = (none, false)
remove_event_cb (some lists) event_type cb =
    if ltb max_event event_type
    then (some lists, false)
    else (some (set lists event_type (remove (get_or lists event_type []) cb)), true)

-- `nt_run_event_cb`: the callbacks in the order in which they are called.
unfoldable pub run_event_cb : EventCbs → ℕ → List ℕ
run_event_cb none event_type = []
run_event_cb (some lists) event_type =
    if ltb max_event event_type then [] else get_or lists event_type []
