-- ===== src/Flow/Life/Steps.antt =====
-- What happens to a flow, in any order, and what stays true of it.
use neat.Base.{ℕ, ◌≤◌, ◌≡◌, ◌⊎◌, Bool, true, false, List, [], ◌∷◌, ◌++◌, some}
use neat.Flow.Life.{
  Handle, unknown, active, closing, gone, Listener, Life, new_flow, close, abort, end_closed,
  free_from_ctx, socket_handle_free_cb, listen_socket_handle_free_cb,
}

-- A listening socket from accept_resolve_cb.
abbrev pub listening : Listener
listening = record { handle = active; fd_closes = 0; frees = 0 }

-- The application opens, accepts, closes and aborts a flow that is in the list, and sets its
-- callbacks; the event loop reports that the socket is closed as long as it polls the handle, and
-- calls back for a handle that it has closed.
pub data Step (flow : Life) : Life → Type 0 where
  sets : (b : Bool) → flow.is_listed ≡ true → Step flow (record flow { on_close = b })
  adopts :
      flow.is_listed ≡ true
      → flow.handle ≡ unknown
      → Step flow (record flow { handle = active; is_polling = true })
  opens : flow.is_listed ≡ true → flow.handle ≡ active → Step flow (record flow { is_open = true })
  listens :
      flow.is_listed ≡ true
      → Step flow (record flow { listen_sockets = flow.listen_sockets ++ listening ∷ [] })
  closes : {next : Life} → flow.is_listed ≡ true → close flow ≡ some next → Step flow next
  aborts :
      {next : Life} (b : Bool) → flow.is_listed ≡ true → abort b flow ≡ some next → Step flow next
  ends :
      {next : Life}
      → flow.is_listed ≡ true
      → flow.handle ≡ active
      → end_closed flow ≡ some next
      → Step flow next
  context_ends :
      {next : Life} → flow.is_listed ≡ true → free_from_ctx flow ≡ some next → Step flow next
  handle_closed :
      {next : Life}
      → flow.handle ≡ closing
      → socket_handle_free_cb flow ≡ some next
      → Step flow next
  listener_closed :
      (before after : List Listener) (listener : Listener)
      → flow.listen_sockets ≡ before ++ listener ∷ after
      → listener.handle ≡ closing
      → Step flow
          (record flow { listen_sockets = before ++ listen_socket_handle_free_cb listener ∷ after })

pub data Reach : Life → Type 0 where
  created : {flow : Life} → new_flow true true true ≡ some flow → Reach flow
  further : {flow flow' : Life} → Reach flow → Step flow flow' → Reach flow'

abbrev pub All : (Listener → Type 0) → List Listener → Type 0
All P [] = Unit
All P (x ∷ xs) = P x × All P xs

-- The phases of a handle and of a listening socket.
pub data IsKept : Handle → Type 0 where
  kept_unknown : IsKept unknown
  kept_active : IsKept active

pub data Leaves : Handle → ℕ → Type 0 where
  waiting : {n : ℕ} → n ≡ 0 → Leaves closing n
  left : {n : ℕ} → n ≡ 1 → Leaves gone n

abbrev pub IsUsed : Listener → Type 0
IsUsed listener = (listener.handle ≡ active) × (listener.frees ≡ 0)

abbrev pub IsLeaving : Listener → Type 0
IsLeaving listener = Leaves listener.handle listener.frees

-- A flow in the list has everything; one that has left it waits for its handle or is gone.
pub record IsListed (flow : Life) : Type 0 where
  pub listed : flow.is_listed ≡ true
  pub not_freed : flow.frees ≡ 0
  pub not_called : flow.close_calls ≡ 0
  pub has_candidates : flow.candidate_frees ≡ 0
  pub keeps_handle : IsKept flow.handle
  pub keeps_listeners : All IsUsed flow.listen_sockets

pub record HasLeft (flow : Life) : Type 0 where
  pub unlisted : flow.is_listed ≡ false
  pub called : flow.close_calls ≤ 1
  pub no_candidates : flow.candidate_frees ≡ 1
  pub leaves : Leaves flow.handle flow.frees
  pub leaving_listeners : All IsLeaving flow.listen_sockets

abbrev pub IsSound : Life → Type 0
IsSound flow = IsListed flow ⊎ HasLeft flow
