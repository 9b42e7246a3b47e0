-- ===== src/Flow/Life/Examples.antt =====
-- The lives of two flows.
use neat.Base.{◌≡◌, refl, true, false, [], ◌∷◌, some}
use neat.Flow.Life.{
  unknown, active, closing, Life, new_flow, close, close_socket, close_descriptor, close_listener,
  notify_close, free_flow, free_handle,
}
use neat.Flow.Life.Steps.{listening, Reach, created, further, sets, adopts, opens, listens, closes}
use neat.Flow.Life.Outcome.{Once, CanGoOn, AllFreed, run_callbacks, Reach-Once, Reach-AllFreed}
use neat.Flow.Life.Closing.{Closed, StaysListed, close-Closed}

abbrev fresh : Life
fresh = record {
  is_open = false;
  is_listed = true;
  is_polling = false;
  on_close = false;
  lingers = false;
  handle = unknown;
  listen_sockets = [];
  fd_closes = 0;
  close_calls = 0;
  candidate_frees = 0;
  frees = 0;
}

fresh_reached : Reach fresh
unfolding new_flow
fresh_reached = created refl

-- A flow that listens and has its on_close set.
abbrev server : Life
server = record fresh { on_close = true; listen_sockets = listening ∷ [] }

server_reached : Reach server
server_reached = further (further fresh_reached (sets true refl)) (listens refl)

-- An open flow with a listening socket, before and after neat_close.
abbrev connection : Life
connection = record server { handle = active; is_polling = true; is_open = true }

connection_reached : Reach connection
connection_reached = further (further server_reached (adopts refl refl)) (opens refl refl)

abbrev closed_connection : Life
closed_connection = record server {
  is_listed = false;
  handle = closing;
  listen_sockets = record { handle = closing; fd_closes = 1; frees = 0 } ∷ [];
  fd_closes = 1;
  close_calls = 1;
  candidate_frees = 1;
}

closed_reached : Reach closed_connection
unfolding close notify_close free_flow free_handle close_socket close_descriptor close_listener
closed_reached = further connection_reached (closes refl refl)

Reach-Once_example : Once closed_connection × CanGoOn closed_connection
Reach-Once_example = Reach-Once closed_reached

Reach-AllFreed_example : (end : Life) × (run_callbacks closed_connection ≡ some end) × AllFreed end
Reach-AllFreed_example = Reach-AllFreed closed_reached refl

close-Closed_example :
    (next : Life) × (close server ≡ some next)
    × (server.is_open ≡ true → Closed server next)
    × (server.is_open ≡ false → StaysListed server next)
close-Closed_example = close-Closed server_reached refl
