-- ===== src/Flow/Life/Closing.antt =====
-- What neat_close does to an open flow and to one that is not open, such as one that listens.
use neat.Base.{◌+◌, ◌≡◌, refl, sym, subst, true, false, some, arith, if◌then◌else◌}
use neat.Flow.Life.{Life, close, close_socket, call_on_close, free_from_ctx}
use neat.Flow.Life.Steps.{Reach, HasLeft, IsListed}
use neat.Flow.Life.Release.{
  again, close-Notified, call_on_close-HasAll, free_flow-HasLeft, close_socket-IsListed,
}
use neat.Flow.Life.Preserves.{IsSound-IsListed, Reach-IsSound}

-- An open flow leaves the list, after one call of on_close if it is set, and its descriptor is closed.
pub record Closed (flow next : Life) : Type 0 where
  pub has_left : HasLeft next
  pub called : next.close_calls ≡ (if flow.on_close then 1 else 0)
  pub descriptor : next.fd_closes ≡ flow.fd_closes + 1

-- A flow that is not open keeps its memory and its place in the list, and on_close is not called; its
-- descriptor is closed, and the end of the context closes the descriptor with that number again.
pub record StaysListed (flow next : Life) : Type 0 where
  pub listed : IsListed next
  pub descriptor : next.fd_closes ≡ flow.fd_closes + 1
  pub closed_again :
      (last : Life) × (free_from_ctx next ≡ some last) × (last.fd_closes ≡ flow.fd_closes + 2)

unpolled_socket-IsListed :
    (flow : Life) → IsListed flow → IsListed (close_socket (record flow { is_polling = false }))
unpolled_socket-IsListed flow l =
    let unpolled = record flow { is_polling = false } in
    close_socket-IsListed unpolled
      (again flow unpolled l refl refl refl refl l.keeps_handle l.keeps_listeners)

free_from_ctx-descriptor :
    (flow : Life)
    → IsListed flow
    → (last : Life) × (free_from_ctx flow ≡ some last) × (last.fd_closes ≡ flow.fd_closes + 1)
unfolding free_from_ctx close_socket
free_from_ctx-descriptor flow l =
    let closed = close_socket flow in
    let (x, e, h, d, c) =
      free_flow-HasLeft (call_on_close closed)
        (call_on_close-HasAll closed (close_socket-IsListed flow l)) in
    (x, e, d)

-- neat_close of a flow in the list of the context closes its descriptor and returns. If the flow
-- is open, on_close is called once if it is set, and the flow leaves the list to be freed. If it
-- is not open, as while it connects or listens, on_close is not called, the flow stays in the
-- list with all its memory, and neat_free_ctx closes the same descriptor number once more.
pub close-Closed :
    {flow : Life}
    → Reach flow
    → flow.is_listed ≡ true
    → (next : Life) × (close flow ≡ some next)
      × (flow.is_open ≡ true → Closed flow next)
      × (flow.is_open ≡ false → StaysListed flow next)
unfolding close_socket
close-Closed {flow = flow} r e =
    let l = IsSound-IsListed flow (Reach-IsSound r) e in
    let (x, c, n) = close-Notified flow l in
    let k = unpolled_socket-IsListed flow l in
    (
      x,
      c,
      (λ o. record { has_left = (n.1 o).0; called = (n.1 o).1; descriptor = n.0 }),
      (λ s.
          let q = n.2 s in
          let m = subst IsListed (sym q) k in
          let (z, f, d) = free_from_ctx-descriptor x m in
          record { listed = m; descriptor = n.0; closed_again = (z, f, omega (arith, d, n.0)) }),
    )
