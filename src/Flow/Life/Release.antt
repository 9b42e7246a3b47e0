-- ===== src/Flow/Life/Release.antt =====
-- What nt_free_flow, nt_notify_close and neat_close make of a flow that has everything.
use neat.Base.{
  ◌+◌, ◌≤◌, ◌≡◌, ◌∙◌, refl, sym, subst, true, false, Bool-cases, inl, inr, List, [], ◌∷◌, some, map,
  arith, if◌then◌else◌,
}
use neat.Flow.Life.{
  Handle, unknown, active, closing, gone, Listener, Life, synchronous_free, leave, close_listener,
  free_handle, free_flow, close_descriptor, close_socket, call_on_close, notify_close, close,
}
use neat.Flow.Life.Steps.{
  All, IsKept, kept_unknown, kept_active, Leaves, waiting, left, IsUsed, IsLeaving, IsListed,
  HasLeft,
}

close_listeners : (xs : List Listener) → All IsUsed xs → All IsLeaving (map close_listener xs)
unfolding close_listener
close_listeners [] us = tt
close_listeners (x ∷ xs) ((a, f), us) =
    (subst (λ h. Leaves (leave h) x.frees) (sym a) (waiting f), close_listeners xs us)

close_descriptors : (xs : List Listener) → All IsUsed xs → All IsUsed (map close_descriptor xs)
unfolding close_descriptor
close_descriptors [] us = tt
close_descriptors (x ∷ xs) (u, us) = (u, close_descriptors xs us)

-- The flow has everything that nt_free_flow gives back.
pub record HasAll (flow : Life) : Type 0 where
  pub listed : flow.is_listed ≡ true
  pub not_freed : flow.frees ≡ 0
  pub called : flow.close_calls ≤ 1
  pub has_candidates : flow.candidate_frees ≡ 0
  pub keeps_handle : IsKept flow.handle
  pub keeps_listeners : All IsUsed flow.listen_sockets

free_handle-HasLeft :
    (h : Handle) (flow : Life)
    → IsKept h
    → flow.is_listed ≡ false
    → flow.frees ≡ 0
    → flow.close_calls ≤ 1
    → flow.candidate_frees ≡ 1
    → All IsLeaving flow.listen_sockets
    → (next : Life) × (free_handle h flow ≡ some next)
      × HasLeft next
      × (next.fd_closes ≡ flow.fd_closes)
      × (next.close_calls ≡ flow.close_calls)
unfolding free_handle synchronous_free
free_handle-HasLeft unknown flow kept_unknown u f c n l = (
  record flow { frees = flow.frees + 1; handle = gone },
  rw f refl,
  record {
    unlisted = u;
    called = c;
    no_candidates = n;
    leaves = left (omega (arith, f));
    leaving_listeners = l;
  },
  refl,
  refl,
)
free_handle-HasLeft active flow kept_active u f c n l = (
  record flow { handle = closing },
  refl,
  record { unlisted = u; called = c; no_candidates = n; leaves = waiting f; leaving_listeners = l },
  refl,
  refl,
)
free_handle-HasLeft closing flow k u f c n l = elim k [ ]
free_handle-HasLeft gone flow k u f c n l = elim k [ ]

pub free_flow-HasLeft :
    (flow : Life)
    → HasAll flow
    → (next : Life) × (free_flow flow ≡ some next)
      × HasLeft next
      × (next.fd_closes ≡ flow.fd_closes)
      × (next.close_calls ≡ flow.close_calls)
unfolding free_flow
free_flow-HasLeft flow a = simp (a.listed) (
    free_handle-HasLeft flow.handle
      (record flow {
        is_listed = false;
        candidate_frees = flow.candidate_frees + 1;
        listen_sockets = map close_listener flow.listen_sockets;
      })
      a.keeps_handle refl a.not_freed a.called (omega (arith, a.has_candidates))
      (close_listeners flow.listen_sockets a.keeps_listeners))

-- A flow stays in the list with everything if only other fields, its handle or its sockets change.
pub again :
    (flow flow' : Life)
    → IsListed flow
    → flow'.is_listed ≡ flow.is_listed
    → flow'.frees ≡ flow.frees
    → flow'.close_calls ≡ flow.close_calls
    → flow'.candidate_frees ≡ flow.candidate_frees
    → IsKept flow'.handle
    → All IsUsed flow'.listen_sockets
    → IsListed flow'
again flow flow' l i f c n h a = record {
  listed = i ∙ l.listed;
  not_freed = f ∙ l.not_freed;
  not_called = c ∙ l.not_called;
  has_candidates = n ∙ l.has_candidates;
  keeps_handle = h;
  keeps_listeners = a;
}

pub close_socket-IsListed : (flow : Life) → IsListed flow → IsListed (close_socket flow)
unfolding close_socket
close_socket-IsListed flow l =
    again flow (close_socket flow) l refl refl refl refl l.keeps_handle
      (close_descriptors flow.listen_sockets l.keeps_listeners)

-- The flow after the call of on_close can be freed.
pub call_on_close-HasAll : (flow : Life) → IsListed flow → HasAll (call_on_close flow)
call_on_close-HasAll flow l = record {
  listed = l.listed;
  not_freed = l.not_freed;
  called = ground (arith, l.not_called);
  has_candidates = l.has_candidates;
  keeps_handle = l.keeps_handle;
  keeps_listeners = l.keeps_listeners;
}

-- What nt_notify_close makes of a flow in the list.
abbrev pub Notified : Life → Life → Type 0
Notified flow next =
    (next.fd_closes ≡ flow.fd_closes)
    × (flow.is_open ≡ true → HasLeft next × (next.close_calls ≡ (if flow.on_close then 1 else 0)))
    × (flow.is_open ≡ false → next ≡ flow)

pub notify_close-Notified :
    (flow : Life)
    → IsListed flow
    → (next : Life) × (notify_close flow ≡ some next) × Notified flow next
unfolding notify_close
notify_close-Notified flow l = elim (Bool-cases flow.is_open) [
  | inl o ↦
      let closed = record flow { is_open = false } in
      let k = again flow closed l refl refl refl refl l.keeps_handle l.keeps_listeners in
      let (next, e, leaves, f, c) =
        free_flow-HasLeft (call_on_close closed) (call_on_close-HasAll closed k) in
      (
        next,
        simp (o) e,
        (
          f,
          (λ o'. (leaves, ground (arith, c, l.not_called))),
          (λ n. absurd (let x = sym o ∙ n in cc)),
        ),
      )
  | inr n ↦ (flow, simp (n) refl, (refl, (λ o. absurd (let x = sym o ∙ n in cc)), (λ n'. refl)))
]

-- What closing the descriptors and nt_notify_close make of a flow in the list, whether the event loop
-- polls it and whether it lingers.
pub close-Notified :
    (flow : Life)
    → IsListed flow
    → (next : Life) × (close flow ≡ some next)
      × Notified (close_socket (record flow { is_polling = false })) next
unfolding close
close-Notified flow l = notify_close-Notified (close_socket (record flow { is_polling = false })) (
    close_socket-IsListed (record flow { is_polling = false })
      (again flow (record flow { is_polling = false }) l refl refl refl refl l.keeps_handle
        l.keeps_listeners))
