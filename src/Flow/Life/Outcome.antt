-- ===== src/Flow/Life/Outcome.antt =====
-- How the life of a flow ends.
use neat.Base.{
  ℕ, ◌+◌, ◌≤◌, ◌≡◌, ◌∙◌, refl, sym, Bool, true, false, inl, inr, List, [], ◌∷◌, Option, some, map,
  arith,
}
use neat.Flow.Life.{
  Handle, unknown, active, closing, gone, Listener, Life, synchronous_free, close, abort,
  end_closed, free_from_ctx, socket_handle_free_cb, listen_socket_handle_free_cb,
}
use neat.Flow.Life.Steps.{Reach, All, Leaves, waiting, left, IsUsed, IsLeaving, IsSound}
use neat.Flow.Life.Preserves.{
  IsSound-IsListed, Succeeds, close-Succeeds, abort-Succeeds, end_closed-Succeeds,
  free_from_ctx-Succeeds, socket_handle_free_cb-Succeeds, Reach-IsSound,
}

abbrev pub Returns : Option Life → Type 0
Returns r = (next : Life) × (r ≡ some next)

-- Nothing is given back twice.
pub record Once (flow : Life) : Type 0 where
  pub frees : flow.frees ≤ 1
  pub candidate_frees : flow.candidate_frees ≤ 1
  pub close_calls : flow.close_calls ≤ 1
  pub listener_frees : All (λ listener. listener.frees ≤ 1) flow.listen_sockets

-- No function meets what is gone.
pub record CanGoOn (flow : Life) : Type 0 where
  pub closes : flow.is_listed ≡ true → Returns (close flow)
  pub aborts : (b : Bool) → flow.is_listed ≡ true → Returns (abort b flow)
  pub ends : flow.is_listed ≡ true → Returns (end_closed flow)
  pub context_ends : flow.is_listed ≡ true → Returns (free_from_ctx flow)
  pub handle_closed : flow.handle ≡ closing → Returns (socket_handle_free_cb flow)

Leaves-once : (h : Handle) (n : ℕ) → Leaves h n → n ≤ 1
Leaves-once unknown n l = elim l [ ]
Leaves-once active n l = elim l [ ]
Leaves-once closing n (waiting e) = omega (arith, e)
Leaves-once gone n (left e) = omega (arith, e)

All-weaken :
    (P Q : Listener → Type 0) (xs : List Listener)
    → ((x : Listener) → P x → Q x)
    → All P xs
    → All Q xs
All-weaken P Q [] f ps = tt
All-weaken P Q (x ∷ xs) f (p, ps) = (f x p, All-weaken P Q xs f ps)

IsSound-Once : (flow : Life) → IsSound flow → Once flow
IsSound-Once flow (inl l) = record {
  frees = omega (arith, l.not_freed);
  candidate_frees = omega (arith, l.has_candidates);
  close_calls = omega (arith, l.not_called);
  listener_frees =
      All-weaken IsUsed (λ listener. listener.frees ≤ 1) flow.listen_sockets
        (λ x u. omega (arith, u.1)) l.keeps_listeners;
}
IsSound-Once flow (inr h) = record {
  frees = Leaves-once flow.handle flow.frees h.leaves;
  candidate_frees = omega (arith, h.no_candidates);
  close_calls = h.called;
  listener_frees =
      All-weaken IsLeaving (λ listener. listener.frees ≤ 1) flow.listen_sockets
        (λ x. Leaves-once x.handle x.frees) h.leaving_listeners;
}

returns : (r : Option Life) → Succeeds r → Returns r
returns r (x, e, s) = (x, e)

-- In whatever order the application, the event loop and the end of the context use a flow, as
-- long as the application uses it only while it is in the list of the context: on_close is
-- called at most once, the flow, its candidates and each listening socket are freed at most
-- once, and the next such use meets no freed memory.
pub Reach-Once : {flow : Life} → Reach flow → Once flow × CanGoOn flow
Reach-Once {flow = flow} r =
    let s = Reach-IsSound r in
    (
      IsSound-Once flow s,
      record {
        closes = λ e. returns (close flow) (close-Succeeds flow (IsSound-IsListed flow s e));
        aborts = λ b e. returns (abort b flow) (abort-Succeeds b flow (IsSound-IsListed flow s e));
        ends =
            λ e. returns (end_closed flow) (end_closed-Succeeds flow (IsSound-IsListed flow s e));
        context_ends = λ e.
            returns (free_from_ctx flow) (free_from_ctx-Succeeds flow (IsSound-IsListed flow s e));
        handle_closed =
            λ c. returns (socket_handle_free_cb flow) (socket_handle_free_cb-Succeeds flow s c);
      },
    )

-- A round of the event loop, which calls back for each closed handle.
abbrev pub call_back : Listener → Handle → Listener
call_back listener closing = listen_socket_handle_free_cb listener
call_back listener handle = listener

abbrev pub loop_handle : Handle → Life → Option Life
loop_handle closing flow = socket_handle_free_cb flow
loop_handle handle flow = some flow

abbrev pub run_callbacks : Life → Option Life
run_callbacks flow =
    loop_handle flow.handle
      (record flow { listen_sockets = map (λ l. call_back l l.handle) flow.listen_sockets })

pub record AllFreed (flow : Life) : Type 0 where
  pub freed : flow.frees ≡ 1
  pub candidates_freed : flow.candidate_frees ≡ 1
  pub listeners_freed : All (λ listener. listener.frees ≡ 1) flow.listen_sockets

call_back-frees : (x : Listener) (h : Handle) → Leaves h x.frees → (call_back x h).frees ≡ 1
unfolding listen_socket_handle_free_cb
call_back-frees x unknown l = elim l [ ]
call_back-frees x active l = elim l [ ]
call_back-frees x closing (waiting e) = omega (arith, e)
call_back-frees x gone (left e) = e

call_backs :
    (xs : List Listener)
    → All IsLeaving xs
    → All (λ listener. listener.frees ≡ 1) (map (λ l. call_back l l.handle) xs)
call_backs [] ls = tt
call_backs (x ∷ xs) (l, ls) = (call_back-frees x x.handle l, call_backs xs ls)

loop_handle-AllFreed :
    (h : Handle) (flow : Life)
    → Leaves h flow.frees
    → flow.candidate_frees ≡ 1
    → All (λ listener. listener.frees ≡ 1) flow.listen_sockets
    → (end : Life) × (loop_handle h flow ≡ some end) × AllFreed end
unfolding socket_handle_free_cb synchronous_free
loop_handle-AllFreed unknown flow l c a = elim l [ ]
loop_handle-AllFreed active flow l c a = elim l [ ]
loop_handle-AllFreed closing flow (waiting e) c a = (
  record flow { frees = flow.frees + 1; handle = gone },
  simp (e) refl,
  record { freed = omega (arith, e); candidates_freed = c; listeners_freed = a },
)
loop_handle-AllFreed gone flow (left e) c a =
    (flow, refl, record { freed = e; candidates_freed = c; listeners_freed = a })

-- Once a flow has left the list of the context, the callbacks for its closed handles free it and
-- each of its listening sockets, so that all is freed exactly once.
pub Reach-AllFreed :
    {flow : Life}
    → Reach flow
    → flow.is_listed ≡ false
    → (end : Life) × (run_callbacks flow ≡ some end) × AllFreed end
Reach-AllFreed {flow = flow} r u = elim (Reach-IsSound r) [
  | inl l ↦ absurd (let x = sym u ∙ l.listed in cc)
  | inr h ↦
      loop_handle-AllFreed flow.handle
        (record flow { listen_sockets = map (λ l. call_back l l.handle) flow.listen_sockets })
        h.leaves h.no_candidates (call_backs flow.listen_sockets h.leaving_listeners)
]
