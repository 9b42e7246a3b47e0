-- ===== src/Flow/Life/Preserves.antt =====
-- Every step keeps a flow sound.
use neat.Base.{
  ℕ, ◌+◌, ◌≡◌, ◌∙◌, refl, sym, subst, Bool, true, false, Bool-cases, inl, inr, List, [], ◌∷◌, ◌++◌,
  Option, some, arith,
}
use neat.Flow.Life.{
  Handle, unknown, active, closing, gone, Listener, Life, new_flow, synchronous_free, close_socket,
  call_on_close, close, abort, end_closed, free_from_ctx, socket_handle_free_cb,
  listen_socket_handle_free_cb,
}
use neat.Flow.Life.Steps.{
  listening, Step, sets, adopts, opens, listens, closes, aborts, ends, context_ends, handle_closed,
  listener_closed, Reach, created, further, All, IsKept, kept_unknown, kept_active, Leaves, waiting,
  left, IsUsed, IsLeaving, IsListed, IsSound,
}
use neat.Flow.Life.Release.{
  again, close_socket-IsListed, call_on_close-HasAll, free_flow-HasLeft, Notified, close-Notified,
}

Leaves-closing : (h : Handle) (n : ℕ) → Leaves h n → h ≡ closing → n ≡ 0
Leaves-closing unknown n l c = elim l [ ]
Leaves-closing active n l c = elim l [ ]
Leaves-closing closing n (waiting e) c = e
Leaves-closing gone n (left e) c = absurd cc

IsKept-closing : (h : Handle) → IsKept h → h ≡ closing → ⊥
IsKept-closing closing k c = elim k [ ]
IsKept-closing gone k c = elim k [ ]
IsKept-closing unknown kept_unknown c = cc
IsKept-closing active kept_active c = cc

All-replace :
    (P : Listener → Type 0) (xs ys : List Listener) (x y : Listener)
    → All P (xs ++ x ∷ ys)
    → (P x → P y)
    → All P (xs ++ y ∷ ys)
All-replace P [] ys x y (p, ps) f = (f p, ps)
All-replace P (z ∷ xs) ys x y (p, ps) f = (p, All-replace P xs ys x y ps f)

All-at : (P : Listener → Type 0) (xs ys : List Listener) (x : Listener) → All P (xs ++ x ∷ ys) → P x
All-at P [] ys x (p, ps) = p
All-at P (z ∷ xs) ys x (p, ps) = All-at P xs ys x ps

All-add :
    (P : Listener → Type 0) (xs : List Listener) (x : Listener)
    → All P xs
    → P x
    → All P (xs ++ x ∷ [])
All-add P [] x ps p = (p, tt)
All-add P (y ∷ ys) x (q, ps) p = (q, All-add P ys x ps p)

-- A sound flow in the list has everything.
pub IsSound-IsListed : (flow : Life) → IsSound flow → flow.is_listed ≡ true → IsListed flow
IsSound-IsListed flow (inl l) e = l
IsSound-IsListed flow (inr h) e = absurd (let x = sym e ∙ h.unlisted in cc)

Notified-IsSound : (flow flow' : Life) → IsListed flow → Notified flow flow' → IsSound flow'
Notified-IsSound flow flow' l (f, o, n) = elim (Bool-cases flow.is_open) [
  | inl open' ↦ inr (o open').0
  | inr shut ↦ inl (subst IsListed (sym (n shut)) l)
]

-- A function succeeds and leaves a sound flow.
abbrev pub Succeeds : Option Life → Type 0
Succeeds r = (next : Life) × (r ≡ some next) × IsSound next

some_injective : (x y : Life) → some x ≡ some y → x ≡ y
some_injective x y e = cc

Succeeds-IsSound : (r : Option Life) (flow : Life) → Succeeds r → r ≡ some flow → IsSound flow
Succeeds-IsSound r flow (x, e, s) f = subst IsSound (some_injective x flow (sym e ∙ f)) s

pub close-Succeeds : (flow : Life) → IsListed flow → Succeeds (close flow)
close-Succeeds flow l =
    let unpolled = record flow { is_polling = false } in
    let k = again flow unpolled l refl refl refl refl l.keeps_handle l.keeps_listeners in
    let (x, e, n) = close-Notified flow l in
    (x, e, Notified-IsSound (close_socket unpolled) x (close_socket-IsListed unpolled k) n)

pub abort-Succeeds : (b : Bool) (flow : Life) → IsListed flow → Succeeds (abort b flow)
unfolding abort
abort-Succeeds true flow l =
    let lingering = record flow { lingers = true } in
    close-Succeeds lingering
      (again flow lingering l refl refl refl refl l.keeps_handle l.keeps_listeners)
abort-Succeeds false flow l = close-Succeeds flow l

pub end_closed-Succeeds : (flow : Life) → IsListed flow → Succeeds (end_closed flow)
unfolding end_closed close
end_closed-Succeeds flow l = close-Succeeds flow l

pub free_from_ctx-Succeeds : (flow : Life) → IsListed flow → Succeeds (free_from_ctx flow)
unfolding free_from_ctx
free_from_ctx-Succeeds flow l =
    let (x, e, h, _, _) =
      free_flow-HasLeft (call_on_close (close_socket flow))
        (call_on_close-HasAll (close_socket flow) (close_socket-IsListed flow l)) in
    (x, e, inr h)

pub socket_handle_free_cb-Succeeds :
    (flow : Life) → IsSound flow → flow.handle ≡ closing → Succeeds (socket_handle_free_cb flow)
unfolding socket_handle_free_cb synchronous_free
socket_handle_free_cb-Succeeds flow (inl l) c = absurd (IsKept-closing flow.handle l.keeps_handle c)
socket_handle_free_cb-Succeeds flow (inr h) c =
    let f = Leaves-closing flow.handle flow.frees h.leaves c in
    (
      record flow { frees = flow.frees + 1; handle = gone },
      simp (f) refl,
      inr (record {
        unlisted = h.unlisted;
        called = h.called;
        no_candidates = h.no_candidates;
        leaves = left (omega (arith, f));
        leaving_listeners = h.leaving_listeners;
      }),
    )

-- The callback of a listening socket.
listener_left :
    (listener : Listener)
    → listener.handle ≡ closing
    → IsLeaving listener
    → IsLeaving (listen_socket_handle_free_cb listener)
unfolding listen_socket_handle_free_cb
listener_left listener c l = left (omega (arith, Leaves-closing listener.handle listener.frees l c))

listener_closed-IsSound :
    (flow : Life) (before after : List Listener) (listener : Listener)
    → IsSound flow
    → flow.listen_sockets ≡ before ++ listener ∷ after
    → listener.handle ≡ closing
    → IsSound
        (record flow { listen_sockets = before ++ listen_socket_handle_free_cb listener ∷ after })
listener_closed-IsSound flow before after listener (inl l) e c = absurd (
    let u = All-at IsUsed before after listener (subst (All IsUsed) e l.keeps_listeners) in
    let x = sym u.0 ∙ c in cc)
listener_closed-IsSound flow before after listener (inr h) e c = inr (record {
  unlisted = h.unlisted;
  called = h.called;
  no_candidates = h.no_candidates;
  leaves = h.leaves;
  leaving_listeners =
      All-replace IsLeaving before after listener (listen_socket_handle_free_cb listener)
        (subst (All IsLeaving) e h.leaving_listeners) (listener_left listener c);
})

Step-IsSound : {flow flow' : Life} → IsSound flow → Step flow flow' → IsSound flow'
Step-IsSound {flow = flow} s (sets b e) =
    let l = IsSound-IsListed flow s e in
    inl (
      again flow (record flow { on_close = b }) l refl refl refl refl l.keeps_handle
        l.keeps_listeners)
Step-IsSound {flow = flow} s (adopts e u) =
    let l = IsSound-IsListed flow s e in
    inl (
      again flow (record flow { handle = active; is_polling = true }) l refl refl refl refl
        kept_active l.keeps_listeners)
Step-IsSound {flow = flow} s (opens e a) =
    let l = IsSound-IsListed flow s e in
    inl (
      again flow (record flow { is_open = true }) l refl refl refl refl l.keeps_handle
        l.keeps_listeners)
Step-IsSound {flow = flow} s (listens e) =
    let l = IsSound-IsListed flow s e in
    inl (
      again flow (record flow { listen_sockets = flow.listen_sockets ++ listening ∷ [] }) l refl
        refl refl refl l.keeps_handle
        (All-add IsUsed flow.listen_sockets listening l.keeps_listeners (refl, refl)))
Step-IsSound {flow = flow} {flow' = flow'} s (closes e c) =
    Succeeds-IsSound (close flow) flow' (close-Succeeds flow (IsSound-IsListed flow s e)) c
Step-IsSound {flow = flow} {flow' = flow'} s (aborts b e c) =
    Succeeds-IsSound (abort b flow) flow' (abort-Succeeds b flow (IsSound-IsListed flow s e)) c
Step-IsSound {flow = flow} {flow' = flow'} s (ends e a c) =
    Succeeds-IsSound (end_closed flow) flow' (end_closed-Succeeds flow (IsSound-IsListed flow s e))
      c
Step-IsSound {flow = flow} {flow' = flow'} s (context_ends e c) =
    Succeeds-IsSound (free_from_ctx flow) flow'
      (free_from_ctx-Succeeds flow (IsSound-IsListed flow s e)) c
Step-IsSound {flow = flow} {flow' = flow'} s (handle_closed h c) =
    Succeeds-IsSound (socket_handle_free_cb flow) flow' (socket_handle_free_cb-Succeeds flow s h) c
Step-IsSound {flow = flow} s (listener_closed before after listener e h) =
    listener_closed-IsSound flow before after listener s e h

pub Reach-IsSound : {flow : Life} → Reach flow → IsSound flow
unfolding new_flow
Reach-IsSound (created e) = subst IsSound (some_injective _ _ e) (
    inl (record {
      listed = refl;
      not_freed = refl;
      not_called = refl;
      has_candidates = refl;
      keeps_handle = kept_unknown;
      keeps_listeners = tt;
    }))
Reach-IsSound (further r s) = Step-IsSound (Reach-IsSound r) s
