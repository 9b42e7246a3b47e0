-- ===== src/Addr/Order.antt =====
-- The order of socket addresses.
use neat.Base.{
  ℕ, ◌≡◌, ◌↔◌, refl, ap, ap₂, sym, ◌∙◌, length, List, [], ◌∷◌, Option, none, some, arith,
}
use neat.Addr.{
  SockAddr, inet, inet6, other, Sign, less, equal, greater, cmp, cmp_bytes, sockaddr_storage_cmp,
}

-- The opposite sign.
abbrev pub flip : Sign → Sign
flip less = greater
flip equal = equal
flip greater = less

abbrev pub flip_option : Option Sign → Option Sign
flip_option none = none
flip_option (some s) = some (flip s)

cmp-flip : (a b : ℕ) (s t : Sign) → s ≡ flip t → cmp a b s ≡ flip (cmp b a t)
unfolding cmp
cmp-flip a b s t h = ground arith

cmp_bytes-flip : (x y : List ℕ) → cmp_bytes x y ≡ flip (cmp_bytes y x)
unfolding cmp_bytes
cmp_bytes-flip [] [] = refl
cmp_bytes-flip [] (b ∷ y) = refl
cmp_bytes-flip (a ∷ x) [] = refl
cmp_bytes-flip (a ∷ x) (b ∷ y) = cmp-flip a b _ _ (cmp_bytes-flip x y)

other_flip :
    (f g : ℕ)
    → sockaddr_storage_cmp (other f) (other g)
      ≡ flip_option (sockaddr_storage_cmp (other g) (other f))
unfolding sockaddr_storage_cmp cmp
other_flip f g = ground arith

cmp_self : (p : ℕ) (s : Sign) → cmp p p s ≡ s
unfolding cmp
cmp_self p s = ground arith

six : (p q : ℕ) (s t : Sign) → s ≡ flip t → some (cmp p p s) ≡ some (flip (cmp q q t))
six p q s t h = ap (λ u. some u) (cmp_self p s ∙ h ∙ sym (ap flip (cmp_self q t)))

-- The comparison with the arguments exchanged has the opposite sign, and fails its assertion
-- just when the other does.
pub sockaddr_storage_cmp-flip :
    (a b : SockAddr) → sockaddr_storage_cmp a b ≡ flip_option (sockaddr_storage_cmp b a)
unfolding sockaddr_storage_cmp
sockaddr_storage_cmp-flip (inet p a) (inet q b) =
    ap (λ s. some s) (cmp-flip p q _ _ (cmp-flip a b _ _ refl))
sockaddr_storage_cmp-flip (inet p a) (inet6 q g y t) = refl
sockaddr_storage_cmp-flip (inet p a) (other g) = ap (λ s. some s) (cmp-flip 2 g _ _ refl)
sockaddr_storage_cmp-flip (inet6 p f x s) (inet q b) = refl
sockaddr_storage_cmp-flip (inet6 p f x s) (inet6 q g y t) =
    six p q _ _ (cmp-flip f g _ _ (cmp-flip s t _ _ (cmp_bytes-flip x y)))
sockaddr_storage_cmp-flip (inet6 p f x s) (other g) = ap (λ s. some s) (cmp-flip 10 g _ _ refl)
sockaddr_storage_cmp-flip (other f) (inet q b) = ap (λ s. some s) (cmp-flip f 2 _ _ refl)
sockaddr_storage_cmp-flip (other f) (inet6 q g y t) = ap (λ s. some s) (cmp-flip f 10 _ _ refl)
sockaddr_storage_cmp-flip (other f) (other g) = other_flip f g

-- What the comparison sees of an address: all of it but the port of an IPv6 address.
abbrev pub compared : SockAddr → SockAddr
compared (inet6 p f x s) = inet6 0 f x s
compared a = a

abbrev pub Full : SockAddr → Type 0
Full (inet6 p f x s) = length x ≡ 16
Full (inet p a) = Unit
Full (other f) = ⊥

sign : {s : Sign} → some s ≡ some equal → s ≡ equal
sign h = cc

cmp-equal : (a b : ℕ) (s : Sign) → cmp a b s ≡ equal → (a ≡ b) × (s ≡ equal)
unfolding cmp
cmp-equal a b s h = ground arith

cmp_bytes-equal : (x y : List ℕ) → length x ≡ length y → cmp_bytes x y ≡ equal → x ≡ y
unfolding cmp_bytes
cmp_bytes-equal [] [] l h = refl
cmp_bytes-equal [] (b ∷ y) l h = absurd (omega (arith, l))
cmp_bytes-equal (a ∷ x) [] l h = absurd (omega (arith, l))
cmp_bytes-equal (a ∷ x) (b ∷ y) l h =
    let (e, r) = cmp-equal a b _ h in ap₂ (λ c z. c ∷ z) e (cmp_bytes-equal x y (omega arith) r)

sockaddr_storage_cmp-compared :
    (a b : SockAddr) → sockaddr_storage_cmp a b ≡ sockaddr_storage_cmp (compared a) (compared b)
unfolding sockaddr_storage_cmp
sockaddr_storage_cmp-compared (inet6 p f x s) (inet6 q g y t) =
    ap (λ u. some u) (cmp_self p _ ∙ sym (cmp_self 0 _))
sockaddr_storage_cmp-compared (inet6 p f x s) (inet q b) = refl
sockaddr_storage_cmp-compared (inet6 p f x s) (other g) = refl
sockaddr_storage_cmp-compared (inet p a) (inet q b) = refl
sockaddr_storage_cmp-compared (inet p a) (inet6 q g y t) = refl
sockaddr_storage_cmp-compared (inet p a) (other g) = refl
sockaddr_storage_cmp-compared (other f) (inet q b) = refl
sockaddr_storage_cmp-compared (other f) (inet6 q g y t) = refl
sockaddr_storage_cmp-compared (other f) (other g) = refl

cmp_bytes_self : (x : List ℕ) → cmp_bytes x x ≡ equal
unfolding cmp_bytes
cmp_bytes_self [] = refl
cmp_bytes_self (a ∷ x) = cmp_self a _ ∙ cmp_bytes_self x

sockaddr_storage_cmp_self : (a : SockAddr) → Full a → sockaddr_storage_cmp a a ≡ some equal
unfolding sockaddr_storage_cmp
sockaddr_storage_cmp_self (inet p a) u = ap (λ s. some s) (cmp_self p _ ∙ cmp_self a _)
sockaddr_storage_cmp_self (inet6 p f x s) u =
    ap (λ s. some s) (cmp_self p _ ∙ cmp_self f _ ∙ cmp_self s _ ∙ cmp_bytes_self x)
sockaddr_storage_cmp_self (other f) u = absurd u

compared-Full : (a : SockAddr) → Full a → Full (compared a)
compared-Full (inet p a) u = u
compared-Full (inet6 p f x s) u = u
compared-Full (other f) u = u

equal-compared :
    (a b : SockAddr)
    → Full a
    → Full b
    → sockaddr_storage_cmp a b ≡ some equal
    → compared a ≡ compared b
unfolding sockaddr_storage_cmp
equal-compared (inet p a) (inet q b) u v h =
    let (e, h₁) = cmp-equal p q _ (sign h) in
    let (f, r) = cmp-equal a b _ h₁ in ap₂ (λ p a. inet p a) e f
equal-compared (inet p a) (inet6 q g y t) u v h = cc
equal-compared (inet6 p f x s) (inet q b) u v h = cc
equal-compared (inet6 p f x s) (inet6 q g y t) u v h =
    let (e, h₁) = cmp-equal p p _ (sign h) in
    let (d, h₂) = cmp-equal f g _ h₁ in
    let (c, h₃) = cmp-equal s t _ h₂ in
    λ i. inet6 0 (d i) (cmp_bytes-equal x y (u ∙ sym v) h₃ i) (c i)
equal-compared (inet p a) (other g) u v h = absurd v
equal-compared (inet6 p f x s) (other g) u v h = absurd v
equal-compared (other f) b u v h = absurd u

-- Two addresses of the families AF_INET and AF_INET6, IPv6 ones of 16 bytes, compare equal
-- exactly when they agree in all but the port of an IPv6 address.
pub sockaddr_storage_cmp-equal :
    (a b : SockAddr)
    → Full a
    → Full b
    → (sockaddr_storage_cmp a b ≡ some equal) ↔ (compared a ≡ compared b)
sockaddr_storage_cmp-equal a b u v = (
  equal-compared a b u v,
  λ h.
      sockaddr_storage_cmp-compared a b
      ∙ sym (ap (sockaddr_storage_cmp (compared a)) h)
      ∙ sockaddr_storage_cmp_self (compared a) (compared-Full a u),
)
