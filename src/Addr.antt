-- ===== src/Addr.antt =====
-- neat_addr.c: the list of source addresses that a context keeps from what the system reports.
-- Callbacks are a log of the events that they are run with.
pub mod Keys
pub mod Source
pub mod Lifetime
pub mod Order
mod Examples
use neat.Base.{
  ℕ, ◌+◌, ◌-◌, ◌%◌, Bool, true, false, not, ◌&&◌, ◌||◌, List, [], ◌∷◌, Option, none, some, ltb,
  ◌==◌, if◌then◌else◌,
}

-- `struct sockaddr_storage`, by family: port and address, or port, flow, the 16 address bytes and
-- scope; ports and IPv4
-- addresses are in host order, the flow as it is stored. `other` is any other family.
pub data SockAddr : Type 0 where
  inet : (port addr : ℕ) → SockAddr
  inet6 : (port flowinfo : ℕ) → (bytes : List ℕ) → (scope_id : ℕ) → SockAddr
  other : (family : ℕ) → SockAddr

-- `memcmp(a, b, n) == 0`.
unfoldable pub bytes_eq : List ℕ → List ℕ → Bool
bytes_eq [] [] = true
bytes_eq (a ∷ x) (b ∷ y) = (a == b) && bytes_eq x y
bytes_eq _ _ = false

-- `struct neat_addr`; its family is that of `addr`.
pub record NeatAddr : Type 0 where
  pub if_idx : ℕ
  pub addr : SockAddr
  pub prefix_length : ℕ
  pub ifa_pref : ℕ
  pub ifa_valid : ℕ

pub data Event : Type 0 where
  new_addr update_addr del_addr : NeatAddr → Event

-- The part of `struct neat_ctx` at hand, with the events so far, the latest first; src_addr_cnt is a
-- uint8_t.
pub record Ctx : Type 0 where
  pub src_addrs : List NeatAddr
  pub src_addr_cnt : ℕ
  pub events : List Event

pub data Status : Type 0 where
  ok bad_argument out_of_memory : Status

-- What the search of `nt_addr_update_src_list` compares: family, interface and address.
unfoldable pub same_addr : SockAddr → SockAddr → Bool
unfolding bytes_eq
same_addr (inet p a) (inet q b) = a == b
same_addr (inet6 p f x s) (inet6 q g y t) = bytes_eq x y
same_addr _ _ = false

unfoldable pub matches : NeatAddr → SockAddr → ℕ → Bool
unfolding same_addr
matches e src_addr if_idx = (e.if_idx == if_idx) && same_addr e.addr src_addr

-- The first entry that matches.
unfoldable pub find : List NeatAddr → SockAddr → ℕ → Option NeatAddr
unfolding matches
find [] src_addr if_idx = none
find (e ∷ l) src_addr if_idx = if matches e src_addr if_idx then some e else find l src_addr if_idx

-- LIST_REMOVE of the entry found, and an update of it in place.
unfoldable pub remove : List NeatAddr → SockAddr → ℕ → List NeatAddr
unfolding matches
remove [] src_addr if_idx = []
remove (e ∷ l) src_addr if_idx =
    if matches e src_addr if_idx then l else e ∷ remove l src_addr if_idx

abbrev pub renewed : NeatAddr → ℕ → ℕ → NeatAddr
renewed e pref valid = record e { ifa_pref = pref; ifa_valid = valid }

unfoldable pub renew : List NeatAddr → SockAddr → ℕ → ℕ → ℕ → List NeatAddr
unfolding matches
renew [] src_addr if_idx pref valid = []
renew (e ∷ l) src_addr if_idx pref valid =
    if matches e src_addr if_idx
    then renewed e pref valid ∷ l
    else e ∷ renew l src_addr if_idx pref valid

abbrev pub is_inet6 : SockAddr → Bool
is_inet6 (inet6 p f x s) = true
is_inet6 _ = false

abbrev pub supported : SockAddr → Bool
supported (other f) = false
supported _ = true

-- The new entry; the lifetimes of an IPv4 address stay 0, as calloc left them.
abbrev pub entry : SockAddr → ℕ → ℕ → ℕ → ℕ → NeatAddr
entry src_addr if_idx pref_length pref valid = record {
  if_idx = if_idx;
  addr = src_addr;
  prefix_length = pref_length;
  ifa_pref = if is_inet6 src_addr then pref else 0;
  ifa_valid = if is_inet6 src_addr then valid else 0;
}

-- What happens to the entry that the search found.
unfoldable pub update_found : Ctx → NeatAddr → SockAddr → ℕ → Bool → ℕ → ℕ → Ctx
unfolding remove renew
update_found nc e src_addr if_idx newaddr pref valid =
    if not newaddr
    then record nc {
      src_addrs = remove nc.src_addrs src_addr if_idx;
      src_addr_cnt = (nc.src_addr_cnt + 255) % 256;
      events = del_addr e ∷ nc.events;
    }
    else if is_inet6 e.addr
    then record nc {
      src_addrs = renew nc.src_addrs src_addr if_idx pref valid;
      events = update_addr (renewed e pref valid) ∷ nc.events;
    }
    else nc

-- `nt_addr_update_src_list`; whether calloc succeeds is the last argument.
unfoldable pub update_src_list : Ctx → SockAddr → ℕ → Bool → ℕ → ℕ → ℕ → Bool → Status × Ctx
unfolding find update_found
update_src_list nc src_addr if_idx newaddr pref_length pref valid allocates =
    if not (supported src_addr)
    then (bad_argument, nc)
    else elim (find nc.src_addrs src_addr if_idx) [
      | some e ↦ (ok, update_found nc e src_addr if_idx newaddr pref valid)
      | none ↦
          if allocates
          then (
            ok,
            record nc {
              src_addrs = entry src_addr if_idx pref_length pref valid ∷ nc.src_addrs;
              src_addr_cnt = (nc.src_addr_cnt + 1) % 256;
              events = new_addr (entry src_addr if_idx pref_length pref valid) ∷ nc.events;
            },
          )
          else (out_of_memory, nc)
    ]

-- `NEAT_UNLIMITED_LIFETIME` and `NEAT_ADDRESS_LIFETIME_TIMEOUT`.
abbrev pub unlimited_lifetime : ℕ
unlimited_lifetime = 0xffffffff

abbrev pub lifetime_timeout : ℕ
lifetime_timeout = 1

abbrev pub shortened : ℕ → ℕ
shortened n = if ltb n lifetime_timeout then 0 else n - lifetime_timeout

-- One lifetime at a tick of the timer: what is left of it, and whether it has just run out.
unfoldable pub age : ℕ → ℕ × Bool
age n =
    if not (n == unlimited_lifetime) && ltb 0 n then (shortened n, shortened n == 0) else (n, false)

unfoldable pub age_addr : NeatAddr → NeatAddr × Bool
unfolding age
age_addr e =
    if is_inet6 e.addr
    then (
      renewed e (age e.ifa_pref).0 (age e.ifa_valid).0,
      (age e.ifa_pref).1 || (age e.ifa_valid).1,
    )
    else (e, false)

-- The loop of `nt_addr_lifetime_timeout_cb`: the aged entries, and the events, the latest first.
unfoldable pub age_all : List NeatAddr → List Event → List NeatAddr × List Event
unfolding age_addr
age_all [] events = ([], events)
age_all (e ∷ l) events =
    let rest = age_all l (if (age_addr e).1 then update_addr (age_addr e).0 ∷ events else events) in
    ((age_addr e).0 ∷ rest.0, rest.1)

-- `nt_addr_lifetime_timeout_cb`.
unfoldable pub lifetime_timeout_cb : Ctx → Ctx
unfolding age_all
lifetime_timeout_cb nc = record nc {
  src_addrs = (age_all nc.src_addrs nc.events).0;
  events = (age_all nc.src_addrs nc.events).1;
}

-- `CMP` of `sockaddr_storage_cmp`: a decision, or on to the next comparison. -1, 0 and 1.
pub data Sign : Type 0 where
  less equal greater : Sign

unfoldable pub cmp : ℕ → ℕ → Sign → Sign
cmp a b next = if a == b then next else if ltb a b then less else greater

-- The sign of memcmp over blocks of one length.
unfoldable pub cmp_bytes : List ℕ → List ℕ → Sign
unfolding cmp
cmp_bytes (a ∷ x) (b ∷ y) = cmp a b (cmp_bytes x y)
cmp_bytes _ _ = equal

-- `sockaddr_storage_cmp`, by sign, for the families AF_INET = 2 and AF_INET6 = 10; none is the
-- assertion that fails on another family. The ports of two IPv6 addresses are not compared: the
-- source names the port of `a` twice.
unfoldable pub sockaddr_storage_cmp : SockAddr → SockAddr → Option Sign
unfolding cmp cmp_bytes
sockaddr_storage_cmp (inet p a) (inet q b) = some (cmp p q (cmp a b equal))
sockaddr_storage_cmp (inet6 p f x s) (inet6 q g y t) =
    some (cmp p p (cmp f g (cmp s t (cmp_bytes x y))))
sockaddr_storage_cmp (inet p a) (inet6 q g y t) = some less
sockaddr_storage_cmp (inet6 p f x s) (inet q b) = some greater
sockaddr_storage_cmp (inet p a) (other g) = some (cmp 2 g equal)
sockaddr_storage_cmp (inet6 p f x s) (other g) = some (cmp 10 g equal)
sockaddr_storage_cmp (other f) (inet q b) = some (cmp f 2 equal)
sockaddr_storage_cmp (other f) (inet6 q g y t) = some (cmp f 10 equal)
sockaddr_storage_cmp (other f) (other g) = if f == g then none else some (cmp f g equal)
