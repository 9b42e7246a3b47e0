-- ===== src/Resolver/Helpers.antt =====
-- neat_resolver_helpers.c: address literals, internal addresses and the results of a resolution.
-- inet_pton is a parameter.
pub mod Internal
pub mod Literals
use neat.Base.{
  String, ℕ, ◌+◌, ◌*◌, ◌/◌, ◌^◌, Bool, true, false, not, ◌&&◌, ◌||◌, List, [], ◌∷◌, Option, none,
  some, ltb, ◌==◌, if◌then◌else◌,
}
use neat.Addr.{SockAddr, inet, inet6, other, NeatAddr}

-- `a & mask == net` for the mask of the highest bits that leaves `low` bits.
unfoldable pub in_net : ℕ → ℕ → ℕ → Bool
in_net a low net = a / 2 ^ low * 2 ^ low == net

-- The first byte of an IPv6 address.
abbrev pub first_byte : List ℕ → ℕ
first_byte [] = 0
first_byte (b ∷ bs) = b

-- `nt_resolver_helpers_addr_internal`; `none`: on another family the bytes that it reads are not in
-- the model.
unfoldable pub addr_internal : SockAddr → Option Bool
unfolding in_net
addr_internal (inet6 p f bytes s) = some (not (in_net (first_byte bytes) 1 0xfc))
addr_internal (inet p a) =
    some (in_net a 24 0x0a000000 || in_net a 20 0xac100000 || in_net a 16 0xc0a80000)
addr_internal (other f) = none

-- `strchr(node, ',') != NULL`.
unfoldable pub has_comma : String → Bool
has_comma [] = false
has_comma (c ∷ s) = (c == 44) || has_comma s

-- A token in front of the others, if it is not empty: strtok_r skips empty ones.
abbrev pub token : String → List String → List String
token [] ts = ts
token (c ∷ s) ts = (c ∷ s) ∷ ts

-- The current token, and the tokens behind it.
unfoldable pub split : String → String × List String
split [] = ([], [])
split (c ∷ s) =
    let rest = split s in if c == 44 then ([], token rest.0 rest.1) else (c ∷ rest.0, rest.1)

-- The tokens of `strtok_r(.., ",", ..)`.
abbrev pub tokens : String → List String
tokens s = token (split s).0 (split s).1

-- `*family`: AF_UNSPEC, AF_INET, AF_INET6 or another.
pub data Family : Type 0 where
  unspec v4 v6 unknown : Family

-- Whether a name is an IPv4 and an IPv6 literal, as `inet_pton(..) == 1`.
pub record Pton : Type 0 where
  pub is_v4 : String → Bool
  pub is_v6 : String → Bool

-- The loop over the addresses of a list: what the last of them is, or none at one that is no literal.
unfoldable pub check_list : Pton → List String → Bool → Bool → Option (Bool × Bool)
check_list p [] v4_literal v6_literal = some (v4_literal, v6_literal)
check_list p (t ∷ ts) v4_literal v6_literal =
    let rest = check_list p ts (p.is_v4 t) (p.is_v6 t) in
    if not (p.is_v4 t || p.is_v6 t) then none else rest

-- What the function answers: -1, 0 and 1.
pub data Literal : Type 0 where
  failure name literal : Literal

abbrev pub mismatch : Family → Bool → Bool → Bool
mismatch v4 a b = b
mismatch v6 a b = a
mismatch _ a b = false

abbrev pub resolved_family : Family → Bool → Bool → Family
resolved_family unspec a b = if b then v6 else if a then v4 else unspec
resolved_family family a b = family

abbrev pub is_unknown : Family → Bool
is_unknown unknown = true
is_unknown _ = false

-- What is behind the test of the node.
unfoldable pub decide : Family → Option (Bool × Bool) → Literal × Family
decide family none = (name, family)
decide family (some (a, b)) =
    if mismatch family a b
    then (failure, family)
    else (if a || b then literal else name, resolved_family family a b)

-- `nt_resolver_helpers_check_for_literal`, with the family that it leaves.
unfoldable pub check_for_literal : Pton → Family → String → Literal × Family
unfolding has_comma split check_list decide
check_for_literal p family node =
    if is_unknown family
    then (failure, family)
    else decide family (
        if has_comma node
        then check_list p (tokens node) false false
        else some (p.is_v4 node, p.is_v6 node))

-- `struct neat_resolver_res`; `ai_family` is the family of `src_addr`.
pub record Result : Type 0 where
  pub if_idx : ℕ
  pub src_addr : SockAddr
  pub src_addr_len : ℕ
  pub dst_addr : SockAddr
  pub dst_addr_len : ℕ
  pub internal : Option Bool

-- sizeof of `struct sockaddr_in` and `struct sockaddr_in6`.
abbrev pub addrlen : SockAddr → ℕ
addrlen (inet p a) = 16
addrlen _ = 28

abbrev pub set_port : SockAddr → ℕ → SockAddr
set_port (inet p a) port = inet port a
set_port (inet6 p f x s) port = inet6 port f x s
set_port (other f) port = other f

-- `nt_resolver_helpers_fill_results`: how many results are added, and the list.
unfoldable pub fill_results : ℕ → List Result → NeatAddr → SockAddr → Bool → ℕ × List Result
unfolding addr_internal
fill_results dst_port result_list src_addr dst_addr allocates =
    if not allocates then (0, result_list) else (
      1,
      record {
        if_idx = src_addr.if_idx;
        src_addr = src_addr.addr;
        src_addr_len = addrlen src_addr.addr;
        dst_addr = set_port dst_addr dst_port;
        dst_addr_len = addrlen src_addr.addr;
        internal = addr_internal dst_addr;
      }
          ∷ result_list,
    )
