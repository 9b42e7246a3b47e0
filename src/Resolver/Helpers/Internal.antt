-- ===== src/Resolver/Helpers/Internal.antt =====
-- Which addresses `nt_resolver_helpers_addr_internal` calls internal.
use neat.Base.{ℕ, ◌≡◌, refl, Bool, List, some, arith, leb, not, ◌&&◌, ◌||◌}
use neat.Addr.{inet, inet6}
use neat.Resolver.Helpers.{in_net, first_byte, addr_internal}

-- a lies between the first and the last address of a range.
abbrev pub between : ℕ → ℕ → ℕ → Bool
between first last a = leb first a && leb a last

in_net_8 : (a : ℕ) → in_net a 24 0x0a000000 ≡ between 0x0a000000 0x0affffff a
unfolding in_net
in_net_8 a = ground arith

in_net_12 : (a : ℕ) → in_net a 20 0xac100000 ≡ between 0xac100000 0xac1fffff a
unfolding in_net
in_net_12 a = ground arith

in_net_16 : (a : ℕ) → in_net a 16 0xc0a80000 ≡ between 0xc0a80000 0xc0a8ffff a
unfolding in_net
in_net_16 a = ground arith

in_net_7 : (a : ℕ) → in_net a 1 0xfc ≡ between 0xfc 0xfd a
unfolding in_net
in_net_7 a = ground arith

-- An IPv4 address is internal if it lies in 10.0.0.0/8, 172.16.0.0/12 or 192.168.0.0/16; an IPv6
-- address is called internal if its first byte is not that of fc00::/7, the unique local
-- addresses.
addr_internal-ranges :
    ((port addr : ℕ)
      → addr_internal (inet port addr)
        ≡ some (
            between 0x0a000000 0x0affffff addr
            || between 0xac100000 0xac1fffff addr
            || between 0xc0a80000 0xc0a8ffff addr))
    × ((port flowinfo : ℕ) (bytes : List ℕ) (scope_id : ℕ)
        → addr_internal (inet6 port flowinfo bytes scope_id)
          ≡ some (not (between 0xfc 0xfd (first_byte bytes))))
unfolding addr_internal
addr_internal-ranges = (
  λ port addr. rw (in_net_8 addr, in_net_12 addr, in_net_16 addr) refl,
  λ port flowinfo bytes scope_id. rw (in_net_7 (first_byte bytes)) refl,
)
