-- ===== src/Addr/Examples.antt =====
-- Addresses to run the functions of neat_addr.c on.
use neat.Base.{ℕ, ◌≡◌, ◌↔◌, refl, true, [], ◌∷◌, some, replicate}
use neat.Addr.{SockAddr, inet, inet6, NeatAddr, Ctx, update_src_list, sockaddr_storage_cmp, equal}
use neat.Addr.Keys.{IsValid}
use neat.Addr.Source.{update_src_list-IsValid}
use neat.Addr.Order.{compared, sockaddr_storage_cmp-equal}

-- 10.0.0.1, and fe80:: on two ports.
abbrev lan : SockAddr
lan = inet 0 0x0a000001

abbrev local : ℕ → SockAddr
local port = inet6 port 0 (254 ∷ 128 ∷ replicate 14 0) 2

abbrev known : NeatAddr
known = record { if_idx = 2; addr = local 0; prefix_length = 64; ifa_pref = 3; ifa_valid = 9 }

abbrev one_address : Ctx
one_address = record { src_addrs = known ∷ []; src_addr_cnt = 1; events = [] }

one_address-IsValid : IsValid one_address
one_address-IsValid = record { counted = refl; unique = (tt, tt) }

update_src_list-IsValid_example : IsValid (update_src_list one_address lan 1 true 8 0 0 true).1
update_src_list-IsValid_example =
    update_src_list-IsValid one_address lan 1 true 8 0 0 true one_address-IsValid

-- Two ports of one IPv6 address.
sockaddr_storage_cmp-equal_example :
    (sockaddr_storage_cmp (local 80) (local 443) ≡ some equal)
    ↔ (compared (local 80) ≡ compared (local 443))
sockaddr_storage_cmp-equal_example = sockaddr_storage_cmp-equal (local 80) (local 443) refl refl
