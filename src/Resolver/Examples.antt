-- ===== src/Resolver/Examples.antt =====
-- Nodes and lists to run the functions of neat_resolver_helpers.c and neat_resolver_conf.c on.
use neat.Base.{
  String, same_string, List, ◌++◌, false, [], ◌∷◌, some, none, ◌==◌, ◌≡◌, ◌↔◌, true, refl,
}
use neat.Resolver.Servers.{
  static, active, Server, reset_mark, delete_servers, mark_active, check_addr, skip_delimiters,
  first_word, strtok, nameserver, parse_address, line_address, read_lines, resolv_conf_updated,
  add_names, add_initial_servers,
}
use neat.Resolver.Servers.Marks.{Updated, resolv_conf_updated-Updated}
use neat.Resolver.Helpers.{Pton, unspec, check_for_literal}
use neat.Resolver.Duplicates.{Pair, check_duplicate}
use neat.Resolver.Duplicates.Seen.{IsSeen, check_duplicate-IsSeen}
use neat.Resolver.Helpers.Literals.{Says, names, check_for_literal-Says}

-- The single characters 4 and 6 are literals of the two families.
abbrev digits : Pton
digits = record {
  is_v4 = λ name. elim name [ [] ↦ false | ◌∷◌ c l ↦ c == 52 ];
  is_v6 = λ name. elim name [ [] ↦ false | ◌∷◌ c l ↦ c == 54 ];
}

check_for_literal-Says_example :
    Says digits (names (52 ∷ 44 ∷ 54 ∷ [])) (check_for_literal digits unspec (52 ∷ 44 ∷ 54 ∷ []))
check_for_literal-Says_example = check_for_literal-Says digits unspec (52 ∷ 44 ∷ 54 ∷ [])

-- A pair of the second interface that has resolved two addresses.
abbrev resolved_pair : Pair
resolved_pair = record {
  src_addr = record { if_idx = 2; family = 2; address = 10 ∷ 0 ∷ 0 ∷ 1 ∷ [] };
  resolved_addr = some (8 ∷ 8 ∷ 8 ∷ 8 ∷ []) ∷ some (9 ∷ 9 ∷ 9 ∷ 9 ∷ []) ∷ none ∷ [];
}

check_duplicate-IsSeen_example :
    (check_duplicate
        (record { to_v4 = λ name. some name; to_v6 = λ name. none })
        resolved_pair
        (resolved_pair ∷ [])
        (9 ∷ 9 ∷ 9 ∷ 9 ∷ [])
      ≡ true)
    ↔ IsSeen resolved_pair.src_addr (9 ∷ 9 ∷ 9 ∷ 9 ∷ []) (resolved_pair ∷ [])
check_duplicate-IsSeen_example =
    check_duplicate-IsSeen (record { to_v4 = λ name. some name; to_v6 = λ name. none })
      resolved_pair (resolved_pair ∷ []) (9 ∷ 9 ∷ 9 ∷ 9 ∷ []) (9 ∷ 9 ∷ 9 ∷ 9 ∷ []) refl

-- The servers 8, which is static, and 9, and a file whose only line names one.
abbrev two_servers : List Server
two_servers =
    record { server_addr = record { family = 2; bytes = 56 ∷ [] }; mark = static }
    ∷ record { server_addr = record { family = 2; bytes = 57 ∷ [] }; mark = active }
    ∷ []

abbrev names_server : String → List String
names_server name = (nameserver ++ 32 ∷ name ++ 10 ∷ []) ∷ []

resolv_conf_updated-Updated_example :
    Updated
      (record { to_v4 = λ name. some name; to_v6 = λ name. none })
      (names_server (56 ∷ []))
      two_servers
      (resolv_conf_updated true
        (record { to_v4 = λ name. some name; to_v6 = λ name. none })
        (some (names_server (56 ∷ [])))
        two_servers)
unfolding same_string
resolv_conf_updated-Updated_example =
    resolv_conf_updated-Updated (record { to_v4 = λ name. some name; to_v6 = λ name. none })
      (names_server (56 ∷ [])) two_servers (refl, (refl, tt))

-- The static server, named once and then no longer, is gone.
static_is_lost :
    resolv_conf_updated true
      (record { to_v4 = λ name. some name; to_v6 = λ name. none })
      (some [])
      (resolv_conf_updated true
        (record { to_v4 = λ name. some name; to_v6 = λ name. none })
        (some (names_server (56 ∷ [])))
        two_servers)
    ≡ []
unfolding resolv_conf_updated reset_mark read_lines line_address strtok skip_delimiters first_word
    parse_address check_addr mark_active delete_servers same_string
static_is_lost = refl

-- A name of an IPv6 server is not added.
ipv6_is_skipped :
    add_initial_servers true
      (record { to_v4 = λ name. none; to_v6 = λ name. some name })
      []
      ((58 ∷ 58 ∷ 56 ∷ [], true) ∷ [])
      none
    ≡ some []
unfolding add_initial_servers add_names resolv_conf_updated
ipv6_is_skipped = refl
