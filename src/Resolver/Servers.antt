-- ===== src/Resolver/Servers.antt =====
-- The list of name servers: neat_resolver_conf.c. An address is its family and its bytes; inet_pton is
-- a parameter, and the file is the list of what fgets returns.
pub mod Marks
use neat.Base.{
  String, same_string, ℕ, Bool, true, false, ◌&&◌, ◌||◌, List, [], ◌∷◌, ◌++◌, Option, none, some,
  ◌==◌, if◌then◌else◌,
}
use neat.Resolver.Duplicates.{Pton}

pub record Address : Type 0 where
  pub family : ℕ
  pub bytes : List ℕ

-- `enum neat_resolver_mark`.
pub data Mark : Type 0 where
  static delete active : Mark

-- `struct neat_resolver_server`.
pub record Server : Type 0 where
  pub server_addr : Address
  pub mark : Mark

abbrev pub same_address : Address → Address → Bool
same_address a b = (a.family == b.family) && same_string a.bytes b.bytes

-- `nt_resolver_reset_mark`.
abbrev pub doomed : Mark → Mark
doomed static = static
doomed mark = delete

unfoldable pub reset_mark : List Server → List Server
reset_mark [] = []
reset_mark (server ∷ servers) = record server { mark = doomed server.mark } ∷ reset_mark servers

abbrev pub is_delete : Mark → Bool
is_delete delete = true
is_delete mark = false

-- `nt_resolver_delete_servers`.
unfoldable pub delete_servers : List Server → List Server
delete_servers [] = []
delete_servers (server ∷ servers) =
    let rest = delete_servers servers in if is_delete server.mark then rest else server ∷ rest

-- The loop of `nt_resolver_resolv_check_addr`: none if the address is not there.
unfoldable pub mark_active : List Server → Address → Option (List Server)
mark_active [] dst_addr = none
mark_active (server ∷ servers) dst_addr =
    if same_address server.server_addr dst_addr
    then some (record server { mark = active } ∷ servers)
    else elim (mark_active servers dst_addr) [ none ↦ none | some rest ↦ some (server ∷ rest) ]

-- `nt_resolver_resolv_check_addr`, by whether calloc succeeds.
unfoldable pub check_addr : Bool → List Server → Address → List Server
check_addr allocated servers dst_addr = elim (mark_active servers dst_addr) [
  | some marked ↦ marked
  | none ↦ if allocated then record { server_addr = dst_addr; mark = active } ∷ servers else servers
]

-- The characters between the words of a line: blank, tab, carriage return and newline.
abbrev pub is_delimiter : ℕ → Bool
is_delimiter c = (c == 32) || (c == 9) || (c == 13) || (c == 10)

-- strtok: what it skips, and the word in front of the next delimiter with what is behind.
unfoldable pub skip_delimiters : String → String
skip_delimiters [] = []
skip_delimiters (c ∷ s) = let rest = skip_delimiters s in if is_delimiter c then rest else c ∷ s

unfoldable pub first_word : String → String × String
first_word [] = ([], [])
first_word (c ∷ s) =
    let (word, rest) = first_word s in if is_delimiter c then ([], s) else (c ∷ word, rest)

abbrev pub token_of : String → Option (String × String)
token_of [] = none
token_of (c ∷ s) = some (first_word (c ∷ s))

unfoldable pub strtok : String → Option (String × String)
strtok s = token_of (skip_delimiters s)

abbrev pub nameserver : String
nameserver = 110 ∷ 97 ∷ 109 ∷ 101 ∷ 115 ∷ 101 ∷ 114 ∷ 118 ∷ 101 ∷ 114 ∷ []

abbrev pub server_word : String
server_word = 115 ∷ 101 ∷ 114 ∷ 118 ∷ 101 ∷ 114 ∷ []

-- The address that inet_pton makes of a word; AF_INET is 2 and AF_INET6 10.
unfoldable pub parse_address : Pton → String → Option Address
parse_address pton token = elim (pton.to_v4 token) [
  | some bytes ↦ some (record { family = 2; bytes = bytes })
  | none ↦ elim (pton.to_v6 token) [
    | some bytes ↦ some (record { family = 10; bytes = bytes })
    | none ↦ none
  ]
]

-- The address in a line of resolv.conf.
unfoldable pub line_address : Pton → String → Option Address
line_address pton line = elim (strtok line) [
  | none ↦ none
  | some (token, rest) ↦
      if same_string token nameserver || same_string token server_word
      then elim (strtok rest) [ none ↦ none | some (name, more) ↦ parse_address pton name ]
      else none
]

-- The loop over the lines.
unfoldable pub read_lines : Bool → Pton → List Server → List String → List Server
read_lines allocated pton servers [] = servers
read_lines allocated pton servers (line ∷ lines) = elim (line_address pton line) [
  | none ↦ read_lines allocated pton servers lines
  | some address ↦ read_lines allocated pton (check_addr allocated servers address) lines
]

-- `nt_resolver_resolv_conf_updated`; `lines` is none if the event is another or the file cannot be
-- opened.
unfoldable pub resolv_conf_updated : Bool → Pton → Option (List String) → List Server → List Server
resolv_conf_updated allocated pton none servers = servers
resolv_conf_updated allocated pton (some lines) servers =
    delete_servers (read_lines allocated pton (reset_mark servers) lines)

-- What the 16 bytes of an IPv6 address hold once inet_pton has written an IPv4 address there.
abbrev pub stored : ℕ → List ℕ → List ℕ
stored family bytes =
    if family == 2 then bytes else bytes ++ 0 ∷ 0 ∷ 0 ∷ 0 ∷ 0 ∷ 0 ∷ 0 ∷ 0 ∷ 0 ∷ 0 ∷ 0 ∷ 0 ∷ []

-- A loop of `neat_resolver_add_initial_servers`, with whether calloc succeeds for each name; both
-- loops hand the names to inet_pton with AF_INET.
unfoldable pub add_names : Pton → ℕ → List (String × Bool) → List Server → Option (List Server)
add_names pton family [] servers = some servers
add_names pton family ((name, allocated) ∷ names) servers = elim (pton.to_v4 name) [
  | none ↦ add_names pton family names servers
  | some bytes ↦
      let address : Address = record { family = family; bytes = stored family bytes } in
      let more =
        add_names pton family names (record { server_addr = address; mark = static } ∷ servers) in
      if allocated then more else none
]

-- `neat_resolver_add_initial_servers`, with the names in INET_DNS_SERVERS and INET6_DNS_SERVERS.
unfoldable pub add_initial_servers :
    Bool
    → Pton
    → List (String × Bool)
    → List (String × Bool)
    → Option (List String)
    → Option (List Server)
add_initial_servers allocated pton names names6 lines = elim (add_names pton 2 names []) [
  | none ↦ none
  | some servers ↦ elim (add_names pton 10 names6 servers) [
    | none ↦ none
    | some more ↦ some (resolv_conf_updated allocated pton lines more)
  ]
]
