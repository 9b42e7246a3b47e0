-- ===== src/Transports.antt =====
-- neat_json_helpers.c: the names of the transports, and those that a flow's properties enable, in a
-- build without BANNED_ENABLED.
pub mod Names
mod Examples
use neat.Base.{
  ℕ, ◌+◌, ℤ, Bool, true, false, List, [], ◌∷◌, Option, none, some, String, same_string, pos, ◌==◌,
  if◌then◌else◌,
}
use neat.Flow.Stack.{Stack, udp, udplite, tcp, mptcp, sctp, sctp_udp, webrtc}

-- `neat_transports`, with the names by their ASCII codes.
abbrev pub transports : List (String × Stack)
transports =
    (84 ∷ 67 ∷ 80 ∷ [], tcp)
    ∷ (77 ∷ 80 ∷ 84 ∷ 67 ∷ 80 ∷ [], mptcp)
    ∷ (83 ∷ 67 ∷ 84 ∷ 80 ∷ [], sctp)
    ∷ (85 ∷ 68 ∷ 80 ∷ [], udp)
    ∷ (85 ∷ 68 ∷ 80 ∷ 108 ∷ 105 ∷ 116 ∷ 101 ∷ [], udplite)
    ∷ (85 ∷ 68 ∷ 80 ∷ 76 ∷ 105 ∷ 116 ∷ 101 ∷ [], udplite)
    ∷ (85 ∷ 68 ∷ 80 ∷ 45 ∷ 76 ∷ 105 ∷ 116 ∷ 101 ∷ [], udplite)
    ∷ (85 ∷ 68 ∷ 80 ∷ 45 ∷ 108 ∷ 105 ∷ 116 ∷ 101 ∷ [], udplite)
    ∷ (85 ∷ 68 ∷ 80 ∷ 76 ∷ 73 ∷ 84 ∷ 69 ∷ [], udplite)
    ∷ (83 ∷ 67 ∷ 84 ∷ 80 ∷ 47 ∷ 85 ∷ 68 ∷ 80 ∷ [], sctp_udp)
    ∷ (87 ∷ 69 ∷ 66 ∷ 82 ∷ 84 ∷ 67 ∷ [], webrtc)
    ∷ []

-- The values of the enumeration.
abbrev pub stack_value : Stack → ℕ
stack_value udp = 1
stack_value udplite = 2
stack_value tcp = 3
stack_value mptcp = 4
stack_value sctp = 5
stack_value sctp_udp = 6
stack_value webrtc = 7

-- The loops over the table.
unfoldable pub find_name : List (String × Stack) → String → Option Stack
unfolding same_string
find_name [] str = none
find_name ((name, stack) ∷ ts) str = if same_string str name then some stack else find_name ts str

unfoldable pub find_stack : List (String × Stack) → Stack → Option String
find_stack [] stack = none
find_stack ((name, s) ∷ ts) stack =
    if stack_value stack == stack_value s then some name else find_stack ts stack

-- `string_to_stack`; `none` is 0.
unfoldable pub string_to_stack : String → Option Stack
unfolding find_name
string_to_stack str = find_name transports str

-- `stack_to_string`; `none` is NULL.
unfoldable pub stack_to_string : Stack → Option String
unfolding find_stack
stack_to_string stack = find_stack transports stack

-- The value of the transport property: a string, an array or another JSON value. The elements of an
-- array are strings; of another element the source gives NULL to strcmp.
pub data Value : Type 0 where
  string : String → Value
  array : List String → Value
  another : Value

-- The transport property: an object with a precedence and perhaps a value, something else, or none.
pub data Property : Type 0 where
  object : (precedence : ℤ) → Option Value → Property
  no_object missing : Property

-- The stacks of an array, each with the precedence that it is given.
unfoldable pub known_stacks : ℤ → List String → List (Stack × ℤ)
unfolding string_to_stack
known_stacks precedence [] = []
known_stacks precedence (s ∷ ss) = elim (string_to_stack s) [
  | none ↦ known_stacks precedence ss
  | some stack ↦ (stack, precedence) ∷ known_stacks precedence ss
]

-- The value of the fallback: TCP, SCTP and MPTCP.
abbrev pub fallback : List String
fallback = (84 ∷ 67 ∷ 80 ∷ []) ∷ (83 ∷ 67 ∷ 84 ∷ 80 ∷ []) ∷ (77 ∷ 80 ∷ 84 ∷ 67 ∷ 80 ∷ []) ∷ []

-- `nt_find_enabled_stacks`: what it writes to `stacks` and `precedences`, as many as `*stack_count`;
-- none is the assertion that the object has a value.
unfoldable pub find_enabled_stacks : Property → Option (List (Stack × ℤ))
unfolding known_stacks
find_enabled_stacks missing = some (known_stacks (pos 0) fallback)
find_enabled_stacks no_object = some []
find_enabled_stacks (object precedence none) = none
find_enabled_stacks (object precedence (some another)) = some []
find_enabled_stacks (object precedence (some (string s))) = some (known_stacks precedence (s ∷ []))
find_enabled_stacks (object precedence (some (array ss))) = some (known_stacks precedence ss)
