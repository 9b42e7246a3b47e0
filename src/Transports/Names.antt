-- ===== src/Transports/Names.antt =====
-- What the names of the transports stand for.
use neat.Base.{◌≡◌, refl, ap, some, List, [], ◌∷◌, String, ℤ, map}
use neat.Flow.Stack.{Stack, udp, udplite, tcp, mptcp, sctp, sctp_udp, webrtc}
use neat.Transports.{
  string_to_stack, stack_to_string, object, array, find_enabled_stacks, known_stacks,
}

-- Every stack has a name, and that name stands for the stack.
pub string_to_stack-stack_to_string :
    (stack : Stack)
    → (name : String) × (stack_to_string stack ≡ some name) × (string_to_stack name ≡ some stack)
unfolding string_to_stack stack_to_string
string_to_stack-stack_to_string udp = (_, refl, refl)
string_to_stack-stack_to_string udplite = (_, refl, refl)
string_to_stack-stack_to_string tcp = (_, refl, refl)
string_to_stack-stack_to_string mptcp = (_, refl, refl)
string_to_stack-stack_to_string sctp = (_, refl, refl)
string_to_stack-stack_to_string sctp_udp = (_, refl, refl)
string_to_stack-stack_to_string webrtc = (_, refl, refl)

-- The names of a list of stacks.
abbrev pub names_of : List Stack → List String
names_of [] = []
names_of (s ∷ ss) = (string_to_stack-stack_to_string s).0 ∷ names_of ss

known_stacks-names_of :
    (p : ℤ) (stacks : List Stack) → known_stacks p (names_of stacks) ≡ map (λ s. (s, p)) stacks
unfolding known_stacks
known_stacks-names_of p [] = refl
known_stacks-names_of p (s ∷ ss) =
    let (name, known, e) = string_to_stack-stack_to_string s in
    rw (e, known_stacks) (ap (λ l. (s, p) ∷ l) (known_stacks-names_of p ss))

-- A transport property that lists the names of some stacks enables these stacks, in that order,
-- each with the precedence of the property.
pub find_enabled_stacks-names_of :
    (precedence : ℤ) (stacks : List Stack)
    → find_enabled_stacks (object precedence (some (array (names_of stacks))))
      ≡ some (map (λ s. (s, precedence)) stacks)
unfolding find_enabled_stacks
find_enabled_stacks-names_of precedence stacks =
    ap (λ l. some l) (known_stacks-names_of precedence stacks)
