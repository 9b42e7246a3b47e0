-- ===== src/Transports/Examples.antt =====
-- A transport property to look at.
use neat.Base.{◌≡◌, some, [], ◌∷◌, pos}
use neat.Flow.Stack.{tcp, sctp}
use neat.Transports.{object, array, find_enabled_stacks}
use neat.Transports.Names.{names_of, find_enabled_stacks-names_of}

find_enabled_stacks-names_of_example :
    find_enabled_stacks (object (pos 2) (some (array (names_of (sctp ∷ tcp ∷ [])))))
    ≡ some ((sctp, pos 2) ∷ (tcp, pos 2) ∷ [])
find_enabled_stacks-names_of_example = find_enabled_stacks-names_of (pos 2) (sctp ∷ tcp ∷ [])
