-- ===== src/Qos/Examples.antt =====
-- A marking to run the functions of neat_qos.c on.
use neat.Base.{◌≡◌, [], ◌∷◌, true}
use neat.Flow.Stack.{udp}
use neat.Flow.State.{Code}
use neat.Qos.{ip_tos, set_qos, set_ecn}
use neat.Qos.Marks.{set_ecn-set_qos}

set_ecn-set_qos_example :
    (set_ecn (set_qos (record { qos = 1; ecn = 3 }) udp 46 true).0 udp 2 true).1
    ≡ (Code.ok, ip_tos 186 ∷ [])
set_ecn-set_qos_example = set_ecn-set_qos (record { qos = 1; ecn = 3 }) 46 2
