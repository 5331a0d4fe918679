-- ===== src/Udp/Examples.antt =====
-- The theorem about the sockets of the UDP proxy at a concrete input.
use lhotse_agent.Prelude.{true, false, [], ◌∷◌, some, codes}
use lhotse_agent.Udp.{datagram, new_udp_server, run}
use lhotse_agent.Udp.Sockets.{Accounts, run-new_udp_server}

-- A session whose second datagram cannot be written.
run-new_udp_server_example : Accounts (
    run
      (datagram (codes "a") (some (codes "b")) true true
        ∷ datagram (codes "a") (some (codes "b")) true false
        ∷ [])
      new_udp_server)
run-new_udp_server_example = run-new_udp_server (
    datagram (codes "a") (some (codes "b")) true true
    ∷ datagram (codes "a") (some (codes "b")) true false
    ∷ [])
