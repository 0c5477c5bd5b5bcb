-- ===== src/Nodes/Files.antt =====
-- lib/include/host_node.hpp, the loop of `tcpRecvFile`: a file is received into a buffer of `max` bytes,
-- of which `received` are the first `total`.
use tns.Common.{ℕ, ◌-◌, Option, some, List, ◌++◌, length, ◌>>=◌}
use tns.Tcp.SocketError.{SocketError, closing, Outcome, waits, value, error}
use tns.Tcp.Sockets.{NormalSocket}
use tns.Tcp.Sockets

pub data Progress : Type 0 where
  goes_on ended : List ℕ → Progress
  failed : SocketError → Progress

unfoldable pub progress : List ℕ → Outcome (List ℕ) → Progress
progress received waits = goes_on received
progress received (value bytes) = goes_on (received ++ bytes)
progress received (error e) = elim e [ closing ↦ ended received | other ↦ failed other ]

-- A round of the loop; that of a call that waits is made again.
unfoldable pub receive_round : ℕ → ℕ → NormalSocket → List ℕ → Option (Progress × NormalSocket)
unfolding progress
receive_round cap max s received = do
  (o, s') ← Sockets.v_recv cap s (max - length received)
  some (progress received o, s')
