-- ===== src/Tcp/States.antt =====
-- lib/include/tcp/states.hpp and lib/src/tcp/states.cpp: the states of a connection and the events
-- that packets stand for. `SynReceived` names its listener by the socket's id, and `TimeWait` the
-- time, in ns, at which it began. Who waits on a `SynSent` is told by the effects of `Sockets`.
use tns.Common.{ℕ, ◌+◌, ◌-◌, Bool, Option, none, some, List, ◌==◌, ltb, if◌then◌else◌}
use tns.Tcp.Packet.{SessionTuple, Packet, th_fin, th_syn, th_ack}

pub data State : Type 0 where
  closed listen syn_sent established fin_wait1 fin_wait2 close_wait closing last_ack : State
  syn_received : ℕ → State
  time_wait : ℕ → State

-- `TimeWait::isExpired`
unfoldable pub is_expired : ℕ → ℕ → Bool
is_expired began now = ltb 10_000_000_000 (now - began)

pub data Event : Type 0 where
  close : Event
  get_syn : (session : SessionTuple) (client_isn client_wnd : ℕ) → Event
  get_syn_ack : (server_isn ack_num server_wnd : ℕ) → Event
  get_ack : (seq_num ack_num wnd_size : ℕ) (payload : List ℕ) → Event
  get_fin : (seq_num wnd_size : ℕ) → Event
  get_fin_ack : (seq_num ack_num wnd_size : ℕ) → Event

-- `events::fromPacket`; `none` is an unsupported combination of flags.
unfoldable pub from_packet : Packet → SessionTuple → Option Event
from_packet p session =
    if p.flags == th_syn
    then some (get_syn session p.seq_num p.wnd_size)
    else if p.flags == th_syn + th_ack
    then some (get_syn_ack p.seq_num p.ack_num p.wnd_size)
    else if p.flags == th_ack
    then some (get_ack p.seq_num p.ack_num p.wnd_size p.payload)
    else if p.flags == th_fin
    then some (get_fin p.seq_num p.wnd_size)
    else if p.flags == th_fin + th_ack
    then some (get_fin_ack p.seq_num p.ack_num p.wnd_size)
    else none
