-- ===== src/Tcp/Sockets/Probing.antt =====
-- A zero window probe of a socket, from the end of the countdown to its acknowledgement.
use tns.Common.{
  ℕ, ◌+◌, ◌<◌, ◌≡◌, refl, true, false, none, some, [], ◌∷◌, arith, length, to_u16, leb, ltb, ◌||◌,
  u32_mod, get_or, ◌%◌,
}
use tns.Tcp.Packet.{Packet, make_packet, make_ack_packet}
use tns.Tcp.SocketError.{waits, value}
use tns.Tcp.Retransmission
use tns.Tcp.Retransmission.{Entry}
use tns.Tcp.RecvBuffer.{get_ack_wnd}
use tns.Tcp.SendBuffer.{
  SendBuffer, countdown, wait_ack, on_ack, probe_on_ack, zwp_countdown, zwp_wait_ack,
}
use tns.Tcp.SendBuffer.Invariant.{IsValid, sizes}
use tns.Tcp.SendBuffer.Stream.{Sends}
use tns.Tcp.SendBuffer.Probe.{zwp_countdown-Sends}
use tns.Tcp.Sockets.{NormalSocket, send_packet, send_zwp_packet, zwp_round}

-- A probe of the byte `byte` at `seq` is out, in the packet `p`.
record IsOut (seq : ℕ) (p : Packet) (now : ℕ) (b : SendBuffer) : Type 0 where
  pub run : b.stopped ≡ false
  pub state : b.zwp_state ≡ wait_ack
  pub at : b.zwp_seq ≡ seq
  pub entry :
      b.retransmit_queue.zwp_entry ≡ some (record { packet = p; last_sent = now; counter = 0 })
  pub from : p.seq_num ≡ seq
  pub one : length p.payload ≡ 1

-- What the acknowledgement of a probe leaves.
pub record IsAnswered (ack_num wnd_size : ℕ) (b : SendBuffer) : Type 0 where
  pub ends : zwp_wait_ack b ≡ value tt
  pub una : b.una ≡ ack_num
  pub wnd : b.wnd ≡ wnd_size
  pub no_probe : b.retransmit_queue.zwp_entry ≡ none

on_ack-IsAnswered :
    (cap : ℕ) (b : SendBuffer) (seq : ℕ) (p : Packet) (sent wnd_size now : ℕ)
    → IsValid cap b
    → IsOut seq p sent b
    → b.una < seq + 1
    → b.nxt ≡ seq + 1
    → wnd_size < u32_mod
    → IsAnswered (seq + 1) wnd_size (on_ack b (seq + 1) wnd_size now).1
unfolding on_ack probe_on_ack zwp_wait_ack Retransmission.on_ack Retransmission.drop_zwp
on_ack-IsAnswered cap b seq p sent wnd_size now v o below next k =
    let t1 : leb b.una (seq + 1) ≡ true = ground arith in
    let t2 : (leb (seq + 1) b.una || ltb b.nxt (seq + 1)) ≡ false = ground arith in
    let t3 : ltb b.zwp_seq (seq + 1) ≡ true = ground (arith, o) in
    let t4 : leb (p.seq_num + length p.payload) (seq + 1) ≡ true = ground (arith, o) in
    rw (t1, t2, o.state, t3, o.entry, t4)
      (record { ends = rw o.run refl; una = refl; wnd = refl; no_probe = refl })

-- When the countdown of a valid send buffer that is not stopped ends with the window still closed, with
-- bytes left to send and no probe queued, the probing thread sends a packet with the next byte not
-- sent, at its number, which moves to those in flight, and waits. The ACK of that byte ends the wait,
-- moves `una` past the byte, takes over the window that it tells, and drops the probe from the queue.
pub zwp_round-Probes :
    (cap : ℕ) (s : NormalSocket) (now wnd_size later : ℕ)
    → IsValid cap s.send_buffer
    → s.send_buffer.stopped ≡ false
    → s.send_buffer.zwp_state ≡ countdown
    → s.send_buffer.wnd ≡ 0
    → s.send_buffer.nxt < s.send_buffer.nbw
    → s.send_buffer.retransmit_queue.zwp_entry ≡ none
    → wnd_size < u32_mod
    → let b = s.send_buffer in
      let (ack, wnd) = get_ack_wnd cap s.recv_buffer in
      (byte : ℕ) × (s' : NormalSocket) × (zwp_round cap s true now
        ≡ some (
          value tt,
          s',
          send_packet (make_ack_packet s.tuple b.nxt ack (to_u16 wnd) (byte ∷ [])) s.tuple.remote
              ∷ [],
        ))
      × Sends cap b 1 (byte ∷ []) s'.send_buffer
      × (zwp_wait_ack s'.send_buffer ≡ waits)
      × IsAnswered (b.nxt + 1) wnd_size (on_ack s'.send_buffer (b.nxt + 1) wnd_size later).1
unfolding zwp_round zwp_countdown send_zwp_packet Retransmission.enqueue_zwp zwp_wait_ack
    make_ack_packet make_packet
zwp_round-Probes cap s now wnd_size later v run state shut left no_probe k =
    let b = s.send_buffer in
    let sz = sizes cap b v in
    let byte = get_or b.buf (b.nxt % cap) 0 in
    let (ack, wnd) = get_ack_wnd cap s.recv_buffer in
    let p = make_ack_packet s.tuple b.nxt ack (to_u16 wnd) (byte ∷ []) in
    let c = record b { zwp_state = wait_ack; zwp_seq = b.nxt; nxt = b.nxt + 1 } in
    let probe : zwp_countdown cap b true ≡ (value (some (b.nxt, byte)), c) =
      ground (arith, run, shut, left, sz, v) in
    let entry : Entry = record { packet = p; last_sent = now; counter = 0 } in
    let b' = record c { retransmit_queue = record b.retransmit_queue { zwp_entry = some entry } } in
    let (at, sends) = zwp_countdown-Sends cap b c true b.nxt byte v probe in
    (
      byte,
      record s { send_buffer = b' },
      ground (arith, probe, state, no_probe),
      record {
        count = sends.count;
        next = sends.next;
        una = sends.una;
        nbw = sends.nbw;
        wnd = sends.wnd;
        sent = sends.sent;
        left = sends.left;
        holds = sends.holds;
        flight = sends.flight;
        valid = let w = sends.valid in ground (arith, w);
      },
      rw run refl,
      on_ack-IsAnswered cap b' b.nxt p now wnd_size later ground (arith, sends)
          (record { run = run; state = refl; at = refl; entry = refl; from = refl; one = refl })
          (omega (arith, v.una_nxt)) refl k,
    )
