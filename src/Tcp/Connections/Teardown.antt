-- ===== src/Tcp/Connections/Teardown.antt =====
-- The close of a connection with nothing in flight, one side after the other.
use tns.Common.{ℕ, ◌+◌, ◌<◌, ◌≡◌, refl, false, Option, some, ◌>>=◌, to_u16, u32_mod, arith}
use tns.Tcp.States.{State}
use tns.Tcp.RecvBuffer
use tns.Tcp.RecvBuffer.{RecvBuffer}
use tns.Tcp.Sockets
use tns.Tcp.Sockets.{
  NormalSocket, Effect, send_packet, v_close, close_as, send_fin, send_packet_queued,
  send_packet_no_retransmit,
}
use tns.Tcp.Handlers.{event_handler}
use tns.Tcp.Connections.Handshake.{first_event}
use tns.Tcp.Connections.Closing.{
  IsIdle, finished, close-active, close-passive, fin-event, ack-event, told, acknowledged,
  handle_fin-established, handle_fin-fin_wait2, handle_ack-fin_wait1, handle_ack-last_ack,
}

-- `client` closes, `server` closes when it has seen that, and all four packets arrive.
unfoldable pub teardown : ℕ → ℕ → NormalSocket → NormalSocket → Option (NormalSocket × NormalSocket)
teardown cap now client server = do
  (o1, c1, fin1) ← v_close cap client now
  e1 ← first_event fin1 server.tuple
  s1 ← event_handler cap server false e1 now
  e2 ← first_event s1.effects client.tuple
  c2 ← event_handler cap c1 false e2 now
  (o2, s2, fin2) ← v_close cap s1.sock now
  e3 ← first_event fin2 client.tuple
  c3 ← event_handler cap c2.sock false e3 now
  e4 ← first_event c3.effects server.tuple
  s3 ← event_handler cap s2 false e4 now
  some (c3.sock, s3.sock)

-- Between two established sockets with nothing in flight or unsent and no probe under way, each
-- waiting for the number that the other sends next, a close on one side and then on the other, whose
-- four packets arrive, leaves the first socket in TIME-WAIT and the second closed. The numbers are
-- neither 0 nor the last one.
pub teardown-closes :
    (cap now x y : ℕ) (c s : NormalSocket)
    → IsIdle x c
    → IsIdle y s
    → c.recv_buffer.nxt ≡ y
    → s.recv_buffer.nxt ≡ x
    → c.state ≡ State.established
    → s.state ≡ State.established
    → 0 < x
    → 0 < y
    → x + 1 < u32_mod
    → y + 1 < u32_mod
    → (c3 : NormalSocket) × (s3 : NormalSocket) × (teardown cap now c s ≡ some (c3, s3))
      × (c3.state ≡ State.time_wait now)
      × (s3.state ≡ State.closed)
unfolding teardown Sockets.shutdown_recv
teardown-closes cap now x y c s ic is cr sr cs ss px py fx fy =
    let X = c.send_buffer.nxt in
    let Y = s.send_buffer.nxt in
    let s1 = record (Sockets.shutdown_recv (told s X)) { state = State.close_wait } in
    let w1 = to_u16 (RecvBuffer.size_free cap (told s X).recv_buffer) in
    let c1 = finished cap State.fin_wait1 c now in
    let c2 = acknowledged c1 State.fin_wait2 w1 now in
    let s2 = finished cap State.last_ack s1 now in
    let c3 = record (told c2 Y) { state = State.time_wait now } in
    let w2 = to_u16 (RecvBuffer.size_free cap (told c2 Y).recv_buffer) in
    let s3 = record (Sockets.shutdown (acknowledged s2 State.last_ack w2 now)) {
      state = State.closed;
    } in
    let f1 = to_u16 (RecvBuffer.size_free cap c.recv_buffer) in
    let f2 = to_u16 (RecvBuffer.size_free cap s1.recv_buffer) in
    let is1 : IsIdle y s1 = record {
      una = is.una;
      nxt = is.nxt;
      nbw = is.nbw;
      queue = is.queue;
      no_probe = is.no_probe;
    } in
    let r1 = close-active cap x now c ic fx cs in
    let r2 = fin-event c.tuple s.tuple X f1 in
    let r3 =
      handle_fin-established cap Y X f1 now s ground (arith, is) ground (arith, is) refl ground
        (arith, ic, sr) ground (arith, ic) ss in
    let r4 = ack-event s.tuple c.tuple Y (X + 1) w1 in
    let r5 =
      handle_ack-fin_wait1 cap X Y w1 now c1 ground (arith, ic) refl ground (arith, is, cr)
        ic.no_probe refl in
    let r6 = close-passive cap y now s1 is1 fy refl in
    let r7 = fin-event s.tuple c.tuple Y f2 in
    let r8 =
      handle_fin-fin_wait2 cap (X + 1) Y f2 now c2 (omega arith) refl refl ground (arith, is, cr)
        ground (arith, is) refl in
    let r9 = ack-event c.tuple s.tuple (X + 1) (Y + 1) w2 in
    let r10 =
      handle_ack-last_ack cap Y (X + 1) w2 now s2 ground (arith, is) refl is.no_probe refl in
    (c3, s3, rw (r1, r2, r3, r4, r5, r6, r7, r8, r9, r10) refl, refl, refl)
