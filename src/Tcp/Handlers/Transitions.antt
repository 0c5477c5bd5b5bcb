-- ===== src/Tcp/Handlers/Transitions.antt =====
-- The states that the handlers move between.
use tns.Common.{ℕ, ◌≡◌, ◌⊎◌, inl, inr, refl, sym, subst, ◌∙◌, Bool, some, List, arith}
use tns.Tcp.States.{State, Event}
use tns.Tcp.Sockets.{NormalSocket}
use tns.Tcp.Handlers.{
  Handled, ignored, ack_sent, syn_sent_get_syn_ack, syn_received_get_ack, receive_data,
  data_state_get_ack, established_get_syn_ack, acknowledge_fin, established_get_fin,
  closing_state_get_fin, fin_wait1_get_ack, fin_wait2_get_fin, last_ack_get_ack, visit_handler,
  event_handler,
}

-- The part of RFC 9293's state diagram that the handlers implement, a packet at a time.
pub data Transition (now : ℕ) : State → Event → State → Type 0 where
  stays : {st : State} {e : Event} → Transition now st e st
  connected :
      {l seq ack wnd : ℕ} {payload : List ℕ}
      → Transition now (State.syn_received l) (Event.get_ack seq ack wnd payload) State.established
  peer_closed :
      {seq wnd : ℕ} → Transition now State.established (Event.get_fin seq wnd) State.close_wait
  peer_closed_ack :
      {seq ack wnd : ℕ}
      → Transition now State.established (Event.get_fin_ack seq ack wnd) State.close_wait
  fin_acked :
      {seq ack wnd : ℕ} {payload : List ℕ}
      → Transition now State.fin_wait1 (Event.get_ack seq ack wnd payload) State.fin_wait2
  both_closed :
      {seq wnd : ℕ} → Transition now State.fin_wait2 (Event.get_fin seq wnd) (State.time_wait now)
  done :
      {seq ack wnd : ℕ} {payload : List ℕ}
      → Transition now State.last_ack (Event.get_ack seq ack wnd payload) State.closed

data_state-state :
    (cap : ℕ) (s : NormalSocket) (seq ack wnd : ℕ) (payload : List ℕ) (now : ℕ) (h : Handled)
    → data_state_get_ack cap s seq ack wnd payload now ≡ some h
    → h.sock.state ≡ s.state
unfolding data_state_get_ack receive_data ack_sent
data_state-state cap s seq ack wnd payload now h e = ground arith

fin_wait1-state :
    (cap : ℕ) (s : NormalSocket) (seq ack wnd : ℕ) (payload : List ℕ) (now : ℕ) (h : Handled)
    → fin_wait1_get_ack cap s seq ack wnd payload now ≡ some h
    → (h.sock.state ≡ s.state) ⊎ (h.sock.state ≡ State.fin_wait2)
unfolding fin_wait1_get_ack receive_data ack_sent
fin_wait1-state cap s seq ack wnd payload now h e = ground arith

syn_sent-state :
    (cap : ℕ) (s : NormalSocket) (isn ack wnd : ℕ) (now : ℕ) (h : Handled)
    → syn_sent_get_syn_ack cap s isn ack wnd now ≡ some h
    → h.sock.state ≡ s.state
unfolding syn_sent_get_syn_ack ack_sent
syn_sent-state cap s isn ack wnd now h e = ground arith

syn_received-state :
    (l : ℕ) (s : NormalSocket) (p : Bool) (seq ack wnd : ℕ) (now : ℕ) (h : Handled)
    → syn_received_get_ack l s p seq ack wnd now ≡ some h
    → (h.sock.state ≡ s.state) ⊎ (h.sock.state ≡ State.established)
unfolding syn_received_get_ack ack_sent
syn_received-state l s p seq ack wnd now h e = ground arith

fin-state :
    (cap : ℕ) (s : NormalSocket) (seq wnd : ℕ) (now : ℕ)
    → (acknowledge_fin cap s seq wnd now).0.state ≡ s.state
unfolding acknowledge_fin ack_sent
fin-state cap s seq wnd now = ground arith

established_fin-state :
    (cap : ℕ) (s : NormalSocket) (seq wnd : ℕ) (now : ℕ) (h : Handled)
    → established_get_fin cap s seq wnd now ≡ some h
    → (h.sock.state ≡ s.state) ⊎ (h.sock.state ≡ State.close_wait)
unfolding established_get_fin
established_fin-state cap s seq wnd now h e = ground (arith, fin-state cap s seq wnd now)

fin_wait2-state :
    (cap : ℕ) (s : NormalSocket) (seq wnd : ℕ) (now : ℕ) (h : Handled)
    → fin_wait2_get_fin cap s seq wnd now ≡ some h
    → (h.sock.state ≡ s.state) ⊎ (h.sock.state ≡ State.time_wait now)
unfolding fin_wait2_get_fin
fin_wait2-state cap s seq wnd now h e = ground (arith, fin-state cap s seq wnd now)

closing_state-state :
    (cap : ℕ) (s : NormalSocket) (seq wnd : ℕ) (now : ℕ) (h : Handled)
    → closing_state_get_fin cap s seq wnd now ≡ some h
    → h.sock.state ≡ s.state
unfolding closing_state_get_fin
closing_state-state cap s seq wnd now h e = ground (arith, fin-state cap s seq wnd now)

last_ack-state :
    (s : NormalSocket) (ack wnd : ℕ) (now : ℕ) (h : Handled)
    → last_ack_get_ack s ack wnd now ≡ some h
    → (h.sock.state ≡ s.state) ⊎ (h.sock.state ≡ State.closed)
unfolding last_ack_get_ack ack_sent
last_ack-state s ack wnd now h e = ground arith

established_syn-state :
    (cap : ℕ) (s : NormalSocket) (ack wnd : ℕ) (now : ℕ) (h : Handled)
    → established_get_syn_ack cap s ack wnd now ≡ some h
    → h.sock.state ≡ s.state
unfolding established_get_syn_ack ack_sent
established_syn-state cap s ack wnd now h e = ground arith

unmoved : {now : ℕ} {st st' : State} {e : Event} → st' ≡ st → Transition now st e st'
unmoved {now} {st} {st'} {e} p = subst (λ x. Transition now st e x) (sym p) stays

moved :
    {now : ℕ} {st st0 to st' : State} {e : Event}
    → Transition now st e to
    → st0 ≡ st
    → (st' ≡ st0) ⊎ (st' ≡ to)
    → Transition now st e st'
moved {now} {st} {st0} {to} {st'} {e} t p c = elim c [
  | inl q ↦ unmoved (q ∙ p)
  | inr q ↦ subst (λ x. Transition now st e x) (sym q) t
]

ignored-state : (s : NormalSocket) (h : Handled) → ignored s ≡ some h → h.sock.state ≡ s.state
ignored-state s h r = ground arith

module _ (cap : ℕ) (s : NormalSocket) (is_pending : Bool) (now : ℕ) (h : Handled) where
  by_state :
      (st : State) (e : Event)
      → s.state ≡ st
      → visit_handler cap s is_pending st e now ≡ some h
      → Transition now st e h.sock.state
  unfolding visit_handler
  by_state State.syn_sent Event.close q r = unmoved (ignored-state s h r ∙ q)
  by_state State.syn_sent (Event.get_syn x a b) q r = unmoved (ignored-state s h r ∙ q)
  by_state State.syn_sent (Event.get_syn_ack isn ack wnd) q r =
      unmoved (syn_sent-state cap s isn ack wnd now h r ∙ q)
  by_state State.syn_sent (Event.get_ack seq ack wnd payload) q r =
      unmoved (ignored-state s h r ∙ q)
  by_state State.syn_sent (Event.get_fin seq wnd) q r = unmoved (ignored-state s h r ∙ q)
  by_state State.syn_sent (Event.get_fin_ack seq ack wnd) q r = unmoved (ignored-state s h r ∙ q)
  by_state (State.syn_received l) Event.close q r = unmoved (ignored-state s h r ∙ q)
  by_state (State.syn_received l) (Event.get_syn x a b) q r = unmoved (ignored-state s h r ∙ q)
  by_state (State.syn_received l) (Event.get_syn_ack isn ack wnd) q r =
      unmoved (ignored-state s h r ∙ q)
  by_state (State.syn_received l) (Event.get_ack seq ack wnd payload) q r =
      moved connected q (syn_received-state l s is_pending seq ack wnd now h r)
  by_state (State.syn_received l) (Event.get_fin seq wnd) q r = unmoved (ignored-state s h r ∙ q)
  by_state (State.syn_received l) (Event.get_fin_ack seq ack wnd) q r =
      unmoved (ignored-state s h r ∙ q)
  by_state State.established Event.close q r = unmoved (ignored-state s h r ∙ q)
  by_state State.established (Event.get_syn x a b) q r = unmoved (ignored-state s h r ∙ q)
  by_state State.established (Event.get_syn_ack isn ack wnd) q r =
      unmoved (established_syn-state cap s ack wnd now h r ∙ q)
  by_state State.established (Event.get_ack seq ack wnd payload) q r =
      unmoved (data_state-state cap s seq ack wnd payload now h r ∙ q)
  by_state State.established (Event.get_fin seq wnd) q r =
      moved peer_closed q (established_fin-state cap s seq wnd now h r)
  by_state State.established (Event.get_fin_ack seq ack wnd) q r =
      moved peer_closed_ack q (established_fin-state cap s seq wnd now h r)
  by_state State.close_wait Event.close q r = unmoved (ignored-state s h r ∙ q)
  by_state State.close_wait (Event.get_syn x a b) q r = unmoved (ignored-state s h r ∙ q)
  by_state State.close_wait (Event.get_syn_ack isn ack wnd) q r = unmoved (ignored-state s h r ∙ q)
  by_state State.close_wait (Event.get_ack seq ack wnd payload) q r =
      unmoved (data_state-state cap s seq ack wnd payload now h r ∙ q)
  by_state State.close_wait (Event.get_fin seq wnd) q r =
      unmoved (closing_state-state cap s seq wnd now h r ∙ q)
  by_state State.close_wait (Event.get_fin_ack seq ack wnd) q r = unmoved (ignored-state s h r ∙ q)
  by_state State.last_ack Event.close q r = unmoved (ignored-state s h r ∙ q)
  by_state State.last_ack (Event.get_syn x a b) q r = unmoved (ignored-state s h r ∙ q)
  by_state State.last_ack (Event.get_syn_ack isn ack wnd) q r = unmoved (ignored-state s h r ∙ q)
  by_state State.last_ack (Event.get_ack seq ack wnd payload) q r =
      moved done q (last_ack-state s ack wnd now h r)
  by_state State.last_ack (Event.get_fin seq wnd) q r = unmoved (ignored-state s h r ∙ q)
  by_state State.last_ack (Event.get_fin_ack seq ack wnd) q r = unmoved (ignored-state s h r ∙ q)
  by_state State.fin_wait1 Event.close q r = unmoved (ignored-state s h r ∙ q)
  by_state State.fin_wait1 (Event.get_syn x a b) q r = unmoved (ignored-state s h r ∙ q)
  by_state State.fin_wait1 (Event.get_syn_ack isn ack wnd) q r = unmoved (ignored-state s h r ∙ q)
  by_state State.fin_wait1 (Event.get_ack seq ack wnd payload) q r =
      moved fin_acked q (fin_wait1-state cap s seq ack wnd payload now h r)
  by_state State.fin_wait1 (Event.get_fin seq wnd) q r = unmoved (ignored-state s h r ∙ q)
  by_state State.fin_wait1 (Event.get_fin_ack seq ack wnd) q r = unmoved (ignored-state s h r ∙ q)
  by_state State.fin_wait2 Event.close q r = unmoved (ignored-state s h r ∙ q)
  by_state State.fin_wait2 (Event.get_syn x a b) q r = unmoved (ignored-state s h r ∙ q)
  by_state State.fin_wait2 (Event.get_syn_ack isn ack wnd) q r = unmoved (ignored-state s h r ∙ q)
  by_state State.fin_wait2 (Event.get_ack seq ack wnd payload) q r =
      unmoved (data_state-state cap s seq ack wnd payload now h r ∙ q)
  by_state State.fin_wait2 (Event.get_fin seq wnd) q r =
      moved both_closed q (fin_wait2-state cap s seq wnd now h r)
  by_state State.fin_wait2 (Event.get_fin_ack seq ack wnd) q r = unmoved (ignored-state s h r ∙ q)
  by_state (State.time_wait t) Event.close q r = unmoved (ignored-state s h r ∙ q)
  by_state (State.time_wait t) (Event.get_syn x a b) q r = unmoved (ignored-state s h r ∙ q)
  by_state (State.time_wait t) (Event.get_syn_ack isn ack wnd) q r =
      unmoved (ignored-state s h r ∙ q)
  by_state (State.time_wait t) (Event.get_ack seq ack wnd payload) q r =
      unmoved (ignored-state s h r ∙ q)
  by_state (State.time_wait t) (Event.get_fin seq wnd) q r =
      unmoved (closing_state-state cap s seq wnd now h r ∙ q)
  by_state (State.time_wait t) (Event.get_fin_ack seq ack wnd) q r =
      unmoved (ignored-state s h r ∙ q)
  by_state State.closed e q r = unmoved (ignored-state s h r ∙ q)
  by_state State.listen e q r = unmoved (ignored-state s h r ∙ q)
  by_state State.closing e q r = unmoved (ignored-state s h r ∙ q)

-- A packet that a handler takes leaves the state of the socket as it was, or moves it along an edge of
-- the state diagram that the packet's kind labels.
pub event_handler-Transition :
    (cap : ℕ) (s : NormalSocket) (is_pending : Bool) (e : Event) (now : ℕ) (h : Handled)
    → event_handler cap s is_pending e now ≡ some h
    → Transition now s.state e h.sock.state
unfolding event_handler
event_handler-Transition cap s is_pending e now h r =
    by_state cap s is_pending now h s.state e refl r
