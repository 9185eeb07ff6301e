-- ===== src/Daemon/Handover/Stuck.antt =====
-- A silent command: the server waits for a result that nobody notifies. Every reachable state agrees, or is
-- stuck in this way.
use ritex.Base.{
  Bool, ◌++◌, ◌∙◌, append-nil, ℕ, ◌≡◌, ◌≢◌, refl, true, false, [], ◌⊎◌, inl, inr, arith,
}
use mathlib.Core.Path.{subst}
use ritex.Daemon.Handover.{
  Kind, silent, Shared, ServerPc, reading, executing, ServerMove, says_nothing, queues, starts,
  refuses, waits, sleeps, wakes, wakes_early, goes_on, TrafficPc, elsewhere, TrafficMove, takes,
  keeps_start, ends, System, SystemStep, serves, started_server, Reachable, start, later,
}
use ritex.Daemon.Handover.Agreement.{awaits, Agrees, Inv}
use ritex.Daemon.Handover.Invariant.{
  at, is_spoken, ServerMove-Inv, TrafficMove-Inv, started_server-Inv,
}

abbrev pub IsStuck : Shared → ServerPc → TrafficPc → Type 0
IsStuck m p (elsewhere a d) = (awaits p ≡ true) × ((m.can_process ≡ false) × (d ++ m.queue ≡ []))
IsStuck m p (TrafficPc.notifying n) = ⊥

abbrev pub Sound : System → Type 0
Sound s = Inv s ⊎ IsStuck s.shared s.server s.traffic

TrafficMove-IsStuck :
    {m t : Shared} (p : ServerPc) {traffic next : TrafficPc}
    → TrafficMove m traffic t next
    → IsStuck m p traffic
    → IsStuck t p next
TrafficMove-IsStuck p (takes e) h = absurd (ground (arith, e, h.1.1))
TrafficMove-IsStuck p (keeps_start o l) h = h
TrafficMove-IsStuck {m} p (ends o) h = (h.0, (h.1.0, append-nil m.queue ∙ h.1.1))
TrafficMove-IsStuck p (TrafficMove.notifies move) h = absurd h

-- The silent command is at hand, or is waited for.
abbrev IsDoomed : ℕ → System → Type 0
IsDoomed cmd s = (Inv s × (s.server ≡ executing cmd)) ⊎ IsStuck s.shared s.server s.traffic

at_silent : {s : System} (cmd : ℕ) → Sound s → s.server ≡ executing cmd → IsDoomed cmd s
at_silent cmd (inl inv) e = inl (inv, e)
at_silent cmd (inr stuck) e = inr stuck

never_reads : (m : Shared) (t : TrafficPc) → ¬ IsStuck m reading t
never_reads m (elsewhere a d) h = absurd (ground (arith, h.0))
never_reads m (TrafficPc.notifying n) h = h

doomed_waits : (s : System) (cmd : ℕ) → IsDoomed cmd s → s.server ≢ reading
doomed_waits s cmd (inl (inv, e)) r = absurd (ground (arith, e, r))
doomed_waits s cmd (inr stuck) r =
    never_reads s.shared s.traffic (subst (λ (x : ServerPc). IsStuck s.shared x s.traffic) r stuck)

module _ {kind : ℕ → Kind} where
  -- A silent command leads from the agreement to a wait without end.
  spoken_or :
      {m t : Shared} {p q : ServerPc} (traffic : TrafficPc) (move : ServerMove kind m p t q)
      → Inv (at m p traffic)
      → Sound (at t q traffic)
  spoken_or (elsewhere a d) (says_nothing k) inv = inr (refl, (inv.agrees.1, inv.agrees.0))
  spoken_or (TrafficPc.notifying n) (says_nothing k) inv = absurd inv.agrees.0
  spoken_or traffic move inv = inl (ServerMove-Inv move refl inv)

  SystemStep-Sound : {s t : System} → SystemStep kind s t → Inv s → Sound t
  SystemStep-Sound {s} (serves move) inv = spoken_or s.traffic move inv
  SystemStep-Sound (SystemStep.answers move) inv = inl (TrafficMove-Inv move inv)

  ServerMove-IsStuck :
      {m t : Shared} {p q : ServerPc} (traffic : TrafficPc)
      → ServerMove kind m p t q
      → IsStuck m p traffic
      → IsStuck t q traffic
  ServerMove-IsStuck (elsewhere a d) (starts l) h = (refl, h.1)
  ServerMove-IsStuck (elsewhere a d) (waits l) h = (refl, h.1)
  ServerMove-IsStuck (elsewhere a d) (sleeps l) h = (refl, h.1)
  ServerMove-IsStuck (elsewhere a d) (wakes s l) h = (refl, h.1)
  ServerMove-IsStuck (elsewhere a d) (wakes_early l) h = (refl, h.1)
  ServerMove-IsStuck (elsewhere a d) (goes_on l) h = absurd (ground (arith, l, h.1))
  ServerMove-IsStuck (elsewhere a d) move h = absurd (ground (arith, h.0))
  ServerMove-IsStuck (TrafficPc.notifying n) move h = absurd h

  SystemStep-IsStuck :
      {s t : System}
      → SystemStep kind s t
      → IsStuck s.shared s.server s.traffic
      → IsStuck t.shared t.server t.traffic
  SystemStep-IsStuck {s} (serves move) h = ServerMove-IsStuck s.traffic move h
  SystemStep-IsStuck {s} (SystemStep.answers move) h = TrafficMove-IsStuck s.server move h

  Sound-step : {s t : System} → SystemStep kind s t → Sound s → Sound t
  Sound-step step (inl inv) = SystemStep-Sound step inv
  Sound-step step (inr stuck) = inr (SystemStep-IsStuck step stuck)

  Reachable-Sound :
      {one_shot : Bool} {s : System} → Reachable kind (started_server one_shot) s → Sound s
  Reachable-Sound {one_shot} start = inl (started_server-Inv one_shot)
  Reachable-Sound (later r step) = Sound-step step (Reachable-Sound r)

  silent_move :
      {m t : Shared} {q : ServerPc} (cmd : ℕ) (traffic : TrafficPc)
      → kind cmd ≡ silent
      → ServerMove kind m (executing cmd) t q
      → Agrees m (executing cmd) traffic
      → IsStuck t q traffic
  silent_move cmd (elsewhere a d) k (says_nothing e) h = (refl, (h.1, h.0))
  silent_move cmd (elsewhere a d) k (queues e) h = absurd (ground (arith, k, e))
  silent_move cmd (elsewhere a d) k (ServerMove.answers e) h = absurd (ground (arith, k, e))
  silent_move cmd (elsewhere a d) k (refuses e) h = absurd (ground (arith, k, e))
  silent_move cmd (TrafficPc.notifying n) k move h = absurd h.0

  silent_step :
      {s t : System} (cmd : ℕ)
      → kind cmd ≡ silent
      → SystemStep kind s t
      → Inv s
      → s.server ≡ executing cmd
      → IsDoomed cmd t
  silent_step {s} cmd k (serves {m} {p} move) inv e = inr (
      silent_move cmd s.traffic k (subst (λ (x : ServerPc). ServerMove kind s.shared x m p) e move)
        (subst (λ (x : ServerPc). Agrees s.shared x s.traffic) e inv.agrees))
  silent_step {s} cmd k (SystemStep.answers move) inv e = inl (TrafficMove-Inv move inv, e)

  SystemStep-IsDoomed :
      {s t : System} (cmd : ℕ)
      → kind cmd ≡ silent
      → SystemStep kind s t
      → IsDoomed cmd s
      → IsDoomed cmd t
  SystemStep-IsDoomed cmd k step (inl (inv, e)) = silent_step cmd k step inv e
  SystemStep-IsDoomed cmd k step (inr stuck) = inr (SystemStep-IsStuck step stuck)

  Reachable-IsDoomed :
      {s t : System} (cmd : ℕ)
      → kind cmd ≡ silent
      → Reachable kind s t
      → IsDoomed cmd s
      → IsDoomed cmd t
  Reachable-IsDoomed cmd k start h = h
  Reachable-IsDoomed cmd k (later r step) h =
      SystemStep-IsDoomed cmd k step (Reachable-IsDoomed cmd k r h)

  -- A command whose Execute returns true and notifies nobody: from every state that is reached, in
  -- which the server executes it, no steps of the two threads lead to a state in which the server
  -- reads a packet.
  pub silent_waits :
      {one_shot : Bool} {s t : System} (cmd : ℕ)
      → kind cmd ≡ silent
      → Reachable kind (started_server one_shot) s
      → s.server ≡ executing cmd
      → Reachable kind s t
      → t.server ≢ reading
  silent_waits {t} cmd k r e more =
      doomed_waits t cmd (Reachable-IsDoomed cmd k more (at_silent cmd (Reachable-Sound r) e))

-- Where no command is silent, the agreement holds in every reachable state.
module _ {kind : ℕ → Kind} (answered : (cmd : ℕ) → kind cmd ≢ silent) where
  spoken : {m t : Shared} {p q : ServerPc} (move : ServerMove kind m p t q) → is_spoken move ≡ true
  spoken (says_nothing {cmd} k) = absurd (answered cmd k)
  spoken move = refl

  SystemStep-Inv : {s t : System} → SystemStep kind s t → Inv s → Inv t
  SystemStep-Inv (serves move) inv = ServerMove-Inv move (spoken move) inv
  SystemStep-Inv (SystemStep.answers move) inv = TrafficMove-Inv move inv

  pub Reachable-Inv :
      {one_shot : Bool} {s : System} → Reachable kind (started_server one_shot) s → Inv s
  Reachable-Inv {one_shot} start = started_server-Inv one_shot
  Reachable-Inv (later r step) = SystemStep-Inv step (Reachable-Inv r)
