-- ===== src/Daemon/Handover/Invariant.antt =====
-- The agreement of the two threads holds in every reachable state.
use ritex.Base.{
  ℕ, ◌≡◌, ◌≢◌, refl, sym, ap, ◌∙◌, Bool, true, false, ◌||◌, ◌&&◌, Option, List, [], ◌∷◌, ◌++◌, inl,
  inr, arith, append-nil, append_assoc,
}
use ritex.Daemon.Handover.{
  Kind, Shared, Notify, sending, before_lock, setting, signalling, before_unlock, NotifyMove,
  ServerPc, unlocking, executing, starting, to_wait, testing, waiting, after_notify, ServerMove,
  reads, clears, queues, starts, refuses, says_nothing, responds, waits, sleeps, wakes, wakes_early,
  goes_on, TrafficPc, elsewhere, after_result, TrafficMove, takes, keeps_start, ends, System,
  started_server,
}
use ritex.Daemon.Handover.Agreement.{
  notify_locked, server_locked, traffic_locked, server_owes, traffic_owes, awaits, IsDue, IsHeard,
  Agrees, Inv,
}

-- A response moves a command from what is owed to what was responded.
respond_lem :
    {started : List ℕ} (responded rest : List ℕ) (cmd : ℕ)
    → started ≡ responded ++ (cmd ∷ rest)
    → started ≡ (responded ++ (cmd ∷ [])) ++ rest
respond_lem responded rest cmd h = h ∙ sym (append_assoc responded (cmd ∷ []) rest)

start_lem :
    {started queue : List ℕ} (responded : List ℕ) (cmd : ℕ)
    → started ≡ responded ++ queue
    → queue ≡ []
    → started ++ (cmd ∷ []) ≡ responded ++ (cmd ∷ queue)
start_lem responded cmd h e = rw (h, e, append-nil) refl

queue_lem :
    {started : List ℕ} (responded deleted queue : List ℕ) (cmd : ℕ)
    → started ≡ responded ++ (cmd ∷ (deleted ++ queue))
    → deleted ++ queue ≡ []
    → started ≡ responded ++ (deleted ++ (queue ++ (cmd ∷ [])))
queue_lem responded deleted queue cmd h e =
    h
    ∙ ap (λ rest. responded ++ (cmd ∷ rest)) e
    ∙ ap (λ rest. responded ++ (rest ++ (cmd ∷ []))) (sym e)
    ∙ ap (λ rest. responded ++ rest) (append_assoc deleted queue (cmd ∷ []))

due_lem :
    (deleted queue : List ℕ) (cmd : ℕ)
    → deleted ++ queue ≡ []
    → deleted ++ (queue ++ (cmd ∷ [])) ≡ cmd ∷ []
due_lem deleted queue cmd e =
    sym (append_assoc deleted queue (cmd ∷ [])) ∙ ap (λ rest. rest ++ (cmd ∷ [])) e

keeps :
    {s : System}
    → s.shared.locked ≡ (server_locked s.server || traffic_locked s.traffic)
    → (server_locked s.server && traffic_locked s.traffic) ≡ false
    → s.shared.started
      ≡ s.shared.responded ++ (server_owes s.server ++ (traffic_owes s.traffic ++ s.shared.queue))
    → Agrees s.shared s.server s.traffic
    → Inv s
keeps lock apart owed agrees = record { lock = lock; apart = apart; owed = owed; agrees = agrees }

abbrev pub at : Shared → ServerPc → TrafficPc → System
at m p t = record { shared = m; server = p; traffic = t }

-- The server notifies while the traffic is elsewhere.
own_notify-Inv :
    {a : Bool} {d : List ℕ} {m t : Shared} {n : Notify} {next : Option Notify}
    → NotifyMove m n t next
    → Inv (at m (ServerPc.notifying n) (elsewhere a d))
    → Inv (at t (after_notify next) (elsewhere a d))
own_notify-Inv {d} {m} (NotifyMove.sends {cmd}) inv =
    keeps inv.lock refl (respond_lem m.responded (d ++ m.queue) cmd inv.owed) (inv.agrees.0, tt)
own_notify-Inv (NotifyMove.locks h) inv = keeps refl refl inv.owed (inv.agrees.0, tt)
own_notify-Inv NotifyMove.sets inv = keeps inv.lock refl inv.owed (inv.agrees.0, refl)
own_notify-Inv NotifyMove.signals inv = keeps inv.lock refl inv.owed inv.agrees
own_notify-Inv NotifyMove.unlocks inv = keeps refl refl inv.owed (inl (inv.agrees.1, inv.agrees.0))

-- While the traffic notifies, the server is at the wait.
pub not_free :
    (m : Shared) (n : Notify) (p : ServerPc)
    → awaits p ≡ false
    → ¬ Agrees m p (TrafficPc.notifying n)
not_free m n starting w h = absurd (ground (arith, w))
not_free m n to_wait w h = absurd (ground (arith, w))
not_free m n testing w h = absurd (ground (arith, w))
not_free m n waiting w h = absurd (ground (arith, w))
not_free m n (unlocking cmd) w h = h.0
not_free m n (executing cmd) w h = h.0
not_free m n (ServerPc.notifying own) w h = h.0
not_free m n p w h = h

-- With the flag unset, no signal was sent.
unset-IsHeard :
    (m : Shared) (n : Notify)
    → m.can_process ≡ false
    → IsDue m (TrafficPc.notifying n)
    → IsHeard (record m { locked = false; signalled = false }) (TrafficPc.notifying n)
unset-IsHeard m (sending cmd) h due = refl
unset-IsHeard m before_lock h due = refl
unset-IsHeard m setting h due = refl
unset-IsHeard m signalling h due = refl
unset-IsHeard m before_unlock h due = ground (arith, h, due)

-- The flag is set under the lock only.
set_locked :
    (m : Shared) (n : Notify)
    → m.can_process ≡ true
    → IsDue m (TrafficPc.notifying n)
    → notify_locked n ≢ false
set_locked m signalling h due e = ground (arith, e)
set_locked m before_unlock h due e = ground (arith, e)
set_locked m (sending cmd) h due e = ground (arith, h, due)
set_locked m before_lock h due e = ground (arith, h, due)
set_locked m setting h due e = ground (arith, e)

due_free :
    (m : Shared) (a : Bool) (d : List ℕ)
    → m.can_process ≡ true
    → IsDue m (elsewhere a d)
    → d ++ m.queue ≡ []
due_free m a d h (inl (is_set, empty)) = empty
due_free m a d h (inr (unset, more)) = absurd (ground (arith, h, unset))

abbrev pub is_spoken :
    {kind : ℕ → Kind} {m t : Shared} {p q : ServerPc} → ServerMove kind m p t q → Bool
is_spoken (says_nothing k) = false
is_spoken move = true

module _ {kind : ℕ → Kind} where
  -- A move of the server, while the traffic is elsewhere.
  alone-Inv :
      {a : Bool} {d : List ℕ} {m t : Shared} {p q : ServerPc}
      → (move : ServerMove kind m p t q) → is_spoken move ≡ true
      → Inv (at m p (elsewhere a d))
      → Inv (at t q (elsewhere a d))
  alone-Inv {m} (reads cmd) spoken inv =
      keeps inv.lock refl (start_lem m.responded cmd inv.owed inv.agrees) inv.agrees
  alone-Inv (ServerMove.locks h) spoken inv = keeps refl refl inv.owed inv.agrees
  alone-Inv clears spoken inv = keeps inv.lock refl inv.owed (inv.agrees, refl)
  alone-Inv ServerMove.unlocks spoken inv = keeps refl refl inv.owed inv.agrees
  alone-Inv {d} {m} (queues {cmd} k) spoken inv =
      keeps inv.lock refl (queue_lem m.responded d m.queue cmd inv.owed inv.agrees.0)
        (inr (inv.agrees.1, (cmd, due_lem d m.queue cmd inv.agrees.0)))
  alone-Inv (starts l) spoken inv = keeps inv.lock refl inv.owed inv.agrees
  alone-Inv (ServerMove.answers k) spoken inv = keeps inv.lock refl inv.owed (inv.agrees.0, tt)
  alone-Inv (refuses k) spoken inv = keeps inv.lock refl inv.owed inv.agrees.0
  alone-Inv (says_nothing {cmd} k) spoken inv = absurd (ground (arith, spoken))
  alone-Inv {d} {m} (responds {cmd}) spoken inv =
      keeps inv.lock refl (respond_lem m.responded (d ++ m.queue) cmd inv.owed) inv.agrees
  alone-Inv (ServerMove.notifies move) spoken inv = own_notify-Inv move inv
  alone-Inv (waits h) spoken inv = keeps refl refl inv.owed inv.agrees
  alone-Inv (sleeps h) spoken inv = keeps refl refl inv.owed (inv.agrees, sym h)
  alone-Inv (wakes s h) spoken inv = keeps refl refl inv.owed inv.agrees.0
  alone-Inv (wakes_early h) spoken inv = keeps refl refl inv.owed inv.agrees.0
  alone-Inv {a} {d} {m} (goes_on h) spoken inv =
      keeps refl refl inv.owed (due_free m a d h inv.agrees)

  -- A move of the server, while the traffic notifies: it is one of the moves of the wait.
  beside-Inv :
      {m t : Shared} {p q : ServerPc} {n : Notify}
      → (move : ServerMove kind m p t q) → is_spoken move ≡ true
      → Inv (at m p (TrafficPc.notifying n))
      → Inv (at t q (TrafficPc.notifying n))
  beside-Inv (starts l) spoken inv = keeps inv.lock inv.apart inv.owed inv.agrees
  beside-Inv (waits h) spoken inv = keeps refl (sym inv.lock ∙ h) inv.owed inv.agrees
  beside-Inv {m} {n} (sleeps h) spoken inv =
      keeps (sym inv.apart) refl inv.owed (inv.agrees, unset-IsHeard m n h inv.agrees)
  beside-Inv (wakes s h) spoken inv = keeps refl (sym inv.lock ∙ h) inv.owed inv.agrees.0
  beside-Inv (wakes_early h) spoken inv = keeps refl (sym inv.lock ∙ h) inv.owed inv.agrees.0
  beside-Inv {m} {n} (goes_on h) spoken inv = absurd (set_locked m n h inv.agrees inv.apart)
  beside-Inv {m} {p} {n} move spoken inv = absurd (not_free m n p refl inv.agrees)

  pub ServerMove-Inv :
      {m t : Shared} {p q : ServerPc} {traffic : TrafficPc}
      → (move : ServerMove kind m p t q) → is_spoken move ≡ true
      → Inv (at m p traffic)
      → Inv (at t q traffic)
  ServerMove-Inv {traffic = elsewhere a d} move spoken inv = alone-Inv move spoken inv
  ServerMove-Inv {traffic = TrafficPc.notifying n} move spoken inv = beside-Inv move spoken inv

-- A notification by the traffic, for a server that waits.
heard-Inv :
    {m t : Shared} {p : ServerPc} {n : Notify} {next : Option Notify}
    → NotifyMove m n t next
    → Inv (at m p (TrafficPc.notifying n))
    → Inv (at t p (after_result next))
heard-Inv {m} {p = starting} (NotifyMove.sends {cmd}) inv =
    keeps inv.lock inv.apart (respond_lem m.responded m.queue cmd inv.owed) inv.agrees
heard-Inv {p = starting} (NotifyMove.locks h) inv = keeps refl refl inv.owed inv.agrees
heard-Inv {p = starting} NotifyMove.sets inv = keeps inv.lock refl inv.owed (refl, inv.agrees.1)
heard-Inv {p = starting} NotifyMove.signals inv = keeps inv.lock refl inv.owed inv.agrees
heard-Inv {p = starting} NotifyMove.unlocks inv = keeps refl refl inv.owed (inl inv.agrees)
heard-Inv {m} {p = to_wait} (NotifyMove.sends {cmd}) inv =
    keeps inv.lock inv.apart (respond_lem m.responded m.queue cmd inv.owed) inv.agrees
heard-Inv {p = to_wait} (NotifyMove.locks h) inv = keeps refl refl inv.owed inv.agrees
heard-Inv {p = to_wait} NotifyMove.sets inv = keeps inv.lock refl inv.owed (refl, inv.agrees.1)
heard-Inv {p = to_wait} NotifyMove.signals inv = keeps inv.lock refl inv.owed inv.agrees
heard-Inv {p = to_wait} NotifyMove.unlocks inv = keeps refl refl inv.owed (inl inv.agrees)
heard-Inv {m} {p = testing} (NotifyMove.sends {cmd}) inv =
    keeps inv.lock inv.apart (respond_lem m.responded m.queue cmd inv.owed) inv.agrees
heard-Inv {p = testing} (NotifyMove.locks h) inv = absurd (ground (arith, h, inv.lock))
heard-Inv {p = testing} NotifyMove.sets inv = absurd (ground (arith, inv.apart))
heard-Inv {p = testing} NotifyMove.signals inv = absurd (ground (arith, inv.apart))
heard-Inv {p = testing} NotifyMove.unlocks inv = absurd (ground (arith, inv.apart))
heard-Inv {m} {p = waiting} (NotifyMove.sends {cmd}) inv =
    keeps inv.lock inv.apart (respond_lem m.responded m.queue cmd inv.owed) inv.agrees
heard-Inv {p = waiting} (NotifyMove.locks h) inv = keeps refl refl inv.owed inv.agrees
heard-Inv {p = waiting} NotifyMove.sets inv =
    keeps inv.lock refl inv.owed ((refl, inv.agrees.0.1), inv.agrees.1)
heard-Inv {p = waiting} NotifyMove.signals inv = keeps inv.lock refl inv.owed (inv.agrees.0, refl)
heard-Inv {p = waiting} NotifyMove.unlocks inv =
    keeps refl refl inv.owed (inl inv.agrees.0, inv.agrees.1 ∙ sym inv.agrees.0.0)
heard-Inv {m} {p} {n} mv inv = absurd (not_free m n p refl inv.agrees)

-- The one command of the queue is taken.
take_lem :
    (m : Shared) (cmd : ℕ) (rest : List ℕ)
    → m.queue ≡ cmd ∷ rest
    → IsDue m (elsewhere true [])
    → (m.can_process ≡ false) × (rest ≡ [])
take_lem m cmd rest e (inl (is_set, empty)) = absurd (ground (arith, e, empty))
take_lem m cmd rest e (inr (unset, (other, one))) = (unset, ground (arith, e, one))

owe_lem :
    {started queue : List ℕ} (responded rest : List ℕ) (cmd : ℕ)
    → started ≡ responded ++ queue
    → queue ≡ cmd ∷ rest
    → started ≡ responded ++ (cmd ∷ rest)
owe_lem responded rest cmd h e = h ∙ ap (λ q. responded ++ q) e

-- A server that does not wait has nothing in the queue.
pub nothing_queued :
    (m : Shared) (a : Bool) (d : List ℕ) (p : ServerPc)
    → awaits p ≡ false
    → Agrees m p (elsewhere a d)
    → d ++ m.queue ≡ []
nothing_queued m a d starting w h = absurd (ground (arith, w))
nothing_queued m a d to_wait w h = absurd (ground (arith, w))
nothing_queued m a d testing w h = absurd (ground (arith, w))
nothing_queued m a d waiting w h = absurd (ground (arith, w))
nothing_queued m a d (unlocking cmd) w h = h.0
nothing_queued m a d (executing cmd) w h = h.0
nothing_queued m a d (ServerPc.notifying own) w h = h.0
nothing_queued m a d p w h = h

take-Inv :
    {m : Shared} {p : ServerPc} (cmd : ℕ) (rest : List ℕ)
    → m.queue ≡ cmd ∷ rest
    → Inv (at m p (elsewhere true []))
    → Inv (at (record m { queue = rest }) p (TrafficPc.notifying (sending cmd)))
take-Inv {m} {p = starting} cmd rest e inv =
    keeps inv.lock refl (owe_lem m.responded rest cmd inv.owed e) (take_lem m cmd rest e inv.agrees)
take-Inv {m} {p = to_wait} cmd rest e inv =
    keeps inv.lock refl (owe_lem m.responded rest cmd inv.owed e) (take_lem m cmd rest e inv.agrees)
take-Inv {m} {p = testing} cmd rest e inv =
    keeps inv.lock refl (owe_lem m.responded rest cmd inv.owed e) (take_lem m cmd rest e inv.agrees)
take-Inv {m} {p = waiting} cmd rest e inv =
    keeps inv.lock refl (owe_lem m.responded rest cmd inv.owed e)
      (take_lem m cmd rest e inv.agrees.0, inv.agrees.1 ∙ (take_lem m cmd rest e inv.agrees.0).0)
take-Inv {m} {p} cmd rest e inv =
    absurd (ground (arith, e, nothing_queued m true [] p refl inv.agrees))

-- The end of the traffic: what was queued is deleted, and is owed for ever.
end-IsDue :
    (m : Shared)
    → IsDue m (elsewhere true [])
    → IsDue (record m { queue = [] }) (elsewhere false m.queue)
end-IsDue m (inl (is_set, empty)) = inl (is_set, append-nil m.queue ∙ empty)
end-IsDue m (inr (unset, (cmd, one))) = inr (unset, (cmd, append-nil m.queue ∙ one))

end-Agrees :
    (m : Shared) (p : ServerPc)
    → Agrees m p (elsewhere true [])
    → Agrees (record m { queue = [] }) p (elsewhere false m.queue)
end-Agrees m starting h = end-IsDue m h
end-Agrees m to_wait h = end-IsDue m h
end-Agrees m testing h = end-IsDue m h
end-Agrees m waiting h = (end-IsDue m h.0, h.1)
end-Agrees m (unlocking cmd) h = (append-nil m.queue ∙ h.0, h.1)
end-Agrees m (executing cmd) h = (append-nil m.queue ∙ h.0, h.1)
end-Agrees m (ServerPc.notifying own) h = (append-nil m.queue ∙ h.0, h.1)
end-Agrees m p h = append-nil m.queue ∙ h

kept-Agrees :
    (m : Shared) (p : ServerPc)
    → Agrees m p (elsewhere true [])
    → Agrees (record m { start_locked = true }) p (elsewhere true [])
kept-Agrees m (ServerPc.notifying signalling) h = h
kept-Agrees m (ServerPc.notifying n) h = h
kept-Agrees m p h = h

end_owed :
    {started : List ℕ} (responded owed queue : List ℕ)
    → started ≡ responded ++ (owed ++ queue)
    → started ≡ responded ++ (owed ++ (queue ++ []))
end_owed responded owed queue h =
    h ∙ ap (λ rest. responded ++ (owed ++ rest)) (sym (append-nil queue))

pub TrafficMove-Inv :
    {m t : Shared} {p : ServerPc} {traffic next : TrafficPc}
    → TrafficMove m traffic t next
    → Inv (at m p traffic)
    → Inv (at t p next)
TrafficMove-Inv (takes {cmd} {rest} e) inv = take-Inv cmd rest e inv
TrafficMove-Inv {m} {p} (keeps_start o l) inv =
    keeps inv.lock inv.apart inv.owed (kept-Agrees m p inv.agrees)
TrafficMove-Inv {m} {p} (ends o) inv =
    keeps inv.lock inv.apart (end_owed m.responded (server_owes p) m.queue inv.owed)
      (end-Agrees m p inv.agrees)
TrafficMove-Inv (TrafficMove.notifies move) inv = heard-Inv move inv

pub started_server-Inv : (one_shot : Bool) → Inv (started_server one_shot)
started_server-Inv one_shot = record { lock = refl; apart = refl; owed = refl; agrees = refl }
