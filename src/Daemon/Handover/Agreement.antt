-- ===== src/Daemon/Handover/Agreement.antt =====
-- What holds between the two threads: the lock, the commands whose response is due, the flag.
use ritex.Base.{ℕ, ◌≡◌, Bool, true, false, ◌||◌, ◌&&◌, List, [], ◌∷◌, ◌++◌, ◌⊎◌}
use ritex.Daemon.Handover.{
  Shared, Notify, sending, before_lock, signalling, before_unlock, ServerPc, locking, clearing,
  unlocking, executing, refusing, starting, to_wait, testing, waiting, TrafficPc, elsewhere, System,
}

abbrev pub notify_locked : Notify → Bool
notify_locked (sending cmd) = false
notify_locked before_lock = false
notify_locked _ = true

abbrev pub notify_owes : Notify → List ℕ
notify_owes (sending cmd) = cmd ∷ []
notify_owes _ = []

-- Does the server hold the mutex?
abbrev pub server_locked : ServerPc → Bool
server_locked (clearing cmd) = true
server_locked (unlocking cmd) = true
server_locked (ServerPc.notifying n) = notify_locked n
server_locked testing = true
server_locked _ = false

abbrev pub traffic_locked : TrafficPc → Bool
traffic_locked (elsewhere a d) = false
traffic_locked (TrafficPc.notifying n) = notify_locked n

-- The commands whose response a thread has at hand, or has deleted.
abbrev pub server_owes : ServerPc → List ℕ
server_owes (locking cmd) = cmd ∷ []
server_owes (clearing cmd) = cmd ∷ []
server_owes (unlocking cmd) = cmd ∷ []
server_owes (executing cmd) = cmd ∷ []
server_owes (refusing cmd) = cmd ∷ []
server_owes (ServerPc.notifying n) = notify_owes n
server_owes _ = []

abbrev pub traffic_owes : TrafficPc → List ℕ
traffic_owes (elsewhere a d) = d
traffic_owes (TrafficPc.notifying n) = notify_owes n

abbrev pub awaits : ServerPc → Bool
awaits starting = true
awaits to_wait = true
awaits testing = true
awaits waiting = true
awaits _ = false

-- The traffic has nothing to do with the commands.
abbrev pub IsFree : Shared → TrafficPc → Type 0
IsFree m (elsewhere a d) = d ++ m.queue ≡ []
IsFree m (TrafficPc.notifying n) = ⊥

-- The flag is set already, or one command is still to be answered.
abbrev pub IsDue : Shared → TrafficPc → Type 0
IsDue m (elsewhere a d) =
    ((m.can_process ≡ true) × (d ++ m.queue ≡ []))
    ⊎ ((m.can_process ≡ false) × ((cmd : ℕ) × (d ++ m.queue ≡ cmd ∷ [])))
IsDue m (TrafficPc.notifying signalling) = (m.can_process ≡ true) × (m.queue ≡ [])
IsDue m (TrafficPc.notifying before_unlock) = (m.can_process ≡ true) × (m.queue ≡ [])
IsDue m (TrafficPc.notifying n) = (m.can_process ≡ false) × (m.queue ≡ [])

-- A sleeping server whose flag is set was signalled, or will be at once.
abbrev pub IsHeard : Shared → TrafficPc → Type 0
IsHeard m (elsewhere a d) = m.signalled ≡ m.can_process
IsHeard m (TrafficPc.notifying signalling) = m.signalled ≡ false
IsHeard m (TrafficPc.notifying before_unlock) = m.signalled ≡ true
IsHeard m (TrafficPc.notifying n) = m.signalled ≡ false

abbrev pub IsFlagged : Shared → Notify → Type 0
IsFlagged m signalling = m.can_process ≡ true
IsFlagged m before_unlock = m.can_process ≡ true
IsFlagged m n = Unit

abbrev pub Agrees : Shared → ServerPc → TrafficPc → Type 0
Agrees m (unlocking cmd) t = IsFree m t × (m.can_process ≡ false)
Agrees m (executing cmd) t = IsFree m t × (m.can_process ≡ false)
Agrees m (ServerPc.notifying n) t = IsFree m t × IsFlagged m n
Agrees m starting t = IsDue m t
Agrees m to_wait t = IsDue m t
Agrees m testing t = IsDue m t
Agrees m waiting t = IsDue m t × IsHeard m t
Agrees m p t = IsFree m t

pub record Inv (s : System) : Type 0 where
  pub lock : s.shared.locked ≡ (server_locked s.server || traffic_locked s.traffic)
  pub apart : (server_locked s.server && traffic_locked s.traffic) ≡ false
  pub owed :
      s.shared.started
      ≡ s.shared.responded ++ (server_owes s.server ++ (traffic_owes s.traffic ++ s.shared.queue))
  pub agrees : Agrees s.shared s.server s.traffic
