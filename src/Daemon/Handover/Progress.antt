-- ===== src/Daemon/Handover/Progress.antt =====
-- The end of the wait: what is left to do at a command, and that every step does some of it.
use ritex.Base.{
  ℕ, ◌+◌, ◌*◌, ◌≤◌, ◌≡◌, ◌≢◌, refl, Bool, true, false, List, [], ◌∷◌, ◌++◌, inl, inr, arith,
  length-append, append-nil, ap, if◌then◌else◌, length,
}
use ritex.Daemon.Handover.{
  Kind, silent, Shared, Notify, sending, before_lock, setting, signalling, before_unlock, ServerPc,
  reading, locking, clearing, unlocking, executing, refusing, starting, to_wait, testing, waiting,
  ServerMove, reads, wakes_early, TrafficPc, elsewhere, TrafficMove, System, SystemStep, serves,
  started_server, Reachable, keeps_start, ends,
}
use ritex.Daemon.Handover.Agreement.{IsDue, Agrees, Inv, awaits, server_owes, traffic_owes}
use mathlib.Core.Path.{subst}
use ritex.Daemon.Handover.Invariant.{not_free, nothing_queued, at}
use ritex.Daemon.Handover.Stuck.{Reachable-Inv}

abbrev notify_left : Notify → ℕ
notify_left (sending cmd) = 5
notify_left before_lock = 4
notify_left setting = 3
notify_left signalling = 2
notify_left before_unlock = 1

abbrev traffic_left : TrafficPc → ℕ
traffic_left (elsewhere a d) = 0
traffic_left (TrafficPc.notifying n) = notify_left n

abbrev server_left : Shared → ServerPc → ℕ
server_left m reading = 0
server_left m (locking cmd) = 15
server_left m (clearing cmd) = 14
server_left m (unlocking cmd) = 13
server_left m (executing cmd) = 12
server_left m (refusing cmd) = 1
server_left m (ServerPc.notifying n) = 4 + notify_left n
server_left m starting = 5
server_left m to_wait = 4
server_left m testing = if m.can_process then 1 else 3
server_left m waiting = 2

-- The steps that are left until the server reads again; a command in the queue counts six.
unfoldable pub left : System → ℕ
left s = server_left s.shared s.server + (traffic_left s.traffic + 6 * length s.shared.queue)

-- Neither a packet of the client nor a wake-up without a signal, nor a step of the traffic out of its
-- loop.
abbrev is_own_move :
    {kind : ℕ → Kind} {m t : Shared} {p q : ServerPc} → ServerMove kind m p t q → Bool
is_own_move (reads cmd) = false
is_own_move (wakes_early h) = false
is_own_move move = true

abbrev is_own_answer : {m t : Shared} {p q : TrafficPc} → TrafficMove m p t q → Bool
is_own_answer (keeps_start o l) = false
is_own_answer (ends o) = false
is_own_answer move = true

abbrev pub is_own : {kind : ℕ → Kind} {s t : System} → SystemStep kind s t → Bool
is_own (serves move) = is_own_move move
is_own (SystemStep.answers move) = is_own_answer move

-- A step of its own that can be made.
abbrev pub CanStep : (ℕ → Kind) → System → Type 0
CanStep kind s = (t : System) × ((step : SystemStep kind s t) × (is_own step ≡ true))

-- A traffic that captures data: it does not keep the mutex of its start, and does not end.
abbrev IsAlive : TrafficPc → Type 0
IsAlive (elsewhere true []) = Unit
IsAlive (elsewhere true (cmd ∷ d)) = ⊥
IsAlive (elsewhere false d) = ⊥
IsAlive (TrafficPc.notifying n) = Unit

abbrev Runs : System → Type 0
Runs s = (s.shared.one_shot ≡ false) × ((s.shared.start_locked ≡ false) × IsAlive s.traffic)

due_one : (m : Shared) (t : TrafficPc) → IsDue m t → length (traffic_owes t ++ m.queue) ≤ 1
due_one m (elsewhere a d) (inl (is_set, empty)) = rw empty (omega arith)
due_one m (elsewhere a d) (inr (unset, (cmd, one))) = rw one (omega arith)
due_one m (TrafficPc.notifying (sending cmd)) h = rw h.1 (omega arith)
due_one m (TrafficPc.notifying before_lock) h = rw h.1 (omega arith)
due_one m (TrafficPc.notifying setting) h = rw h.1 (omega arith)
due_one m (TrafficPc.notifying signalling) h = rw h.1 (omega arith)
due_one m (TrafficPc.notifying before_unlock) h = rw h.1 (omega arith)

own_one : (m : Shared) (p : ServerPc) → awaits p ≡ false → length (server_owes p) ≤ 1
own_one m (ServerPc.notifying (sending cmd)) w = omega arith
own_one m (ServerPc.notifying before_lock) w = omega arith
own_one m (ServerPc.notifying setting) w = omega arith
own_one m (ServerPc.notifying signalling) w = omega arith
own_one m (ServerPc.notifying before_unlock) w = omega arith
own_one m p w = omega arith

owed_one :
    (m : Shared) (p : ServerPc) (t : TrafficPc)
    → Agrees m p t
    → length (server_owes p ++ (traffic_owes t ++ m.queue)) ≤ 1
owed_one m starting t h = due_one m t h
owed_one m to_wait t h = due_one m t h
owed_one m testing t h = due_one m t h
owed_one m waiting t h = due_one m t h.0
owed_one m p (elsewhere a d) h = omega (
  arith,
  length-append (server_owes p) (d ++ m.queue),
  ap length (nothing_queued m a d p refl h),
  own_one m p refl,
)
owed_one m p (TrafficPc.notifying n) h = absurd (not_free m n p refl h)

reading_owed : (m : Shared) (t : TrafficPc) → Inv (at m reading t) → m.responded ≡ m.started
reading_owed m (elsewhere a d) inv = rw (inv.owed, inv.agrees, append-nil) refl
reading_owed m (TrafficPc.notifying n) inv = absurd inv.agrees

-- No command is silent. In every state that the server and the thread of the traffic reach, in
-- whatever order their steps interleave, also where the traffic ends and deletes its queue or keeps
-- the mutex of Start: the commands that were started are those that were responded to, in the same
-- order, and at most one more behind them; and in front of the next packet there is none more.
pub Reachable-owed :
    (kind : ℕ → Kind) (answered : (cmd : ℕ) → kind cmd ≢ silent) {one_shot : Bool} {s : System}
    → Reachable kind (started_server one_shot) s
    → (s.server ≡ reading → s.shared.responded ≡ s.shared.started)
      × ((owed : List ℕ) × ((length owed ≤ 1) × (s.shared.started ≡ s.shared.responded ++ owed)))
Reachable-owed kind answered {s} r =
    let inv = Reachable-Inv answered r in
    (
      λ (e : s.server ≡ reading).
          reading_owed s.shared s.traffic
            (subst (λ (x : ServerPc). Inv (at s.shared x s.traffic)) e inv),
      (_, (owed_one s.shared s.server s.traffic inv.agrees, inv.owed)),
    )
