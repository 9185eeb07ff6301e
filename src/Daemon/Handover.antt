-- ===== src/Daemon/Handover.antt =====
-- Two threads and a result: the server of src/DaemonCommServer.cpp, which starts a command and waits on
-- a condition variable, and the thread that answers it by `OnResultReady`. Every access of the mutex, of
-- the flag and of the condition is a step of its own, and the steps of the two interleave in any order.
-- Commands are told apart by a number. The traffic takes a command off its queue at any time. A traffic
-- that captures no data may keep `m_startMutex` from the start of its `Run`, and may end at any time that
-- it has no command at hand, which deletes its queue; both are more than it does. The exit of the traffic
-- cancels the server: it makes no more steps.
pub mod Agreement
pub mod Invariant
pub mod Progress
pub mod Stuck
pub mod Examples
use ritex.Base.{
  ℕ, ◌+◌, ◌*◌, Bool, true, false, Option, none, some, List, [], ◌∷◌, ◌++◌, if◌then◌else◌, length,
  ◌≡◌,
}

-- What `Execute` does: the command is queued for the traffic, or its result is notified before
-- `Execute` returns, or `false` is returned; `silent` returns `true` and notifies nobody.
pub data Kind : Type 0 where
  queued at_once refused silent : Kind

-- `m_canProcessCommands`, whether `m_mutex` is locked, whether the condition was signalled since the
-- server began to wait on it, `m_pendingCmdQueue`, whether `Run` has kept `m_startMutex`, whether the
-- traffic captures no data (`oneShot` of `Create`), and the commands that were started and responded to.
pub record Shared : Type 0 where
  pub can_process : Bool
  pub locked : Bool
  pub signalled : Bool
  pub queue : List ℕ
  pub start_locked : Bool
  pub one_shot : Bool
  pub started : List ℕ
  pub responded : List ℕ

-- Where a thread stands in `OnResultReady`.
pub data Notify : Type 0 where
  sending : (cmd : ℕ) → Notify
  before_lock setting signalling before_unlock : Notify

-- `none` is the end of `OnResultReady`.
pub data NotifyMove (m : Shared) : Notify → Shared → Option Notify → Type 0 where
  sends :
      {cmd : ℕ}
      → NotifyMove m
          (sending cmd)
          (record m { responded = m.responded ++ (cmd ∷ []) })
          (some before_lock)
  locks : m.locked ≡ false → NotifyMove m before_lock (record m { locked = true }) (some setting)
  sets : NotifyMove m setting (record m { can_process = true }) (some signalling)
  signals : NotifyMove m signalling (record m { signalled = true }) (some before_unlock)
  unlocks : NotifyMove m before_unlock (record m { locked = false }) none

-- Where the server stands: in front of the next packet, at a command, in a notification of its own, or
-- `Start` of the traffic or at the wait for the result.
pub data ServerPc : Type 0 where
  reading : ServerPc
  locking clearing unlocking executing refusing : (cmd : ℕ) → ServerPc
  notifying : Notify → ServerPc
  starting to_wait testing waiting : ServerPc

abbrev pub after_notify : Option Notify → ServerPc
after_notify none = to_wait
after_notify (some n) = notifying n

module _ (kind : ℕ → Kind) where
  pub data ServerMove (m : Shared) : ServerPc → Shared → ServerPc → Type 0 where
    reads :
        (cmd : ℕ)
        → ServerMove m reading (record m { started = m.started ++ (cmd ∷ []) }) (locking cmd)
    locks :
        {cmd : ℕ}
        → m.locked ≡ false
        → ServerMove m (locking cmd) (record m { locked = true }) (clearing cmd)
    clears :
        {cmd : ℕ} → ServerMove m (clearing cmd) (record m { can_process = false }) (unlocking cmd)
    unlocks : {cmd : ℕ} → ServerMove m (unlocking cmd) (record m { locked = false }) (executing cmd)
    queues :
        {cmd : ℕ}
        → kind cmd ≡ queued
        → ServerMove m (executing cmd) (record m { queue = m.queue ++ (cmd ∷ []) }) starting
    starts : m.start_locked ≡ false → ServerMove m starting m to_wait
    answers :
        {cmd : ℕ} → kind cmd ≡ at_once → ServerMove m (executing cmd) m (notifying (sending cmd))
    refuses : {cmd : ℕ} → kind cmd ≡ refused → ServerMove m (executing cmd) m (refusing cmd)
    says_nothing : {cmd : ℕ} → kind cmd ≡ silent → ServerMove m (executing cmd) m to_wait
    responds :
        {cmd : ℕ}
        → ServerMove m (refusing cmd) (record m { responded = m.responded ++ (cmd ∷ []) }) reading
    notifies :
        {n : Notify} {t : Shared} {next : Option Notify}
        → NotifyMove m n t next
        → ServerMove m (notifying n) t (after_notify next)
    waits : m.locked ≡ false → ServerMove m to_wait (record m { locked = true }) testing
    sleeps :
        m.can_process ≡ false
        → ServerMove m testing (record m { locked = false; signalled = false }) waiting
    wakes :
        m.signalled ≡ true
        → m.locked ≡ false
        → ServerMove m waiting (record m { locked = true }) testing
    -- `pthread_cond_wait` may return with no signal.
    wakes_early : m.locked ≡ false → ServerMove m waiting (record m { locked = true }) testing
    goes_on : m.can_process ≡ true → ServerMove m testing (record m { locked = false }) reading

-- The thread of the traffic: at something else, while it is alive, or ended, with the commands that it
-- deleted; or in `NotifyResultReady` of a command.
pub data TrafficPc : Type 0 where
  elsewhere : (is_alive : Bool) (deleted : List ℕ) → TrafficPc
  notifying : Notify → TrafficPc

abbrev pub after_result : Option Notify → TrafficPc
after_result none = elsewhere true []
after_result (some n) = TrafficPc.notifying n

pub data TrafficMove (m : Shared) : TrafficPc → Shared → TrafficPc → Type 0 where
  takes :
      {cmd : ℕ} {rest : List ℕ}
      → m.queue ≡ cmd ∷ rest
      → TrafficMove m
          (elsewhere true [])
          (record m { queue = rest })
          (TrafficPc.notifying (sending cmd))
  -- The mutex that `Run` locks in front of a loop that is started already, and does not unlock.
  keeps_start :
      m.one_shot ≡ true
      → m.start_locked ≡ false
      → TrafficMove m (elsewhere true []) (record m { start_locked = true }) (elsewhere true [])
  -- The end of `Run`.
  ends :
      m.one_shot ≡ true
      → TrafficMove m (elsewhere true []) (record m { queue = [] }) (elsewhere false m.queue)
  notifies :
      {n : Notify} {t : Shared} {next : Option Notify}
      → NotifyMove m n t next
      → TrafficMove m (TrafficPc.notifying n) t (after_result next)

pub record System : Type 0 where
  pub shared : Shared
  pub server : ServerPc
  pub traffic : TrafficPc

pub data SystemStep (kind : ℕ → Kind) (s : System) : System → Type 0 where
  serves :
      {m : Shared} {p : ServerPc}
      → ServerMove kind s.shared s.server m p
      → SystemStep kind s (record { shared = m; server = p; traffic = s.traffic })
  answers :
      {m : Shared} {p : TrafficPc}
      → TrafficMove s.shared s.traffic m p
      → SystemStep kind s (record { shared = m; server = s.server; traffic = p })

-- A server that was started and reads its first packet, beside a traffic.
abbrev pub started_server : Bool → System
started_server one_shot = record {
  shared = record {
    can_process = true;
    locked = false;
    signalled = false;
    queue = [];
    start_locked = false;
    one_shot = one_shot;
    started = [];
    responded = [];
  };
  server = reading;
  traffic = elsewhere true [];
}

pub data Reachable (kind : ℕ → Kind) (s : System) : System → Type 0 where
  start : Reachable kind s s
  later : {t u : System} → Reachable kind s t → SystemStep kind t u → Reachable kind s u
