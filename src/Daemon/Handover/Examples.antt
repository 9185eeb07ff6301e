-- ===== src/Daemon/Handover/Examples.antt =====
-- Two commands with two threads: one that the traffic answers, and one that nobody answers.
use ritex.Base.{ℕ, zero, suc, ◌≤◌, ◌≡◌, ◌≢◌, refl, true, false, List, [], ◌∷◌, ◌++◌, length, arith}
use ritex.Daemon.Handover.{
  Kind, queued, silent, System, reading, ServerMove, reads, clears, queues, starts, ends,
  says_nothing, waits, sleeps, SystemStep, serves, started_server, Reachable, start, later, takes,
  NotifyMove, TrafficMove, wakes, goes_on,
}
use ritex.Daemon.Handover.Stuck.{silent_waits}
use ritex.Daemon.Handover.Progress.{Reachable-owed}

abbrev all_queued : ℕ → Kind
all_queued cmd = queued

all_queued_answered : (cmd : ℕ) → all_queued cmd ≢ silent
all_queued_answered cmd e = ground (arith, e)

-- The command 7 stands in the queue, and the server sleeps.
abbrev asleep : (s : System) × Reachable all_queued (started_server false) s
asleep = (
  _,
  later
      (later
        (later
          (later
            (later
              (later (later (later start (serves (reads 7))) (serves (ServerMove.locks refl)))
                (serves clears))
              (serves ServerMove.unlocks))
            (serves (queues refl)))
          (serves (starts refl)))
        (serves (waits refl)))
      (serves (sleeps refl)),
)

-- The traffic has answered it, and the server has gone on.
abbrev answered_one : (s : System) × Reachable all_queued (started_server false) s
answered_one = (
  _,
  later
      (later
        (later
          (later
            (later
              (later
                (later (later asleep.1 (SystemStep.answers (takes refl)))
                  (SystemStep.answers (TrafficMove.notifies NotifyMove.sends)))
                (SystemStep.answers (TrafficMove.notifies (NotifyMove.locks refl))))
              (SystemStep.answers (TrafficMove.notifies NotifyMove.sets)))
            (SystemStep.answers (TrafficMove.notifies NotifyMove.signals)))
          (SystemStep.answers (TrafficMove.notifies NotifyMove.unlocks)))
        (serves (wakes refl refl)))
      (serves (goes_on refl)),
)

responded_one : answered_one.0.shared.responded ≡ 7 ∷ []
responded_one = refl

Reachable-owed_example :
    (answered_one.0.server ≡ reading
      → answered_one.0.shared.responded ≡ answered_one.0.shared.started)
    × ((owed : List ℕ) × ((length owed ≤ 1)
          × (answered_one.0.shared.started ≡ answered_one.0.shared.responded ++ owed)))
Reachable-owed_example = Reachable-owed all_queued all_queued_answered answered_one.1

-- The second command is silent, and the traffic ends beside it.
abbrev one_silent : ℕ → Kind
one_silent zero = queued
one_silent (suc cmd) = silent

abbrev at_silent : (s : System) × Reachable one_silent (started_server true) s
at_silent = (
  _,
  later
      (later (later (later start (serves (reads 1))) (serves (ServerMove.locks refl)))
        (serves clears))
      (serves ServerMove.unlocks),
)

abbrev beyond_silent : (s : System) × Reachable one_silent at_silent.0 s
beyond_silent = (
  _,
  later
      (later (later (later start (SystemStep.answers (ends refl))) (serves (says_nothing refl)))
        (serves (waits refl)))
      (serves (sleeps refl)),
)

silent_waits_example : beyond_silent.0.server ≢ reading
silent_waits_example = silent_waits 1 refl at_silent.1 refl beyond_silent.1
