-- ===== src/Traffic/Run/Session.antt =====
-- The loop of `Run` and what other threads do beside it, in any order: `SendCustomCmd` and `Start` of a
-- command are two steps, and both may come before a pass, before the loop leaves, or behind its end. A
-- run begins behind the wait for the start of a loop without data capture.
use ritex.Base.{Bool, true, false, Option, none, some, List, [], ◌∷◌, ◌++◌, ℕ}
use ritex.Packet.{DataPacket}
use ritex.Port.{PortM, ◌>>=◌, return}
use ritex.Device.Event.{DbEvent}
use ritex.Device.Reports.{OffsetTableEntry, DbDataPacket}
use ritex.Device.Clock.{StationTime}
use ritex.Traffic.Motor.{Answer}
use ritex.Traffic.Run.State.{Processor, Pass, send_custom_cmd, start}
use ritex.Traffic.Run.{pass}

-- `SendCustomCmd`, `Start`, or the condition of the loop with the pass or the end that follows it.
pub data Step : Type 0 where
  sends : DataPacket → Step
  starts passes : Step

-- What was reported and answered; the commands that the end of the loop deleted, whether it notified its
-- exit, and the steps that came behind it.
pub record Session : Type 0 where
  pub after : Processor
  pub events : List DbEvent
  pub values : List DbDataPacket
  pub answers : List (DataPacket × Answer)
  pub deleted : List DataPacket
  pub is_exited : Bool
  pub left : List Step

abbrev pub at_rest : Processor → Session
at_rest st = record {
  after = st;
  events = [];
  values = [];
  answers = [];
  deleted = [];
  is_exited = false;
  left = [];
}

-- Behind the loop: the commands that wait are deleted, and the exit is notified. What is sent later
-- finds no loop.
abbrev pub exited : Processor → List Step → Session
exited st steps = record {
  after = record st { pending = [] };
  events = [];
  values = [];
  answers = [];
  deleted = st.pending;
  is_exited = true;
  left = steps;
}

abbrev pub joined : Pass → Session → Session
joined done later = record later {
  events = done.events ++ later.events;
  values = done.values ++ later.values;
  answers = done.answers ++ later.answers;
}

abbrev pub join : Pass → Option Session → Option Session
join done none = none
join done (some later) = some (joined done later)

abbrev pub continue_with :
    Option Pass → (Processor → PortM (Option Session)) → PortM (Option Session)
continue_with none rest = return none
continue_with (some done) rest = do later ← rest done.after; return (join done later)

module _ (table : List OffsetTableEntry) (mktime : StationTime → ℕ) (limit : ℕ)
    (channel : Option ℕ) where
  -- The loop ends where its condition is false.
  abbrev pub when_running :
      Bool → List Step → Processor → (Processor → PortM (Option Session)) → PortM (Option Session)
  when_running false steps st rest = return (some (exited st steps))
  when_running true steps st rest = do
    done ← pass table mktime limit channel st
    continue_with done rest

  unfoldable pub run : List Step → Processor → PortM (Option Session)
  run [] st = return (some (at_rest st))
  run (sends cmd ∷ steps) st = run steps (send_custom_cmd cmd st)
  run (starts ∷ steps) st = run steps (start st)
  run (passes ∷ steps) st = when_running st.do_run steps st (run steps)
