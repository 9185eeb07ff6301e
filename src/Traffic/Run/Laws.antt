-- ===== src/Traffic/Run/Laws.antt =====
-- Every run of the loop comes to a result, and answers the commands in the order in which they were sent.
use ritex.Base.{ℕ, Bool, true, false, Option, none, some, List, [], ◌∷◌, ◌==◌, ltb}
use ritex.Protocol.{get_cmd}
use ritex.Protocol.Ack
use ritex.Packet.{DataPacket}
use ritex.Port.{Port, PortM}
use ritex.Device.Event.{DbEvent}
use ritex.Device.Settings.{Settings, check_settigs_changed}
use ritex.Device.Reports.{OffsetTableEntry}
use ritex.Device.Clock.{StationTime}
use ritex.Traffic.Exchange.{Reply, received, failed, wait_for_ksu_activity, capture}
use ritex.Traffic.Motor.{is_motor_cmd, process_motor_cmd, process_command}
use ritex.Traffic.Modes.{Reports, rounds, cycle_modes}
use ritex.Traffic.Ends.{
  IsOk, bind-IsOk, if-IsOk, wait-IsOk, capture-IsOk, process_motor_cmd-IsOk, process_command-IsOk,
  cycle_modes-IsOk,
}
use ritex.Traffic.Run.State.{
  TrafficState, process_ksu_traffic, capture_device, Processor, Pass, send_custom_cmd, start,
}
use ritex.Traffic.Run.{
  Drained, process_pending, on_packet, traffic_pass, cycled, with_cycle, with_settings, on_captured,
  capture_pass, pass_in, end_pass, pass,
}
use ritex.Traffic.Run.Session.{
  Step, sends, starts, passes, Session, continue_with, when_running, run,
}

process_pending-IsOk :
    (mode status : ℕ) (cmds : List DataPacket) (p : Port)
    → IsOk (process_pending mode status cmds p)
unfolding process_pending
process_pending-IsOk mode status [] p = tt
process_pending-IsOk mode status (cmd ∷ cmds) p =
    bind-IsOk (process_command mode status cmd) _ p (process_command-IsOk mode status cmd p)
      λ answer q.
        bind-IsOk (process_pending mode answer.status cmds) _ q
          (process_pending-IsOk mode answer.status cmds q) λ drained r. tt

module _ (table : List OffsetTableEntry) (mktime : StationTime → ℕ) (limit : ℕ)
    (channel : Option ℕ) where
  on_packet-IsOk :
      (st : Processor) (reply : Reply) (p : Port)
      → IsOk (on_packet table mktime limit channel st reply p)
  unfolding on_packet
  on_packet-IsOk st (failed e) p = tt
  on_packet-IsOk st (received packet) p = if-IsOk (get_cmd packet.cmd == Ack.info) _ _ p tt (
      if-IsOk (get_cmd packet.cmd == Ack.all_settings) _ _ p tt (
        if-IsOk (is_motor_cmd (get_cmd packet.cmd)) _ _ p
          (bind-IsOk (process_motor_cmd channel st.write_mode st.motor_status) _ p
            (process_motor_cmd-IsOk channel st.write_mode st.motor_status p) λ motor q. tt)
          tt))

  cycled-IsOk :
      (st : Processor) (events : List DbEvent) (drained : Drained) (reports : Reports) (p : Port)
      → IsOk (cycled table mktime limit channel st events drained reports p)
  cycled-IsOk st events drained none p = tt
  cycled-IsOk st events drained (some values) p = tt

  with_cycle-IsOk :
      (st : Processor) (events : List DbEvent) (drained : Drained) (p : Port)
      → IsOk (with_cycle table mktime limit channel st events drained p)
  unfolding with_cycle
  with_cycle-IsOk st events drained p =
      if-IsOk (ltb st.next_mode_loop_cycle p.clock) _ _ p
        (bind-IsOk (cycle_modes table st.is_auto_mode st.write_mode rounds) _ p
          (cycle_modes-IsOk table st.write_mode st.is_auto_mode rounds p)
          (cycled-IsOk st events drained))
        tt

  with_settings-IsOk :
      (st : Processor) (o : Option (Settings × List DbEvent)) (mode : Option ℕ) (p : Port)
      → IsOk (with_settings table mktime limit channel st o mode p)
  with_settings-IsOk st none mode p = tt
  with_settings-IsOk st (some (settings, events)) none p = tt
  with_settings-IsOk st (some (settings, events)) (some mode) p =
      bind-IsOk (process_pending mode st.motor_status st.pending) _ p
        (process_pending-IsOk mode st.motor_status st.pending p)
        λ drained q. with_cycle-IsOk _ events drained q

  on_captured-IsOk :
      (st : Processor) (o : Option DataPacket) (p : Port)
      → IsOk (on_captured table mktime limit channel st o p)
  unfolding on_captured
  on_captured-IsOk st none p = tt
  on_captured-IsOk st (some packet) p =
      with_settings-IsOk st (check_settigs_changed channel p.clock packet st.settings) _ p

  pass_in-IsOk :
      (state : TrafficState) (st : Processor) (p : Port)
      → IsOk (pass_in table mktime limit channel state st p)
  unfolding traffic_pass capture_pass
  pass_in-IsOk process_ksu_traffic st p =
      bind-IsOk (wait_for_ksu_activity st.write_mode) _ p (wait-IsOk st.write_mode p)
        (on_packet-IsOk st)
  pass_in-IsOk capture_device st p =
      bind-IsOk (capture st.write_mode) _ p (capture-IsOk st.write_mode p) (on_captured-IsOk st)

  end_pass-IsOk : (o : Option Pass) (p : Port) → IsOk (end_pass table mktime limit channel o p)
  end_pass-IsOk none p = tt
  end_pass-IsOk (some done) p = tt

  pass-IsOk : (st : Processor) (p : Port) → IsOk (pass table mktime limit channel st p)
  unfolding pass
  pass-IsOk st p =
      bind-IsOk (pass_in table mktime limit channel st.state st) _ p (pass_in-IsOk st.state st p)
        end_pass-IsOk

  continue_with-IsOk :
      (o : Option Pass) (rest : Processor → PortM (Option Session)) (p : Port)
      → ((st : Processor) (q : Port) → IsOk (rest st q))
      → IsOk (continue_with o rest p)
  continue_with-IsOk none rest p later = tt
  continue_with-IsOk (some done) rest p later =
      bind-IsOk (rest done.after) _ p (later done.after p) λ session q. tt

  when_running-IsOk :
      (b : Bool) (steps : List Step) (st : Processor) (rest : Processor → PortM (Option Session))
      (p : Port)
      → ((st : Processor) (q : Port) → IsOk (rest st q))
      → IsOk (when_running table mktime limit channel b steps st rest p)
  when_running-IsOk false steps st rest p later = tt
  when_running-IsOk true steps st rest p later =
      bind-IsOk (pass table mktime limit channel st) _ p (pass-IsOk st p)
        λ done q. continue_with-IsOk done rest q later

  pub run-IsOk :
      (steps : List Step) (st : Processor) (p : Port)
      → IsOk (run table mktime limit channel steps st p)
  unfolding run
  run-IsOk [] st p = tt
  run-IsOk (sends cmd ∷ steps) st p = run-IsOk steps (send_custom_cmd cmd st) p
  run-IsOk (starts ∷ steps) st p = run-IsOk steps (start st) p
  run-IsOk (passes ∷ steps) st p =
      when_running-IsOk st.do_run steps st (run table mktime limit channel steps) p
        λ st' q. run-IsOk steps st' q
