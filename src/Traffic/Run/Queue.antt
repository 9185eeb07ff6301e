-- ===== src/Traffic/Run/Queue.antt =====
-- The queue of commands over a run of the loop.
use ritex.Base.{
  ℕ, ◌≡◌, refl, ap, ◌∙◌, Bool, true, false, ◌||◌, Option, none, some, List, [], ◌∷◌, ◌==◌,
  if◌then◌else◌, ltb, append-nil,
}
use ritex.Protocol.{get_cmd}
use ritex.Protocol.Ack
use ritex.Packet.{DataPacket}
use ritex.Port.{Port, PortM, ◌>>=◌, Outcome, ok, err, stuck}
use ritex.Device.Event.{DbEvent}
use ritex.Device.Reports.{OffsetTableEntry}
use ritex.Traffic.Run.State.{Processor, Pass}
use ritex.Device.Settings.{Settings, check_settigs_changed}
use ritex.Device.Clock.{StationTime}
use ritex.Traffic.Exchange.{Reply, received, failed, wait_for_ksu_activity, capture}
use ritex.Traffic.Motor.{is_motor_cmd, process_motor_cmd, process_command}
use ritex.Traffic.Modes.{Reports, rounds, cycle_modes}
use ritex.Traffic.Ends.{
  IsOk, wait-IsOk, capture-IsOk, process_motor_cmd-IsOk, process_command-IsOk, cycle_modes-IsOk,
}
use ritex.Traffic.Run.State.{TrafficState, process_ksu_traffic, capture_device, is_waiting}
use ritex.Traffic.Run.{
  Drained, process_pending, on_packet, traffic_pass, cycled, with_cycle, with_settings, on_captured,
  capture_pass, pass_in, end_pass, pass,
}
use ritex.Traffic.Run.Kept.{commands_of, Kept, on_info-Kept, on_settings-Kept}

-- A result that fulfils P.
abbrev pub Gives {ℓ} : {A : Type ℓ} → (A → Type 0) → Outcome A → Type 0
Gives P (ok a q) = P a
Gives P (err e q) = ⊥
Gives P stuck = ⊥

gives {ℓ κ} :
    {A : Type ℓ} {B : Type κ} (P : A → Type 0) (R : B → Type 0) (o : Outcome A) (f : A → PortM B)
    → Gives P o
    → ((a : A) (q : Port) → P a → Gives R (f a q))
    → Gives R (elim o as (λ x. Outcome B) [ ok a q ↦ f a q | err e q ↦ err e q | stuck ↦ stuck ])
gives P R (ok a q) f h later = later a q h
gives P R (err e q) f h later = absurd h
gives P R stuck f h later = absurd h

pub bind-Gives {ℓ κ} :
    {A : Type ℓ} {B : Type κ} (P : A → Type 0) (R : B → Type 0) (m : PortM A) (f : A → PortM B)
    (p : Port)
    → Gives P (m p)
    → ((a : A) (q : Port) → P a → Gives R (f a q))
    → Gives R ((m >>= f) p)
bind-Gives P R m f p h later = gives P R (m p) f h later

anything {ℓ} : {A : Type ℓ} (o : Outcome A) → IsOk o → Gives (λ a. Unit) o
anything (ok a q) h = tt
anything (err e q) h = absurd h
anything stuck h = absurd h

if-Gives {ℓ} :
    {A : Type ℓ} (P : A → Type 0) (b : Bool) (m n : PortM A) (p : Port)
    → Gives P (m p)
    → Gives P (n p)
    → Gives P ((if b then m else n) p)
if-Gives P true m n p h k = h
if-Gives P false m n p h k = k

process_pending-commands :
    (mode status : ℕ) (cmds : List DataPacket) (p : Port)
    → Gives (λ drained. commands_of drained.answers ≡ cmds) (process_pending mode status cmds p)
unfolding process_pending
process_pending-commands mode status [] p = refl
process_pending-commands mode status (cmd ∷ cmds) p =
    bind-Gives (λ a. Unit) _ (process_command mode status cmd) _ p
      (anything _ (process_command-IsOk mode status cmd p))
      λ answer q u.
        bind-Gives (λ drained. commands_of drained.answers ≡ cmds) _
          (process_pending mode answer.status cmds) _ q
          (process_pending-commands mode answer.status cmds q) λ drained r same. ap (◌∷◌ cmd) same

module _ (table : List OffsetTableEntry) (mktime : StationTime → ℕ) (limit : ℕ)
    (channel : Option ℕ) where
  on_packet-Kept :
      (st : Processor) (reply : Reply) (p : Port)
      → Gives (Kept st) (on_packet table mktime limit channel st reply p)
  unfolding on_packet
  on_packet-Kept st (failed e) p = refl
  on_packet-Kept st (received packet) p =
      if-Gives (Kept st) (get_cmd packet.cmd == Ack.info) _ _ p
        (on_info-Kept table mktime limit channel p.clock packet st)
        (if-Gives (Kept st) (get_cmd packet.cmd == Ack.all_settings) _ _ p
          (on_settings-Kept table mktime limit channel p.clock packet st)
          (if-Gives (Kept st) (is_motor_cmd (get_cmd packet.cmd)) _ _ p
            (bind-Gives (λ a. Unit) (Kept st)
              (process_motor_cmd channel st.write_mode st.motor_status) _ p
              (anything _ (process_motor_cmd-IsOk channel st.write_mode st.motor_status p))
              λ motor q u. refl)
            refl))

  -- What a capture leaves: all commands are answered.
  cycled-Kept :
      (st : Processor) (events : List DbEvent) (drained : Drained) (reports : Reports) (p : Port)
      → commands_of drained.answers ≡ st.pending
      → Gives (Kept st) (cycled table mktime limit channel st events drained reports p)
  cycled-Kept st events drained none p same = tt
  cycled-Kept st events drained (some values) p same =
      append-nil (commands_of drained.answers) ∙ same

  with_cycle-Kept :
      (st : Processor) (events : List DbEvent) (drained : Drained) (p : Port)
      → commands_of drained.answers ≡ st.pending
      → Gives (Kept st) (with_cycle table mktime limit channel st events drained p)
  unfolding with_cycle
  with_cycle-Kept st events drained p same =
      if-Gives (Kept st) (ltb st.next_mode_loop_cycle p.clock) _ _ p
        (bind-Gives (λ a. Unit) (Kept st) (cycle_modes table st.is_auto_mode st.write_mode rounds) _
          p (anything _ (cycle_modes-IsOk table st.write_mode st.is_auto_mode rounds p))
          λ reports q u. cycled-Kept st events drained reports q same)
        (append-nil (commands_of drained.answers) ∙ same)

  with_settings-Kept :
      (st : Processor) (o : Option (Settings × List DbEvent)) (mode : Option ℕ) (p : Port)
      → Gives (Kept st) (with_settings table mktime limit channel st o mode p)
  with_settings-Kept st none mode p = tt
  with_settings-Kept st (some (settings, events)) none p = tt
  with_settings-Kept st (some (settings, events)) (some mode) p =
      bind-Gives (λ drained. commands_of drained.answers ≡ st.pending) (Kept st)
        (process_pending mode st.motor_status st.pending) _ p
        (process_pending-commands mode st.motor_status st.pending p)
        λ drained q same.
          with_cycle-Kept (record st { settings = settings; write_mode = mode }) events drained q
            same

  on_captured-Kept :
      (st : Processor) (o : Option DataPacket) (p : Port)
      → Gives (Kept st) (on_captured table mktime limit channel st o p)
  unfolding on_captured
  on_captured-Kept st none p = refl
  on_captured-Kept st (some packet) p =
      with_settings-Kept st (check_settigs_changed channel p.clock packet st.settings) _ p

  pass_in-Kept :
      (state : TrafficState) (st : Processor) (p : Port)
      → Gives (Kept st) (pass_in table mktime limit channel state st p)
  unfolding traffic_pass capture_pass
  pass_in-Kept process_ksu_traffic st p =
      bind-Gives (λ a. Unit) (Kept st) (wait_for_ksu_activity st.write_mode) _ p
        (anything _ (wait-IsOk st.write_mode p)) λ reply q u. on_packet-Kept st reply q
  pass_in-Kept capture_device st p =
      bind-Gives (λ a. Unit) (Kept st) (capture st.write_mode) _ p
        (anything _ (capture-IsOk st.write_mode p)) λ o q u. on_captured-Kept st o q

  -- The loop goes on while a command waits.
  abbrev pub IsIdle : Processor → Type 0
  IsIdle st = st.do_run ≡ false → st.pending ≡ []

  abbrev pub PassLeaves : Processor → Option Pass → Type 0
  PassLeaves st none = Unit
  PassLeaves st (some done) = Kept st (some done) × IsIdle done.after

  nothing_waits : (b : Bool) (cmds : List DataPacket) → b || is_waiting cmds ≡ false → cmds ≡ []
  nothing_waits b [] h = refl
  nothing_waits true (cmd ∷ cmds) h = absurd (cc h)
  nothing_waits false (cmd ∷ cmds) h = absurd (cc h)

  end_pass-leaves :
      (st : Processor) (o : Option Pass) (p : Port)
      → Kept st o
      → Gives (PassLeaves st) (end_pass table mktime limit channel o p)
  end_pass-leaves st none p kept = tt
  end_pass-leaves st (some done) p kept =
      (kept, nothing_waits done.after.is_data_capture done.after.pending)

  pub pass-leaves :
      (st : Processor) (p : Port) → Gives (PassLeaves st) (pass table mktime limit channel st p)
  unfolding pass
  pass-leaves st p =
      bind-Gives (Kept st) (PassLeaves st) (pass_in table mktime limit channel st.state st) _ p
        (pass_in-Kept st.state st p) λ done q kept. end_pass-leaves st done q kept
