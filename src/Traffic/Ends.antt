-- ===== src/Traffic/Ends.antt =====
-- The conversations with the station come to a result for every list of events: their errors are values, and no
-- loop of the model runs out of fuel.
use ritex.Base.{
  ℕ, Bool, true, false, ◌&&◌, Option, none, some, List, [], ◌∷◌, if◌then◌else◌, ◌==◌, get_or,
}
use ritex.Protocol.{get_cmd}
use ritex.Protocol.Ack
use ritex.Protocol.Req
use ritex.Packet.{DataPacket, set_cmd_mode}
use ritex.Port.{Port, PortM, ◌>>=◌, Outcome, ok, err, stuck, Error, write_packet, read_packet}
use ritex.Port.Returns.{IsReturned, read_packet-IsReturned}
use ritex.Device.Reports.{OffsetTableEntry, report_data_packet}
use ritex.Traffic.Exchange.{
  Reply, received, failed, wait_for_ksu_activity, send, change_mode, get_passwords, set_password,
  capture_device, with_password, when_captured, capture,
}
use ritex.Traffic.Motor.{
  third_packet, second_packet, first_packet, process_motor_cmd, motor_reply, answer,
  process_command, is_motor_cmd,
}
use ritex.Traffic.Modes.{is_skipped, target, Reports, go_on, report_mode, in_mode, cycle_modes}

abbrev pub IsOk {ℓ} : {A : Type ℓ} → Outcome A → Type 0
IsOk (ok a q) = Unit
IsOk (err e q) = ⊥
IsOk stuck = ⊥

bound {ℓ κ} :
    {A : Type ℓ} {B : Type κ} (o : Outcome A) (f : A → PortM B)
    → IsOk o
    → ((a : A) (q : Port) → IsOk (f a q))
    → IsOk (elim o as (λ x. Outcome B) [ ok a q ↦ f a q | err e q ↦ err e q | stuck ↦ stuck ])
bound (ok a q) f h later = later a q
bound (err e q) f h later = absurd h
bound stuck f h later = absurd h

pub bind-IsOk {ℓ κ} :
    {A : Type ℓ} {B : Type κ} (m : PortM A) (f : A → PortM B) (p : Port)
    → IsOk (m p)
    → ((a : A) (q : Port) → IsOk (f a q))
    → IsOk ((m >>= f) p)
bind-IsOk m f p h later = bound (m p) f h later

pub if-IsOk {ℓ} :
    {A : Type ℓ} (b : Bool) (m n : PortM A) (p : Port)
    → IsOk (m p)
    → IsOk (n p)
    → IsOk ((if b then m else n) p)
if-IsOk true m n p h k = h
if-IsOk false m n p h k = k

replied :
    (o : Outcome DataPacket)
    → IsReturned o
    → IsOk (elim o as (λ x. Outcome Reply) [
      | ok packet q ↦ ok (received packet) q
      | err e q ↦ ok (failed e) q
      | stuck ↦ stuck
    ])
replied (ok packet q) h = tt
replied (err e q) h = tt
replied stuck h = absurd h

pub wait-IsOk : (mode : ℕ) (p : Port) → IsOk (wait_for_ksu_activity mode p)
unfolding wait_for_ksu_activity
wait-IsOk mode p = replied (read_packet mode p) (read_packet-IsReturned mode p)

-- A request that is sent, and what is made of the reply.
pub asked {ℓ} :
    {A : Type ℓ} (cmd : ℕ) (bytes : List ℕ) (mode : ℕ) (f : Reply → PortM A) (p : Port)
    → ((reply : Reply) (q : Port) → IsOk (f reply q))
    → IsOk ((send cmd bytes >>= λ sent. wait_for_ksu_activity mode >>= f) p)
unfolding send write_packet
asked cmd bytes mode f p later = bind-IsOk (wait_for_ksu_activity mode) f _ (wait-IsOk mode _) later

capture_device-IsOk : (mode : ℕ) (p : Port) → IsOk (capture_device mode p)
unfolding capture_device
capture_device-IsOk mode p = asked Req.device_req [] mode _ p λ reply q. tt

get_passwords-IsOk : (mode : ℕ) (p : Port) → IsOk (get_passwords mode p)
unfolding get_passwords
get_passwords-IsOk mode p = asked Req.password_get [] mode _ p λ reply q. tt

set_password-IsOk : (mode password : ℕ) (p : Port) → IsOk (set_password mode password p)
unfolding set_password
set_password-IsOk mode password p = asked Req.setting_set _ mode _ p λ reply q. tt

with_password-IsOk :
    (mode : ℕ) (o : Option (ℕ × ℕ)) (e : Option Error) (p : Port)
    → IsOk (with_password mode (o, e) p)
unfolding with_password
with_password-IsOk mode none e p = tt
with_password-IsOk mode (some (hi, low)) e p =
    bind-IsOk (set_password mode _) _ p (set_password-IsOk mode _ p) λ result q. tt

when_captured-IsOk :
    (mode : ℕ) (b : Bool) (e : Option Error) (p : Port) → IsOk (when_captured mode (b, e) p)
unfolding when_captured
when_captured-IsOk mode false e p = tt
when_captured-IsOk mode true e p =
    bind-IsOk (get_passwords mode) (with_password mode) p (get_passwords-IsOk mode p)
      λ r q. let (o, e') = r in with_password-IsOk mode o e' q

pub capture-IsOk : (mode : ℕ) (p : Port) → IsOk (capture mode p)
unfolding capture
capture-IsOk mode p =
    bind-IsOk (capture_device mode) (when_captured mode) p (capture_device-IsOk mode p)
      λ r q. let (b, e) = r in when_captured-IsOk mode b e q

module _ (channel : Option ℕ) (mode status : ℕ) where
  third_packet-IsOk : (reply : Reply) (p : Port) → IsOk (third_packet channel status reply p)
  third_packet-IsOk (failed e) p = tt
  third_packet-IsOk (received packet) p = if-IsOk (get_cmd packet.cmd == Ack.info) _ _ p tt tt

  second_packet-IsOk : (reply : Reply) (p : Port) → IsOk (second_packet channel mode status reply p)
  second_packet-IsOk (failed e) p = tt
  second_packet-IsOk (received packet) p =
      if-IsOk (get_cmd packet.cmd == Req.info) _ _ p
        (bind-IsOk (wait_for_ksu_activity mode) _ p (wait-IsOk mode p) third_packet-IsOk) tt

  first_packet-IsOk : (reply : Reply) (p : Port) → IsOk (first_packet channel mode status reply p)
  first_packet-IsOk (failed e) p = tt
  first_packet-IsOk (received packet) p =
      if-IsOk (get_cmd packet.cmd == Ack.ack && get_or packet.bytes 0 0 == 0) _ _ p
        (bind-IsOk (wait_for_ksu_activity mode) _ p (wait-IsOk mode p) second_packet-IsOk) tt

  pub process_motor_cmd-IsOk : (p : Port) → IsOk (process_motor_cmd channel mode status p)
  unfolding process_motor_cmd
  process_motor_cmd-IsOk p =
      bind-IsOk (wait_for_ksu_activity mode) _ p (wait-IsOk mode p) first_packet-IsOk

module _ (mode cmd status : ℕ) where
  motor_reply-IsOk : (packet : DataPacket) (p : Port) → IsOk (motor_reply mode cmd status packet p)
  motor_reply-IsOk packet p =
      if-IsOk (get_cmd packet.cmd == Ack.ack) _ _ p
        (if-IsOk (get_or packet.bytes 0 0 == 0) _ _ p (asked Req.info [] mode _ p λ reply q. tt) tt)
        tt

  answer-IsOk : (reply : Reply) (p : Port) → IsOk (answer mode cmd status reply p)
  answer-IsOk (failed e) p = tt
  answer-IsOk (received packet) p =
      if-IsOk (is_motor_cmd (get_cmd cmd)) _ _ p (motor_reply-IsOk packet p) tt

pub process_command-IsOk :
    (mode status : ℕ) (command : DataPacket) (p : Port)
    → IsOk (process_command mode status command p)
unfolding process_command write_packet
process_command-IsOk mode status command p =
    bind-IsOk (wait_for_ksu_activity mode) _ _ (wait-IsOk mode _)
      λ reply q. answer-IsOk mode command.cmd status reply q

change_mode-IsOk : (mode value : ℕ) (p : Port) → IsOk (change_mode mode value p)
unfolding change_mode
change_mode-IsOk mode value p = asked Req.setting_set _ mode _ p λ reply q. tt

module _ (table : List OffsetTableEntry) (mode : ℕ) where
  go_on-IsOk :
      (reports : Reports) (rest : PortM Reports) (p : Port)
      → ((q : Port) → IsOk (rest q))
      → IsOk (go_on reports rest p)
  go_on-IsOk none rest p later = tt
  go_on-IsOk (some reports) rest p later = bind-IsOk rest _ p (later p) λ more q. tt

  report_mode-IsOk :
      (value : ℕ) (rest : PortM Reports) (reply : Reply) (p : Port)
      → ((q : Port) → IsOk (rest q))
      → IsOk (report_mode table value rest reply p)
  report_mode-IsOk value rest (failed e) p later = tt
  report_mode-IsOk value rest (received packet) p later =
      go_on-IsOk (report_data_packet table (set_cmd_mode packet value)) rest p later

  in_mode-IsOk :
      (value : ℕ) (rest : PortM Reports) (b : Bool) (e : Option Error) (p : Port)
      → ((q : Port) → IsOk (rest q))
      → IsOk (in_mode table mode value rest (b, e) p)
  in_mode-IsOk value rest false e p later = tt
  in_mode-IsOk value rest true e p later =
      asked Req.info [] mode _ p λ reply q. report_mode-IsOk value rest reply q later

  pub cycle_modes-IsOk :
      (is_auto : Bool) (is : List ℕ) (p : Port) → IsOk (cycle_modes table is_auto mode is p)
  unfolding cycle_modes
  cycle_modes-IsOk is_auto [] p = tt
  cycle_modes-IsOk is_auto (i ∷ is) p =
      if-IsOk (is_skipped is_auto mode i) (cycle_modes table is_auto mode is) _ p
        (cycle_modes-IsOk is_auto is p)
        (bind-IsOk (change_mode mode (target mode i)) _ p (change_mode-IsOk mode (target mode i) p)
          λ r q.
            let (b, e) = r in
            in_mode-IsOk (target mode i) (cycle_modes table is_auto mode is) b e q
              λ s. cycle_modes-IsOk is_auto is s)
