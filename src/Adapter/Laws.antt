-- ===== src/Adapter/Laws.antt =====
-- When the adapter serves clients.
use ritex.Base.{
  ℕ, ◌<◌, ◌^◌, ◌≡◌, refl, ap, ◌∙◌, Bool, true, false, Option, none, some, List, [], if◌then◌else◌,
  ltb, arith,
}
use mathlib.Core.Path.{subst}
use ritex.CmdLine.Words.{bytes_of}
use ritex.CmdLine.Compile.{Compiled}
use ritex.CmdLine.Compile.Laws.{bind_some}
use ritex.Commands.{DeviceCommand, Created, create_command, get_int_parameter}
use ritex.Commands.Laws.{some_inj}
use ritex.Device.Reports.{FilterItem}
use ritex.Adapter.Process.{Context, context_error, context_parent, context_daemon, gone, become}
use ritex.Adapter.Run.{
  Query, cannot_open, not_prepared, rows, items_of, update_parameter_filter, Prepared,
  create_logger_facility, served, DaemonRun, daemon_run, World, Ended, returned, in_daemon,
  is_hw_command, run_compiled, in_context, with_command,
}

-- The rows that a query finds; none where it cannot be prepared.
abbrev pub found_items : Query → Option (List FilterItem)
found_items cannot_open = none
found_items not_prepared = some []
found_items (rows found) = some (items_of found)

-- Everything that the daemon needs.
pub record IsReady (device_id : ℕ) (p : Prepared) (d : DaemonRun) : Type 0 where
  pub device : 0 < device_id
  pub filter : found_items p.device_rows ≡ some d.param_filter
  pub for_all : found_items p.all_rows ≡ some d.filter_for_all
  pub settings : p.settings ≡ true
  pub event_logger : p.event_logger ≡ true
  pub data_logger : p.data_logger ≡ true
  pub cleaned : d.is_cleaned ≡ true

ready :
    {id : ℕ} {dq aq : Query} {f g : List FilterItem}
    → 0 < id
    → found_items dq ≡ some f
    → found_items aq ≡ some g
    → IsReady id
        (record {
          device_rows = dq;
          all_rows = aq;
          settings = true;
          event_logger = true;
          data_logger = true;
        })
        (record { end = served; param_filter = f; filter_for_all = g; is_cleaned = true })
ready device filter for_all = record {
  device = device;
  filter = filter;
  for_all = for_all;
  settings = refl;
  event_logger = refl;
  data_logger = refl;
  cleaned = refl;
}

prepared_served :
    (id : ℕ) (dq aq : Query) (s e d : Bool)
    → let p : Prepared = record {
      device_rows = dq;
      all_rows = aq;
      settings = s;
      event_logger = e;
      data_logger = d;
    } in
      ltb 0 id ≡ true → (daemon_run id p).end ≡ served → IsReady id p (daemon_run id p)
unfolding daemon_run update_parameter_filter create_logger_facility
prepared_served id cannot_open aq s e d h k = absurd (ground (arith, h, k))
prepared_served id not_prepared cannot_open s e d h k = absurd (ground (arith, h, k))
prepared_served id (rows l) cannot_open s e d h k = absurd (ground (arith, h, k))
prepared_served id dq aq false e d h k = absurd (ground (arith, h, k))
prepared_served id dq aq true false d h k = absurd (ground (arith, h, k))
prepared_served id dq aq true true false h k = absurd (ground (arith, h, k))
prepared_served id not_prepared not_prepared true true true h k =
    rw h (ready (ground (arith, h)) refl refl)
prepared_served id not_prepared (rows m) true true true h k =
    rw h (ready (ground (arith, h)) refl refl)
prepared_served id (rows l) not_prepared true true true h k =
    rw h (ready (ground (arith, h)) refl refl)
prepared_served id (rows l) (rows m) true true true h k = rw h (ready (ground (arith, h)) refl refl)

served_above :
    (id : ℕ) (p : Prepared) (above : Bool)
    → ltb 0 id ≡ above
    → (daemon_run id p).end ≡ served
    → IsReady id p (daemon_run id p)
unfolding daemon_run
served_above id p true h k =
    prepared_served id p.device_rows p.all_rows p.settings p.event_logger p.data_logger h k
served_above id p false h k = absurd (ground (arith, h, k))

daemon_run-IsReady :
    (id : ℕ) (p : Prepared) → (daemon_run id p).end ≡ served → IsReady id p (daemon_run id p)
daemon_run-IsReady id p k = served_above id p (ltb 0 id) refl k

-- An end in the daemon is the run of the daemon, in its context and for a device that is not negative.
abbrev InDaemon : World → ℕ → DaemonRun → Type 0
InDaemon w id d =
    (become w.calls ≡ context_daemon) × ((id < 2 ^ 31) × (daemon_run id w.prepared ≡ d))

context_InDaemon :
    (w : World) (id : ℕ) (d : DaemonRun) (context : Context)
    → become w.calls ≡ context
    → id < 2 ^ 31
    → in_context w id context ≡ in_daemon d
    → InDaemon w id d
context_InDaemon w id d context_daemon e small h = (e, (small, cc h))
context_InDaemon w id d context_error e small h = absurd (ground (arith, h))
context_InDaemon w id d gone e small h = absurd (ground (arith, h))
context_InDaemon w id d context_parent e small h = absurd (ground (arith, h))

hardware_InDaemon :
    (w : World) (id : ℕ) (d : DaemonRun) (small : Bool)
    → ltb id (2 ^ 31) ≡ small
    → (if small then in_context w id (become w.calls) else returned false []) ≡ in_daemon d
    → InDaemon w id d
hardware_InDaemon w id d true e h =
    context_InDaemon w id d (become w.calls) refl (ground (arith, e)) h
hardware_InDaemon w id d false e h = absurd (ground (arith, h))

command_InDaemon :
    (w : World) (id : ℕ) (d : DaemonRun) (command : Option DeviceCommand)
    → with_command w id command ≡ in_daemon d
    → (InDaemon w id d) × ((c : DeviceCommand) × ((command ≡ some c) × (is_hw_command c ≡ true)))
command_InDaemon w id d none h = absurd (ground (arith, h))
command_InDaemon w id d (some (DeviceCommand.start_measurement comm speed)) h =
    (hardware_InDaemon w id d (ltb id (2 ^ 31)) refl h, (_, (refl, refl)))
command_InDaemon w id d (some (DeviceCommand.test_device comm speed)) h =
    (hardware_InDaemon w id d (ltb id (2 ^ 31)) refl h, (_, (refl, refl)))
command_InDaemon w id d (some (DeviceCommand.external comm speed e)) h =
    (hardware_InDaemon w id d (ltb id (2 ^ 31)) refl h, (_, (refl, refl)))
command_InDaemon w id d (some command) h = absurd (ground (arith, h))

-- Where Run of the adapter ends as a daemon that has served clients, for a compiled line and
-- whatever the system and the data base gave: its process is the daemon; the device is above 0 and
-- below 2 ^ 31; both data bases of the filters were opened, and the filters are the rows of the two
-- queries; the settings were read, both loggers were created, the cleanup was made; and the line
-- created a command for the station.
pub run_compiled-served :
    (w : World) (c : Compiled) (level : ℕ) (d : DaemonRun)
    → run_compiled w c ≡ some (level, in_daemon d)
    → d.end ≡ served
    → (become w.calls ≡ context_daemon)
      × ((c.device_id < 2 ^ 31)
          × (IsReady c.device_id w.prepared d
              × ((created : Created) × ((create_command w.conversions w.unset w.time_diviation c
                      ≡ some created)
                    × ((command : DeviceCommand) × ((created.command ≡ some command)
                          × (is_hw_command command ≡ true)))))))
unfolding run_compiled
run_compiled-served w c level d h k =
    let (known, got, rest) =
      bind_some (get_int_parameter c (bytes_of "debug") 0) _ (level, in_daemon d) h in
    let (created, made, last) =
      bind_some (create_command w.conversions w.unset w.time_diviation c) _ (level, in_daemon d)
        rest in
    let ended : with_command w c.device_id created.command ≡ in_daemon d =
      ap (λ (x : ℕ × Ended). x.1) (some_inj last) in
    let ((context, (small, same)), command) =
      command_InDaemon w c.device_id d created.command ended in
    (
      context,
      (
        small,
        (
          subst (IsReady c.device_id w.prepared) same
              (daemon_run-IsReady c.device_id w.prepared (ap (λ (x : DaemonRun). x.end) same ∙ k)),
          (created, (made, command)),
        ),
      ),
    )
