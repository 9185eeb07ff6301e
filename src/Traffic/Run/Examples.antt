-- ===== src/Traffic/Run/Examples.antt =====
-- A run of the loop at concrete inputs.
use ritex.Base.{true, some, List, [], ◌∷◌}
use ritex.Protocol.{type_cmd}
use ritex.Protocol.Ack
use ritex.Protocol.Req
use ritex.Packet.{DataPacket, new_packet}
use ritex.Port.{Port, arrives, times_out}
use ritex.Device.Settings.{Settings}
use ritex.Traffic.Exchange.Laws.{raw_reply}
use ritex.Traffic.Run.State.{created}
use ritex.Traffic.Run.Session.{Step, sends, starts, passes, run}
use ritex.Traffic.Run.Queue.{Gives}
use ritex.Traffic.Run.Order.{InOrder, run-InOrder}

abbrev no_settings : Settings
no_settings = record { table = []; is_first_settings_packet = true }

-- A reply with information in mode 0, a second later, then silence.
abbrev info_port : Port
info_port = record {
  held = [];
  events = arrives 1 (raw_reply Ack.info (3 ∷ 0 ∷ 0 ∷ 0 ∷ [])) ∷ times_out 20 ∷ [];
  echo_cancel_fifo = [];
  written = [];
  clock = 100;
}

abbrev stop_command : DataPacket
stop_command = new_packet type_cmd 0x36 Req.vd_off 100

abbrev start_command : DataPacket
start_command = new_packet type_cmd 0x36 Req.vd_on 100

-- Two commands with their starts, and passes between and behind them.
abbrev steps : List Step
steps = sends stop_command ∷ starts ∷ passes ∷ sends start_command ∷ starts ∷ passes ∷ passes ∷ []

run-InOrder_example :
    Gives
      (InOrder [] (λ told. 0) 60 (some 3) (created true 100 no_settings) steps)
      (run [] (λ told. 0) 60 (some 3) steps (created true 100 no_settings) info_port)
run-InOrder_example =
    run-InOrder [] (λ told. 0) 60 (some 3) steps (created true 100 no_settings) info_port
