-- ===== src/Traffic/Fault.antt =====
-- The report of faults: `CheckAndReportFault` of src/ComTrafficProcessor.cpp. `none` is a read behind
-- the data of a packet.
pub mod Laws
use ritex.Base.{
  ℕ, Bool, true, false, not, Option, none, some, List, [], ◌∷◌, ◌++◌, ◌==◌, if◌then◌else◌, ltb,
  get_elem?, ◌>>=◌,
}
use ritex.Protocol.{get_cmd}
use ritex.Protocol.Ack
use ritex.Packet.{DataPacket}
use ritex.Device.Event.{DbEvent}
use ritex.Device.Faults.{report_fault}

-- `m_isInFault` and `m_faultCode`, where -1 is `none`.
pub record FaultState : Type 0 where
  pub is_in_fault : Bool
  pub fault_code : Option ℕ

-- The constructor of the class.
abbrev pub initial : FaultState
initial = record { is_in_fault = false; fault_code = none }

-- `error_code != m_faultCode`.
abbrev pub differs_from : ℕ → Option ℕ → Bool
differs_from code none = true
differs_from code (some kept) = not (code == kept)

-- The state machine, on the error code of a packet and its time.
unfoldable pub check_code : Option ℕ → ℕ → ℕ → FaultState → FaultState × List DbEvent
check_code channel code time st =
    if not st.is_in_fault
    then (if ltb 0 code
        then (
          record { is_in_fault = true; fault_code = some code },
          report_fault channel code time ∷ [],
        )
        else (st, []))
    else if code == 0
    then (record { is_in_fault = false; fault_code = some 0 }, report_fault channel 0 time ∷ [])
    else if differs_from code st.fault_code
    then (record st { fault_code = some code }, report_fault channel code time ∷ [])
    else (st, [])

-- Mode 1 is left out, since its replies carry no error code. The result of the function, which is
-- always false, is dropped.
unfoldable pub check_and_report_fault :
    Option ℕ → DataPacket → FaultState → Option (FaultState × List DbEvent)
check_and_report_fault channel packet st =
    if packet.cmd == Ack.info_mode 1
    then some (st, [])
    else if get_cmd packet.cmd == Ack.info
    then (do
      vd_state ← get_elem? packet.bytes 0
      error_code ← get_elem? packet.bytes 1
      some (check_code channel error_code packet.timestamp st))
    else some (st, [])
