-- ===== src/Traffic/Fault/Laws.antt =====
-- The reports of a run of replies, and the error codes of these.
use ritex.Base.{
  ℕ, zero, suc, ◌≤◌, length, ◌≡◌, refl, Bool, true, false, Option, none, some, List, [], ◌∷◌, ◌++◌,
  ◌==◌, if◌then◌else◌, ltb, get_elem?, ◌>>=◌, All, arith,
}
use ritex.Protocol.{get_cmd}
use ritex.Protocol.Ack
use ritex.Packet.{DataPacket}
use ritex.Device.Event.{DbEvent, empty, text, error_number}
use ritex.Device.Faults.{report_fault, get_fault_text}
use ritex.Traffic.Fault.{FaultState, check_code, check_and_report_fault}

-- The code that the state stands for; 0 is no fault.
abbrev current_of : Bool → Option ℕ → ℕ
current_of false kept = 0
current_of true none = 0
current_of true (some kept) = kept

abbrev pub current : FaultState → ℕ
current st = current_of st.is_in_fault st.fault_code

abbrev is_valid_at : Bool → Option ℕ → Bool
is_valid_at false kept = true
is_valid_at true none = false
is_valid_at true (some kept) = ltb 0 kept

-- In a fault the kept code is the code of a fault.
abbrev pub IsValid : FaultState → Type 0
IsValid st = is_valid_at st.is_in_fault st.fault_code ≡ true

-- The event of a fault, with its text and number, and that of its end.
abbrev pub fault_event : Option ℕ → ℕ → ℕ → DbEvent
fault_event channel code time =
    if code == 0
    then record {
      type_id = 25;
      channel_id = channel;
      register_time = time;
      argument1 = empty;
      argument2 = empty;
      argument3 = empty;
      argument4 = empty;
    }
    else record {
      type_id = 8;
      channel_id = channel;
      register_time = time;
      argument1 = text (get_fault_text code);
      argument2 = error_number code;
      argument3 = empty;
      argument4 = empty;
    }

report_fault-fault_event :
    (channel : Option ℕ) (code time : ℕ)
    → report_fault channel code time ≡ fault_event channel code time
unfolding report_fault
report_fault-fault_event channel zero time = refl
report_fault-fault_event channel (suc code) time = ground arith

-- The abstract view: the last code, and a report of each code that differs from it.
abbrev pub change : Option ℕ → ℕ → ℕ → ℕ → List DbEvent
change channel code time last = if code == last then [] else fault_event channel code time ∷ []

abbrev state : Bool → Option ℕ → FaultState
state in_fault kept = record { is_in_fault = in_fault; fault_code = kept }

-- What the state machine does: it stands for the new code, and reports it if it is new.
abbrev Checked : Option ℕ → ℕ → ℕ → FaultState → FaultState × List DbEvent → Type 0
Checked channel code time st r =
    (current r.0 ≡ code) × (r.1 ≡ change channel code time (current st)) × IsValid r.0

check_code_fields :
    (channel : Option ℕ) (code time : ℕ) (in_fault : Bool) (kept : Option ℕ)
    → is_valid_at in_fault kept ≡ true
    → Checked channel code time
        (state in_fault kept)
        (check_code channel code time (state in_fault kept))
unfolding check_code
check_code_fields channel zero time false kept h = (refl, refl, refl)
check_code_fields channel (suc code) time false kept h =
    ground (arith, report_fault-fault_event channel (suc code) time)
check_code_fields channel code time true none h = absurd (ground (arith, h))
check_code_fields channel zero time true (some kept) h =
    ground (arith, h, report_fault-fault_event channel zero time)
check_code_fields channel (suc code) time true (some kept) h =
    ground (arith, h, report_fault-fault_event channel (suc code) time)

check_code_lem :
    (channel : Option ℕ) (code time : ℕ) (st : FaultState)
    → IsValid st
    → Checked channel code time st (check_code channel code time st)
check_code_lem channel code time st h =
    check_code_fields channel code time st.is_in_fault st.fault_code h

-- The error code that a packet reports: replies with information carry one, except in mode 1.
abbrev pub code_of : DataPacket → Option ℕ
code_of packet =
    if packet.cmd == Ack.info_mode 1
    then none
    else if get_cmd packet.cmd == Ack.info
    then get_elem? packet.bytes 1
    else none

abbrev pub changes : Option ℕ → ℕ → List DataPacket → List DbEvent
changes channel last [] = []
changes channel last (packet ∷ packets) = elim (code_of packet) [
  | none ↦ changes channel last packets
  | some code ↦ change channel code packet.timestamp last ++ changes channel code packets
]

abbrev and_then :
    List DbEvent → Option (FaultState × List DbEvent) → Option (FaultState × List DbEvent)
and_then es none = none
and_then es (some (st, fs)) = some (st, es ++ fs)

-- The packets one after the other.
abbrev pub check_packets :
    Option ℕ → List DataPacket → FaultState → Option (FaultState × List DbEvent)
check_packets channel [] st = some (st, [])
check_packets channel (packet ∷ packets) st = do
  r ← check_and_report_fault channel packet st
  and_then r.1 (check_packets channel packets r.0)

abbrev by_code : Option ℕ → ℕ → FaultState → Option ℕ → FaultState × List DbEvent
by_code channel time st none = (st, [])
by_code channel time st (some code) = check_code channel code time st

by_code_bytes :
    (channel : Option ℕ) (time : ℕ) (st : FaultState) (is_mode_1 is_info : Bool) (bytes : List ℕ)
    → 2 ≤ length bytes
    → (if is_mode_1
        then some (st, [])
        else if is_info
        then (do
          vd_state ← get_elem? bytes 0
          error_code ← get_elem? bytes 1
          some (check_code channel error_code time st))
        else some (st, []))
      ≡ some (
          by_code channel time st
            (if is_mode_1 then none else if is_info then get_elem? bytes 1 else none))
by_code_bytes channel time st true is_info bytes h = refl
by_code_bytes channel time st false false bytes h = refl
by_code_bytes channel time st false true [] h = absurd (omega arith)
by_code_bytes channel time st false true (a ∷ []) h = absurd (omega arith)
by_code_bytes channel time st false true (a ∷ b ∷ bytes) h = refl

check_and_report_fault-by_code :
    (channel : Option ℕ) (packet : DataPacket) (st : FaultState)
    → 2 ≤ length packet.bytes
    → check_and_report_fault channel packet st
      ≡ some (by_code channel packet.timestamp st (code_of packet))
unfolding check_and_report_fault
check_and_report_fault-by_code channel packet st h =
    by_code_bytes channel packet.timestamp st (packet.cmd == Ack.info_mode 1)
      (get_cmd packet.cmd == Ack.info) packet.bytes h

abbrev Run : Option ℕ → List DataPacket → FaultState → Type 0
Run channel packets st =
    (st' : FaultState) × (check_packets channel packets st
      ≡ some (st', changes channel (current st) packets))
    × IsValid st'

after_code :
    (channel : Option ℕ) (time : ℕ) (packets : List DataPacket) (st : FaultState) (o : Option ℕ)
    → IsValid st
    → ((next : FaultState) → IsValid next → Run channel packets next)
    → (st' : FaultState) × (and_then
          (by_code channel time st o).1
          (check_packets channel packets (by_code channel time st o).0)
        ≡ some (
          st',
          elim o [
            | none ↦ changes channel (current st) packets
            | some code ↦ change channel code time (current st) ++ changes channel code packets
          ],
        ))
      × IsValid st'
after_code channel time packets st none valid later =
    let (st', same, valid') = later st valid in (st', rw (same) refl, valid')
after_code channel time packets st (some code) valid later =
    let (now, reported, kept) = check_code_lem channel code time st valid in
    let (st', same, valid') = later (check_code channel code time st).0 kept in
    (st', rw (same, reported, now) refl, valid')

-- Over a run of packets of at least two bytes of data, from a valid state, the reported faults are
-- the changes of the error code, from the code that the state stands for on, each with the time of
-- its packet: a fault with the text and the number of its code, the end of a fault with neither;
-- and the state stays valid.
pub check_packets-changes :
    (channel : Option ℕ) (packets : List DataPacket) (st : FaultState)
    → IsValid st
    → All (λ packet. 2 ≤ length packet.bytes) packets
    → (st' : FaultState) × (check_packets channel packets st
        ≡ some (st', changes channel (current st) packets))
      × IsValid st'
check_packets-changes channel [] st valid all = (st, refl, valid)
check_packets-changes channel (packet ∷ packets) st valid (here, rest) =
    let (st', same, valid') =
      after_code channel packet.timestamp packets st (code_of packet) valid
        λ next valid_next. check_packets-changes channel packets next valid_next rest in
    (st', rw (check_and_report_fault-by_code channel packet st here) same, valid')
