-- ===== src/Traffic/Run/Kept.antt =====
-- The queue of commands over the part of a pass without the line.
use ritex.Base.{
  ℕ, ◌≡◌, refl, Bool, true, false, not, Option, none, some, List, [], ◌∷◌, ◌++◌, ◌==◌, ◌+◌, ◌%◌,
  if◌then◌else◌, get_elem?, ◌>>=◌,
}
use ritex.Packet.{DataPacket}
use ritex.Device.Reports.{OffsetTableEntry, report_data_packet}
use ritex.Traffic.Motor.{Answer}
use ritex.Device.Settings.{check_settigs_changed}
use ritex.Device.Clock.{StationTime, check_and_report_time_diviation}
use ritex.Traffic.Fault.{check_and_report_fault}
use ritex.Traffic.Modes.{need_capture}
use ritex.Traffic.Run.State.{
  is_waiting, Processor, Pass, capture_data, report_info, on_info, on_settings,
}

-- The commands among the answers.
abbrev pub commands_of : List (DataPacket × Answer) → List DataPacket
commands_of [] = []
commands_of ((cmd, answer) ∷ answers) = cmd ∷ commands_of answers

-- The answered commands are the first of the queue, and the others stay.
abbrev pub Kept : Processor → Option Pass → Type 0
Kept st none = Unit
Kept st (some done) = commands_of done.answers ++ done.after.pending ≡ st.pending

module _ (st : Processor) where
  Kept-bind {ℓ} :
      {A : Type ℓ} (o : Option A) (f : A → Option Pass)
      → ((a : A) → Kept st (f a))
      → Kept st (o >>= f)
  Kept-bind none f h = tt
  Kept-bind (some a) f h = h a

  Kept-if : (b : Bool) (x y : Option Pass) → Kept st x → Kept st y → Kept st (if b then x else y)
  Kept-if true x y h k = h
  Kept-if false x y h k = k

  Kept-then :
      (o : Option Pass) (f : Pass → Option Pass)
      → Kept st o
      → ((done : Pass) → Kept st (some done) → Kept st (f done))
      → Kept st (o >>= f)
  Kept-then none f h later = tt
  Kept-then (some done) f h later = later done h

module _ (table : List OffsetTableEntry) where
  capture_data-Kept :
      (packet : DataPacket) (st : Processor) → Kept st (capture_data table packet st)
  unfolding capture_data
  capture_data-Kept packet st = Kept-if st (not st.is_data_capture) _ _ refl (
      Kept-if st ((st.data_capture_period + 1) % 5 == 0) _ _
        (Kept-bind st (report_data_packet table packet) _ λ values. refl) refl)

module _ (table : List OffsetTableEntry) (mktime : StationTime → ℕ) (limit : ℕ)
    (channel : Option ℕ) where
  report_info-Kept :
      (now : ℕ) (packet : DataPacket) (st : Processor)
      → Kept st (report_info table mktime limit channel now packet st)
  unfolding report_info
  report_info-Kept now packet st =
      Kept-bind st (check_and_report_fault channel packet st.fault) _ λ r.
        Kept-bind st
          (check_and_report_time_diviation mktime limit channel now packet st.is_diviation_reported)
          _
          λ s.
            Kept-then st (capture_data table packet _) _ (capture_data-Kept table packet _)
              λ done same. same

  pub on_info-Kept :
      (now : ℕ) (packet : DataPacket) (st : Processor)
      → Kept st (on_info table mktime limit channel now packet st)
  unfolding on_info
  on_info-Kept now packet st = Kept-bind st (get_elem? packet.bytes 0) _ λ status.
      Kept-if st (need_capture (is_waiting st.pending) st.next_mode_loop_cycle now) _ _ refl (
        Kept-then st (report_info table mktime limit channel now packet _) _
          (report_info-Kept now packet _) λ done same. same)

  pub on_settings-Kept :
      (now : ℕ) (packet : DataPacket) (st : Processor)
      → Kept st (on_settings table mktime limit channel now packet st)
  unfolding on_settings
  on_settings-Kept now packet st =
      Kept-bind st (check_settigs_changed channel now packet st.settings) _ λ r. refl
