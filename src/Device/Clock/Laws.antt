-- ===== src/Device/Clock/Laws.antt =====
-- Runs of replies that tell the time of the station.
use ritex.Base.{
  ℕ, ◌<◌, ◌≡◌, refl, Bool, true, false, Option, none, some, List, [], ◌∷◌, ◌++◌, if◌then◌else◌, ltb,
  ◌>>=◌, All, arith,
}
use ritex.Protocol.Ack
use ritex.Packet.{DataPacket}
use ritex.Device.Event.{DbEvent}
use ritex.Device.Clock.{
  StationTime, station_time, distance, clock_event, check_time, check_and_report_time_diviation,
}

module _ (mktime : StationTime → ℕ) (limit : ℕ) (channel : Option ℕ) where
  abbrev and_then : List DbEvent → Option (Bool × List DbEvent) → Option (Bool × List DbEvent)
  and_then es none = none
  and_then es (some (r, fs)) = some (r, es ++ fs)

  -- Packets, each with the time of its arrival, one after the other.
  abbrev pub check_times : List (ℕ × DataPacket) → Bool → Option (Bool × List DbEvent)
  check_times [] is_reported = some (is_reported, [])
  check_times ((now, packet) ∷ packets) is_reported = do
    r ← check_and_report_time_diviation mktime limit channel now packet is_reported
    and_then r.1 (check_times packets r.0)

  -- A reply in mode 0 that tells a time too far from that of its arrival.
  pub record Deviates (arrival : ℕ × DataPacket) : Type 0 where
    pub in_mode_0 : arrival.1.cmd ≡ Ack.info_mode 0
    pub told : StationTime
    pub tells : station_time arrival.1.bytes ≡ some told
    pub far : limit < distance arrival.0 (mktime told)

  too_far :
      (now : ℕ) (told : StationTime) (is_reported : Bool)
      → limit < distance now (mktime told)
      → check_time mktime limit channel now told is_reported ≡ (
        true,
        if is_reported then [] else clock_event channel now (distance now (mktime told)) ∷ [],
      )
  unfolding check_time
  too_far now told false far =
      let hit : ltb limit (distance now (mktime told)) ≡ true = ground (arith, far) in rw hit refl
  too_far now told true far =
      let hit : ltb limit (distance now (mktime told)) ≡ true = ground (arith, far) in rw hit refl

  deviating :
      (now : ℕ) (packet : DataPacket) (is_reported : Bool) (d : Deviates (now, packet))
      → check_and_report_time_diviation mktime limit channel now packet is_reported
        ≡ some (
          true,
          if is_reported then [] else clock_event channel now (distance now (mktime d.told)) ∷ [],
        )
  unfolding check_and_report_time_diviation
  deviating now packet is_reported d =
      rw (d.in_mode_0, d.tells, too_far now d.told is_reported d.far) refl

  lasting :
      (packets : List (ℕ × DataPacket))
      → All Deviates packets
      → check_times packets true ≡ some (true, [])
  lasting [] all = refl
  lasting ((now, packet) ∷ packets) (d, all) =
      rw (deviating now packet true d) (rw (lasting packets all) refl)

  -- For every mktime and limit: replies in mode 0 that all tell a time too far from that of their
  -- arrival, after one that did not, report one event, at the first of them, with the deviation
  -- there in minutes.
  pub check_times_once :
      (now : ℕ) (packet : DataPacket) (packets : List (ℕ × DataPacket)) (d : Deviates (now, packet))
      → All Deviates packets
      → check_times ((now, packet) ∷ packets) false
        ≡ some (true, clock_event channel now (distance now (mktime d.told)) ∷ [])
  check_times_once now packet packets d all =
      rw (deviating now packet false d) (rw (lasting packets all) refl)
