-- ===== src/Device/Reports/Laws.antt =====
-- The values that a reply with information reports, and where they stand in its data.
use ritex.Base.{
  ℕ, zero, suc, ◌+◌, ◌*◌, ◌≡◌, ◌<◌, IsByte, get_or, refl, ap, ◌∙◌, Bool, true, false, ◌&&◌, ◌||◌,
  Option, none, some, List, [], ◌∷◌, ◌++◌, ◌==◌, if◌then◌else◌, leb, length, ◌>>=◌, All, map, arith,
  inl, inr, Bool-cases, eq_of_==,
}
use ritex.Protocol.{CmdParams, ack_params}
use ritex.Packet.{DataPacket, size}
use mathlib.Core.Path.{subst}
use ritex.Device.Channels.{ControllerData, Parameter, Channel, device_channels, sensor_channels}
use ritex.Device.Reports.{
  FilterItem, OffsetTableEntry, DbDataPacket, entry_of, value_at, data_packet_of, find_parameter,
  find_garameter, offset_table_entry, create_offset_table, report_data_packet,
}

-- The length of the reply with a command and mode, from the table of replies.
abbrev reply_length_in : List CmdParams → ℕ → Option ℕ
reply_length_in [] cmd = none
reply_length_in (p ∷ ps) cmd =
    let rest = reply_length_in ps cmd in if p.cmd == cmd then some p.length else rest

unfoldable pub reply_length : ℕ → Option ℕ
reply_length cmd = reply_length_in ack_params cmd

-- A place in the data of a reply. The length counts the command too.
abbrev is_in_reply : Option ℕ → ℕ → ℕ → Bool
is_in_reply none offset size = false
is_in_reply (some len) offset size = (size == 1 || size == 2) && leb (offset + size + 1) len

abbrev pub InReply : ControllerData → Type 0
InReply place = is_in_reply (reply_length place.cmd) place.offset place.size ≡ true

abbrev PlaceInReply : Option ControllerData → Type 0
PlaceInReply none = Unit {0}
PlaceInReply (some place) = InReply place

abbrev HasPlace : Parameter → Type 0
HasPlace p = PlaceInReply p.controller_data

device_places : All (λ c. HasPlace c.parameter) device_channels
device_places = (tt, tt)

-- Every parameter of the sensor stands inside the reply of its mode.
pub sensor_places : All (λ c. HasPlace c.parameter) sensor_channels
unfolding reply_length
sensor_places = ground arith

find_parameter-All :
    (P : Parameter → Type 0) (id : ℕ) (cs : List Channel) (p : Parameter)
    → All (λ c. P c.parameter) cs
    → find_parameter id cs ≡ some p
    → P p
unfolding find_parameter
find_parameter-All P id [] p all h = absurd (ground (arith, h))
find_parameter-All P id (c ∷ cs) p (here, rest) h = elim (Bool-cases (c.parameter.id == id)) [
  | inl e ↦ let same : c.parameter ≡ p = ground (arith, rw e at h) in subst P same here
  | inr e ↦ find_parameter-All P id cs p rest (rw e at h)
]

first_HasPlace :
    (id : ℕ) (o : Option Parameter) (p : Parameter)
    → ((q : Parameter) → o ≡ some q → HasPlace q)
    → (elim o [ some q ↦ some q | none ↦ find_parameter id sensor_channels ]) ≡ some p
    → HasPlace p
first_HasPlace id none p own h = find_parameter-All HasPlace id sensor_channels p sensor_places h
first_HasPlace id (some q) p own h = own p h

find_garameter-HasPlace : (id : ℕ) (p : Parameter) → find_garameter id ≡ some p → HasPlace p
unfolding find_garameter
find_garameter-HasPlace id p h =
    first_HasPlace id (find_parameter id device_channels) p
      (λ q e. find_parameter-All HasPlace id device_channels q device_places e) h

abbrev EntryInReply : OffsetTableEntry → Type 0
EntryInReply entry = is_in_reply (reply_length entry.cmd) entry.offset entry.size ≡ true

placed_EntryInReply :
    (item : FilterItem) (o : Option ControllerData) (entry : OffsetTableEntry)
    → PlaceInReply o
    → (do place ← o; some (entry_of item place)) ≡ some entry
    → EntryInReply entry
placed_EntryInReply item none entry here h = absurd (ground (arith, h))
placed_EntryInReply item (some place) entry here h =
    let same : entry_of item place ≡ entry = ground (arith, h) in subst EntryInReply same here

found_EntryInReply :
    (item : FilterItem) (o : Option Parameter) (entry : OffsetTableEntry)
    → ((p : Parameter) → o ≡ some p → HasPlace p)
    → (do parameter ← o; place ← parameter.controller_data; some (entry_of item place)) ≡ some entry
    → EntryInReply entry
found_EntryInReply item none entry own h = absurd (ground (arith, h))
found_EntryInReply item (some p) entry own h =
    placed_EntryInReply item p.controller_data entry (own p refl) h

offset_table_entry-EntryInReply :
    (item : FilterItem) (entry : OffsetTableEntry)
    → offset_table_entry item ≡ some entry
    → EntryInReply entry
unfolding offset_table_entry
offset_table_entry-EntryInReply item entry h =
    found_EntryInReply item (find_garameter item.param_id) entry
      (λ p e. find_garameter-HasPlace item.param_id p e) h

added_All :
    (o : Option OffsetTableEntry) (entries : List OffsetTableEntry)
    → ((entry : OffsetTableEntry) → o ≡ some entry → EntryInReply entry)
    → All EntryInReply entries
    → All EntryInReply (elim o [ none ↦ entries | some entry ↦ entry ∷ entries ])
added_All none entries own rest = rest
added_All (some entry) entries own rest = (own entry refl, rest)

create_offset_table-EntryInReply :
    (filter : List FilterItem) → All EntryInReply (create_offset_table filter)
unfolding create_offset_table
create_offset_table-EntryInReply [] = tt
create_offset_table-EntryInReply (item ∷ items) =
    added_All (offset_table_entry item) (create_offset_table items)
      (λ entry e. offset_table_entry-EntryInReply item entry e)
      (create_offset_table-EntryInReply items)

-- The entries of a command.
abbrev pub entries_of : ℕ → List OffsetTableEntry → List OffsetTableEntry
entries_of cmd [] = []
entries_of cmd (entry ∷ entries) =
    let rest = entries_of cmd entries in if entry.cmd == cmd then entry ∷ rest else rest

in_data :
    (entry : OffsetTableEntry) (packet : DataPacket)
    → EntryInReply entry
    → (entry.cmd == packet.cmd) ≡ true
    → reply_length packet.cmd ≡ some (size packet + 1)
    → leb (entry.offset + entry.size) (length packet.bytes) ≡ true
in_data entry packet here e h =
    let len : reply_length entry.cmd ≡ some (size packet + 1) =
      ap reply_length (eq_of_== entry.cmd packet.cmd e) ∙ h in
    ground (arith, rw len at here)

-- The number at a place of the data: a byte, or two bytes with the high one first.
abbrev pub number_at : List ℕ → ℕ → ℕ → ℕ
number_at bytes offset size =
    if size == 1
    then get_or bytes offset 0
    else get_or bytes offset 0 * 0x100 + get_or bytes (offset + 1) 0

-- What is reported of an entry: its channel and parameter, the time of the reply, and the number there.
abbrev pub reading : DataPacket → OffsetTableEntry → DbDataPacket
reading packet entry = record {
  channel_id = entry.channel_id;
  param_id = entry.param_id;
  register_date = packet.timestamp;
  value = some (number_at packet.bytes entry.offset entry.size);
}

byte_at : (bytes : List ℕ) (i : ℕ) → All IsByte bytes → get_or bytes i 0 < 256
byte_at [] i all = omega arith
byte_at (b ∷ bytes) zero (h, all) = h
byte_at (b ∷ bytes) (suc i) (h, all) = byte_at bytes i all

one_or_two :
    (o : Option ℕ) (offset size : ℕ)
    → is_in_reply o offset size ≡ true
    → (size == 1 || size == 2) ≡ true
one_or_two none offset size h = absurd (cc h)
one_or_two (some len) offset size h = ground (arith, h)

value_at-number_at :
    (bytes : List ℕ) (entry : OffsetTableEntry)
    → All IsByte bytes
    → EntryInReply entry
    → value_at bytes entry ≡ some (number_at bytes entry.offset entry.size)
value_at-number_at bytes entry all here = ground (
  arith,
  byte_at bytes entry.offset all,
  byte_at bytes (entry.offset + 1) all,
  one_or_two (reply_length entry.cmd) entry.offset entry.size here,
)

data_packet_of-reading :
    (packet : DataPacket) (entry : OffsetTableEntry)
    → All IsByte packet.bytes
    → EntryInReply entry
    → data_packet_of packet entry ≡ reading packet entry
data_packet_of-reading packet entry all here =
    ap
      (λ v. record {
        channel_id = entry.channel_id;
        param_id = entry.param_id;
        register_date = packet.timestamp;
        value = v;
      })
      (value_at-number_at packet.bytes entry all here)

report_data_packet_entries :
    (entries : List OffsetTableEntry) (packet : DataPacket)
    → All IsByte packet.bytes
    → All EntryInReply entries
    → reply_length packet.cmd ≡ some (size packet + 1)
    → report_data_packet entries packet
      ≡ some (map (reading packet) (entries_of packet.cmd entries))
unfolding report_data_packet
report_data_packet_entries [] packet bytes all h = refl
report_data_packet_entries (entry ∷ entries) packet bytes (here, rest) h =
    elim (Bool-cases (entry.cmd == packet.cmd)) [
      | inl e ↦
          rw
            (
              e,
              in_data entry packet here e h,
              report_data_packet_entries entries packet bytes rest h,
              data_packet_of-reading packet entry bytes here,
            )
            refl
      | inr e ↦ rw e (report_data_packet_entries entries packet bytes rest h)
    ]

-- A reply of bytes, of the length that the table of replies gives for its command and mode, reports
-- one value for each entry of the offset table for this reply, in their order: with the channel and
-- the parameter of the entry, the time of the reply, and the number at the entry's place in the
-- data, of one byte or of two with the high one first; and every read is in the data; for every
-- filter.
pub report_data_packet-create_offset_table :
    (filter : List FilterItem) (packet : DataPacket)
    → All IsByte packet.bytes
    → reply_length packet.cmd ≡ some (size packet + 1)
    → report_data_packet (create_offset_table filter) packet
      ≡ some (map (reading packet) (entries_of packet.cmd (create_offset_table filter)))
report_data_packet-create_offset_table filter packet bytes h =
    report_data_packet_entries (create_offset_table filter) packet bytes
      (create_offset_table-EntryInReply filter) h

-- An entry for the reply's command and mode that does not fit the data of the packet is read behind
-- the data: nothing in the report compares the two.
pub report_data_packet_short :
    (front back : List OffsetTableEntry) (entry : OffsetTableEntry) (packet : DataPacket)
    → entry.cmd ≡ packet.cmd
    → length packet.bytes < entry.offset + entry.size
    → report_data_packet (front ++ (entry ∷ back)) packet ≡ none
unfolding report_data_packet
report_data_packet_short [] back entry packet e h = ground (arith, e, h)
report_data_packet_short (other ∷ front) back entry packet e h =
    let later = report_data_packet_short front back entry packet e h in
    elim (Bool-cases (other.cmd == packet.cmd)) [
      | inl same ↦ elim (Bool-cases (leb (other.offset + other.size) (length packet.bytes))) [
        | inl fits ↦ rw (same, fits, later) refl
        | inr long ↦ rw (same, long) refl
      ]
      | inr differs ↦ rw (differs) later
    ]
