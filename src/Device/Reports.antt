-- ===== src/Device/Reports.antt =====
-- What a reply with information reports: `FindGarameter` of src/Device.cpp, src/ParameterFilter.h,
-- `CreateOffsetTable` and `ReportDataPacket` of src/RitexDevice.cpp. A value below 2 ^ 16 is exact
-- as a float.
pub mod Laws
use ritex.Base.{
  ℕ, ◌+◌, Bool, true, false, ◌&&◌, Option, none, some, List, [], ◌∷◌, ◌++◌, ◌==◌, if◌then◌else◌,
  leb, length, get_or, ◌>>=◌,
}
use ritex.Packet.{DataPacket, swap16, load16}
use ritex.Device.Channels.{
  ControllerData, Parameter, Channel, device_channels, sensor_channels, device_state_channel_param,
}

-- `parameter_filter_entry_t`, from the configuration in the data base.
pub record FilterItem : Type 0 where
  pub channel_id : ℕ
  pub param_id : ℕ

-- `FindChannel`, where -1 is `none`.
unfoldable pub find_channel : ℕ → List FilterItem → Option ℕ
find_channel param [] = none
find_channel param (item ∷ items) =
    let rest = find_channel param items in
    if item.param_id == param then some item.channel_id else rest

abbrev pub get_device_state_channel_id : List FilterItem → Option ℕ
get_device_state_channel_id filter = find_channel device_state_channel_param filter

-- The loop over one list of channels.
unfoldable pub find_parameter : ℕ → List Channel → Option Parameter
find_parameter id [] = none
find_parameter id (c ∷ cs) =
    let rest = find_parameter id cs in if c.parameter.id == id then some c.parameter else rest

-- The channels of the device first, then those of its sensors.
unfoldable pub find_garameter : ℕ → Option Parameter
unfolding find_parameter
find_garameter id = elim (find_parameter id device_channels) [
  | some parameter ↦ some parameter
  | none ↦ find_parameter id sensor_channels
]

-- `offset_table_entry_t`.
pub record OffsetTableEntry : Type 0 where
  pub param_id : ℕ
  pub channel_id : ℕ
  pub cmd : ℕ
  pub offset : ℕ
  pub size : ℕ

abbrev pub entry_of : FilterItem → ControllerData → OffsetTableEntry
entry_of item data_place = record {
  param_id = item.param_id;
  channel_id = item.channel_id;
  cmd = data_place.cmd;
  offset = data_place.offset;
  size = data_place.size;
}

-- The entry for an item of the filter, if its parameter is known and carried by a reply.
unfoldable pub offset_table_entry : FilterItem → Option OffsetTableEntry
offset_table_entry item = do
  parameter ← find_garameter item.param_id
  place ← parameter.controller_data
  some (entry_of item place)

unfoldable pub create_offset_table : List FilterItem → List OffsetTableEntry
create_offset_table [] = []
create_offset_table (item ∷ items) = elim (offset_table_entry item) [
  | none ↦ create_offset_table items
  | some entry ↦ entry ∷ create_offset_table items
]

-- `DBDataPacket`; a value that was not set is `none`.
pub record DbDataPacket : Type 0 where
  pub channel_id : ℕ
  pub param_id : ℕ
  pub register_date : ℕ
  pub value : Option ℕ

-- The value at an entry, big-endian.
abbrev pub value_at : List ℕ → OffsetTableEntry → Option ℕ
value_at bytes entry =
    if entry.size == 1
    then some (get_or bytes entry.offset 0)
    else if entry.size == 2
    then some (swap16 (load16 (get_or bytes entry.offset 0) (get_or bytes (entry.offset + 1) 0)))
    else none

abbrev pub data_packet_of : DataPacket → OffsetTableEntry → DbDataPacket
data_packet_of packet entry = record {
  channel_id = entry.channel_id;
  param_id = entry.param_id;
  register_date = packet.timestamp;
  value = value_at packet.bytes entry;
}

-- `ReportDataPacket`: what is put into the queue of the data logger. `none` is a read behind the
-- data of the packet, which the code does not guard against.
unfoldable pub report_data_packet : List OffsetTableEntry → DataPacket → Option (List DbDataPacket)
report_data_packet [] packet = some []
report_data_packet (entry ∷ entries) packet =
    if entry.cmd == packet.cmd
    then (if leb (entry.offset + entry.size) (length packet.bytes)
        then (do
          rest ← report_data_packet entries packet
          some (data_packet_of packet entry ∷ rest))
        else none)
    else report_data_packet entries packet
