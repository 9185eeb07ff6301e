-- ===== src/Replies/Queue.antt =====
-- The replies to the commands of a drained queue: `SetReply` of each, in their order, as `ProcessCommand` of
-- src/ComTrafficProcessor.cpp calls it with the answer. The settings go from one reply to the next;
-- nothing else of a pass reads them behind the first command.
pub mod Laws
use ritex.Base.{
  ℕ, Bool, true, false, ◌&&◌, Option, none, some, List, [], ◌∷◌, ◌++◌, ◌==◌, if◌then◌else◌, ◌>>=◌,
}
use ritex.Protocol.Req
use ritex.Protocol.Ack
use ritex.Packet.{DataPacket}
use ritex.Device.Table.{Setting}
use ritex.Device.Event.{DbEvent}
use ritex.Traffic.Motor.{Answer}
use ritex.Replies.{Part, External, Replied, says, test_device_reply, external_reply}

-- The command that was asked for, with what its reply needs of it.
pub data Asked : Type 0 where
  external : External → Asked
  test : Asked

-- A command, the time of its reply, and its answer.
pub record Handled : Type 0 where
  pub asked : Asked
  pub now : ℕ
  pub answer : Answer

-- What the clients are told, and the settings and events behind all replies.
pub record Told : Type 0 where
  pub results : List (List Part)
  pub settings : List Setting
  pub events : List DbEvent

abbrev pub test_reply : List Setting → Option (List Part) → Option Replied
test_reply settings none = none
test_reply settings (some raw) = says raw settings []

abbrev pub reply_as : Option ℕ → ℕ → Asked → List Setting → Answer → Option Replied
reply_as channel now (external command) settings answer =
    external_reply channel now command settings answer
reply_as channel now test settings answer = test_reply settings (test_device_reply answer)

-- `none` is the end of the program, in one of the replies.
unfoldable pub reply_all : Option ℕ → List Handled → List Setting → Option Told
reply_all channel [] settings = some (record { results = []; settings = settings; events = [] })
reply_all channel (h ∷ hs) settings = do
  replied ← reply_as channel h.now h.asked settings h.answer
  told ← reply_all channel hs replied.settings
  some (record {
    results = replied.raw_result ∷ told.results;
    settings = told.settings;
    events = replied.events ++ told.events;
  })
