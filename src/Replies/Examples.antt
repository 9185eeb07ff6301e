-- ===== src/Replies/Examples.antt =====
-- The replies at concrete inputs.
use ritex.Base.{ℕ, ◌≡◌, refl, none, some, length, List, [], ◌∷◌, ◌==◌, if◌then◌else◌, arith}
use ritex.Protocol.Req
use ritex.Protocol.Ack
use ritex.Device.Table.{all_settings}
use ritex.Traffic.Exchange.Laws.{reply_as_read}
use ritex.Replies.{text, External, says, unknown_reply, external_reply, reply_to, reply_setting_set}
use ritex.Replies.Queue.{Asked, Handled, Told, reply_all}
use ritex.Replies.Queue.Laws.{last_confirmed, reply_all-last_confirmed}
use ritex.Port.{timeout}
use ritex.Device.Settings.{set_current_setting_value, set_value, get_setting_name, find_name}
use ritex.Device.Settings.Stored.{value_of}
use ritex.Replies.Laws.{answered, motor_report, external_reply_motor}

abbrev turn_on : External
turn_on = record { cmd_id = Req.vd_on; param1 = 0; param2 = 0; source = "SRV$24" }

abbrev running : List ℕ
running = 1 ∷ 0 ∷ 0 ∷ 0 ∷ []

-- In write mode 2 the client is told that the reply is unknown.
external_reply_motor_example :
    external_reply (some 3) 9 turn_on all_settings (answered (reply_as_read 2 7 Ack.info running) 1)
    ≡ (if 2 == 0
        then says (text "8;Прием без ошибок\n" ∷ []) all_settings (motor_report (some 3) 9 turn_on)
        else says unknown_reply all_settings [])
external_reply_motor_example =
    external_reply_motor (some 3) 9 2 7 1 turn_on all_settings running refl (omega arith)

abbrev set_31 : ℕ → External
set_31 value = record { cmd_id = Req.setting_set; param1 = 31; param2 = value; source = "SRV$24" }

-- The first change is confirmed, the second is not answered.
abbrev two_changes : List Handled
two_changes =
    record {
      asked = Asked.external (set_31 50);
      now = 9;
      answer = answered (reply_as_read 0 7 Ack.all_settings []) 1;
    }
    ∷ record {
      asked = Asked.external (set_31 60);
      now = 9;
      answer = record { packet = none; error = some timeout; status = 1 };
    }
    ∷ []

abbrev both_told : (t : Told) × (reply_all (some 3) two_changes all_settings ≡ some t)
unfolding reply_all external_reply reply_to reply_setting_set set_current_setting_value set_value
    get_setting_name find_name
both_told = (_, refl)

reply_all-last_confirmed_example :
    (value_of 31 both_told.0.settings ≡ some (last_confirmed 31 two_changes 0))
    × (length both_told.0.results ≡ length two_changes)
reply_all-last_confirmed_example =
    reply_all-last_confirmed (some 3) 31 0 two_changes all_settings both_told.0 refl both_told.1

last_is_50 : last_confirmed 31 two_changes 0 ≡ 50
last_is_50 = refl
