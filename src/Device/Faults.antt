-- ===== src/Device/Faults.antt =====
-- The codes of faults and what is reported about them: `fault_codes`, `getFaultText`, `ReportFault`
-- and `ReportStationState` of src/RitexDevice.cpp.
use ritex.Base.{ℕ, Option, List, [], ◌∷◌, ◌==◌, if◌then◌else◌}
use Prim.Native.String.{String}
use ritex.Device.Event.{DbEvent, empty, number, text, error_number}

-- `fault_code_t`.
pub record FaultCode : Type 0 where
  pub code : ℕ
  pub message : String

abbrev pub fault_codes : List FaultCode
fault_codes =
    record { code = 0; message = "Авария устранена" }
    ∷ record { code = 1; message = "Ошибка связи ПИУ-ЦУУ" }
    ∷ record { code = 2; message = "Ошибка связи ЦУУ-ПЧ" }
    ∷ record { code = 3; message = "Ошибка связи ЦУУ-ПЧ" }
    ∷ record { code = 4; message = "Ошибка связи ЦУУ-ТМС" }
    ∷ record { code = 20; message = "Ошибка ввода уставки" }
    ∷ record { code = 21; message = "Не введен пароль" }
    ∷ record { code = 22; message = "Ввод уставки запрещен" }
    ∷ record { code = 30; message = "Защита по I GND (Аварийный останов для СУПН-М)" }
    ∷ record { code = 31; message = "Защита по U макс." }
    ∷ record { code = 32; message = "Защита драйвера ШИМ пли КОМ" }
    ∷ record { code = 33; message = "Защита по I макс." }
    ∷ record { code = 10; message = "Неисправность БЦУУ" }
    ∷ record { code = 40; message = "Неисправность ПЧ" }
    ∷ record { code = 41; message = "Неисправность вентиляторов ПЧ" }
    ∷ record { code = 42; message = "Неисправность датчика Rиз" }
    ∷ record { code = 43; message = "Неисправность ТМС" }
    ∷ record { code = 44; message = "Неисправность ПИнС" }
    ∷ record { code = 50; message = "Обрыв фазы" }
    ∷ record { code = 51; message = "Напряжение сети ниже допуска" }
    ∷ record { code = 52; message = "Напряжение сети выше допуска" }
    ∷ record { code = 53; message = "Дисбаланс входных напряжений" }
    ∷ record { code = 54; message = "Дисбаланс выходных напряжений" }
    ∷ record { code = 55; message = "Дисбаланс выходных токов" }
    ∷ record { code = 56; message = "Перегруз по току" }
    ∷ record { code = 57; message = "Недогруз по току" }
    ∷ record { code = 58; message = "Турбинное вращение" }
    ∷ record { code = 59; message = "rиз ниже допуска" }
    ∷ record { code = 60; message = "Давление на устье выше допуска" }
    ∷ record { code = 61; message = "Давление на устье ниже допуска" }
    ∷ record { code = 62; message = "Давление на приеме насоса ниже допуска" }
    ∷ record { code = 63; message = "Температура двигателя выше допуска" }
    ∷ record { code = 64; message = "Вибрация выше допуска" }
    ∷ record { code = 65; message = "Программный сбой" }
    ∷ []

pub find_fault_text : ℕ → List FaultCode → String
find_fault_text code [] = ""
find_fault_text code (f ∷ fs) =
    let rest = find_fault_text code fs in if f.code == code then f.message else rest

unfoldable pub get_fault_text : ℕ → String
unfolding find_fault_text
get_fault_text code = find_fault_text code fault_codes

-- `ReportFault` on the channel of the device's state.
unfoldable pub report_fault : Option ℕ → ℕ → ℕ → DbEvent
report_fault channel code time = record {
  type_id = if code == 0 then 25 else 8;
  channel_id = channel;
  register_time = time;
  argument1 = if code == 0 then empty else text (get_fault_text code);
  argument2 = if code == 0 then empty else error_number code;
  argument3 = empty;
  argument4 = empty;
}

unfoldable pub report_station_state : Option ℕ → ℕ → ℕ → ℕ → String → DbEvent
report_station_state channel new_state old_state time source = record {
  type_id = 10;
  channel_id = channel;
  register_time = time;
  argument1 = number new_state;
  argument2 = number old_state;
  argument3 = if new_state == 0 then text "ВД выключен" else text "ВД включен";
  argument4 = text source;
}
