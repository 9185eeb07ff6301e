-- ===== src/Device/Channels.antt =====
-- The channels of the device and of its one sensor: the constructor of src/RitexDevice.cpp. What is
-- the same in every parameter (that it is visible, its address, that it has no label) is left out.
use ritex.Base.{ℕ, Option, none, some, List, [], ◌∷◌}
use Prim.Native.String.{String}
use ritex.Protocol.Ack

-- `controller_data_t`: where a reply carries the value of a parameter.
pub record ControllerData : Type 0 where
  pub cmd : ℕ
  pub offset : ℕ
  pub size : ℕ

-- `AdapterParameter`; a null pointer to controller data is `none`.
pub record Parameter : Type 0 where
  pub id : ℕ
  pub name : String
  pub controller_data : Option ControllerData

-- `DeviceChannel`.
pub record Channel : Type 0 where
  pub number : ℕ
  pub parameter : Parameter

abbrev pub device_state_channel_param : ℕ
device_state_channel_param = 1050100010

abbrev pub device_channels : List Channel
device_channels =
    record {
      number = 0;
      parameter = record {
        id = device_state_channel_param;
        name = "Канал состояния";
        controller_data = none;
      };
    }
    ∷ []

abbrev add : ℕ → ℕ → String → ℕ → ℕ → ℕ → Channel
add number id name mode offset size = record {
  number = number;
  parameter = record {
    id = id;
    name = name;
    controller_data = some (record { cmd = Ack.info_mode mode; offset = offset; size = size });
  };
}

abbrev pub sensor_channels : List Channel
sensor_channels =
    add 2 1050100150 "тип ВД" 5 2 2
    ∷ add 3 1050000020 "номинальная мощность" 5 4 2
    ∷ add 4 1050000030 "количество пар полюсов" 5 6 1
    ∷ add 5 1050109020 "минимальные обороты ВД" 5 7 2
    ∷ add 6 1050109030 "максимальные обороты ВД" 5 9 2
    ∷ add 7 1050110080 "ток по АСХ З" 5 11 1
    ∷ add 8 1050101010 "время по АСХ 3" 5 12 1
    ∷ add 9 1050110090 "ток по АСХ 2" 5 13 1
    ∷ add 10 1050101020 "время по АСХ 2" 5 14 1
    ∷ add 11 1050110100 "ток по АСХ 1" 5 15 1
    ∷ add 12 1050101030 "время по АСХ 1" 5 16 1
    ∷ add 13 1050110030 "минимальный ток" 2 7 1
    ∷ add 14 1050110040 "максимальный ток" 2 8 1
    ∷ add 15 1050111080 "выходное линейное напряжение UV" 2 9 2
    ∷ add 16 1050111090 "выходное линейное напряжениеVW" 2 11 2
    ∷ add 17 1050111100 "выходное линейное напряжение WU" 2 13 2
    ∷ add 18 1050111110 "минимальное выходное линейное напряжение" 2 15 2
    ∷ add 19 1050111120 "максимальное выходное линейное напряжение" 2 17 2
    ∷ add 20 1050104000 "температура радиатора 1" 2 25 1
    ∷ add 21 1050104010 "температура радиатора 2" 2 26 1
    ∷ add 22 1050100110 "код состояния ПЧ 0" 2 27 1
    ∷ add 23 1050100120 "код состояния ПЧ 1" 2 28 1
    ∷ add 24 1050100130 "код состояния ПЧ 2" 2 29 1
    ∷ add 25 1050100140 "код состояния ПЧ 3" 2 30 1
    ∷ add 26 1050100090 "Код состояния СУ" 0 0 1
    ∷ add 27 1050100100 "Код неисправности СУ" 0 1 1
    ∷ add 29 1050101000 "Время оставшееся до автозапуска (время АПВ)" 0 13 2
    ∷ add 30 1050110050 "Ток фазы А" 2 4 1
    ∷ add 31 1050110060 "Ток фазы В" 2 5 1
    ∷ add 32 1050110070 "Ток фазы С" 2 6 1
    ∷ add 34 1050111000 "Входное напряжение АВ" 2 19 2
    ∷ add 35 1050111010 "Входное напряжение ВC" 2 21 2
    ∷ add 36 1050111020 "Входное напряжение CA" 2 23 2
    ∷ add 37 1050111070 "Среднее напряжение на входе СУ" 0 5 2
    ∷ add 38 1050110020 "Установившееся значение тока ВД для защит по %" 0 15 1
    ∷ add 39 1050100060 "Дисбаланс входных напряжений" 0 8 1
    ∷ add 40 1050100070 "Дисбаланс выходных напряжений" 0 9 1
    ∷ add 41 1050100080 "Дисбаланс выходных токов" 0 10 1
    ∷ add 43 1050110010 "Средний ток ВД" 0 4 1
    ∷ add 44 1050100050 "Загрузка двигателя" 0 7 1
    ∷ add 45 1050112010 "Полная мощность" 0 35 2
    ∷ add 46 1050112020 "Активная мощность" 0 18 1
    ∷ add 47 1050117000 "Сопротивление изоляции, кОм" 0 11 2
    ∷ add 48 1050109010 "Число оборотов ВД" 0 2 2
    ∷ add 50 1050201000 "Общее время работы насоса, час" 0 29 2
    ∷ add 51 1050102010 "Общее количество запусков насоса" 0 25 2
    ∷ add 52 1050601010 "Время наработки станции в ч" 0 33 2
    ∷ add 53 1080105030 "Давление на приеме насоса (пласт. жидкость)" 0 17 1
    ∷ add 54 1080104010 "Температура на приеме насоса (масло двигателя), °С" 0 16 1
    ∷ add 55 1080104020 "Температура пластовой жидкости, °С" 3 2 1
    ∷ add 56 1080100009 "Вибрация насоса по оси X, м/с2" 3 4 2
    ∷ add 57 1080100010 "Вибрация насоса по оси Y, м/с2" 3 6 2
    ∷ add 58 1080105040 "Давление масла в двигателе" 3 10 2
    ∷ []
