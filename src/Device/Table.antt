-- ===== src/Device/Table.antt =====
-- The settings of the station: `all_Settings` at the top of src/RitexDevice.cpp. An offset of -1, a
-- setting that is in no reply, is `none`.
use ritex.Base.{ℕ, Bool, true, false, Option, none, some, List, [], ◌∷◌}
use Prim.Native.String.{String}

-- `setting_t_d`; every suffix is the empty text, and nothing reads it.
pub record Setting : Type 0 where
  pub name : String
  pub id : ℕ
  pub offset : Option ℕ
  pub size : ℕ
  pub is_visible : Bool
  pub value : ℕ
  pub is_value_set : Bool

abbrev row : String → ℕ → Option ℕ → ℕ → Bool → Setting
row name id offset size is_visible = record {
  name = name;
  id = id;
  offset = offset;
  size = size;
  is_visible = is_visible;
  value = 0;
  is_value_set = false;
}

abbrev pub all_settings : List Setting
all_settings =
    row "Частота вращения" 31 (some 0) 2 true
    ∷ row "Ток ВД при перегрузе" 32 (some 2) 1 true
    ∷ row "Защита по перегрузу" 33 (some 3) 1 true
    ∷ row "Время блокировки защиты по перегрузке" 34 (some 4) 2 true
    ∷ row "Время блокировки АПВ по перегрузке" 35 (some 6) 1 true
    ∷ row "Количество перезапусков" 36 (some 7) 1 true
    ∷ row "Время,  в течение которого разрешены перезапуски" 37 (some 8) 2 true
    ∷ row "Ток ВД при недогрузе" 38 (some 10) 1 true
    ∷ row "Защита по недогрузу" 39 (some 11) 1 true
    ∷ row "Время блокировки защиты по недогрузу" 40 (some 12) 2 true
    ∷ row "Время блокировки АПВ по недогрузу" 41 (some 14) 2 true
    ∷ row "Куст" 42 (some 16) 2 true
    ∷ row "Скважина" 43 (some 18) 2 true
    ∷ row "Пароль" 44 (some 20) 2 true
    ∷ row "Служебный режим" 45 (some 22) 1 false
    ∷ row "Время работы" 46 (some 23) 2 true
    ∷ row "Время паузы" 47 (some 25) 2 true
    ∷ row "Шаг регистрации параметров" 48 (some 27) 2 true
    ∷ row "Время (часы, минуты)" 49 none 2 true
    ∷ row "Дата (число, месяц)" 50 none 2 true
    ∷ row "Год" 51 none 2 true
    ∷ row "Напряжение вторичной обмотки трансформатора" 52 (some 29) 2 true
    ∷ row "Время блокировки запуска после включения питания" 53 (some 31) 1 true
    ∷ row "Защита по Rиз" 54 (some 32) 1 true
    ∷ row "Дисбаланс по U вх.   лин." 55 (some 33) 1 true
    ∷ row "Время срабатывания защиты по дисбалансу U вх.  лин." 56 (some 34) 1 true
    ∷ row "Дисбаланс по U вых. лин." 57 (some 35) 1 true
    ∷ row "Время срабатывания защиты по дисбалансу U вых. лин." 58 (some 36) 1 true
    ∷ row "Дисбаланс по  I  вых. фаз." 59 (some 37) 1 true
    ∷ row "Время срабатывания защиты по дисбалансу I  вых. фаз" 60 (some 38) 1 true
    ∷ row "Дополнительная настройка" 61 (some 39) 2 true
    ∷ row "Работа с ТМС" 62 (some 41) 1 true
    ∷ row "Предельная температура ВД" 63 (some 42) 1 true
    ∷ row "Давление жидкости на приеме насоса" 64 (some 43) 1 true
    ∷ row "Изменение скорости вращения ВД при регулировании по давлению жидкости на приеме насоса"
        65 (some 44) 1 true
    ∷ row "Предел снижения скорости вращения ВД" 66 (some 45) 2 true
    ∷ row "Номинальная мощность ЭД" 152 none 2 true
    ∷ row "Номинальный напор УЭЦН" 155 none 2 true
    ∷ row "Номинальная производительность насоса" 156 none 2 true
    ∷ row "Дебит жидкости(режим)" 157 none 2 true
    ∷ row "Дебит жидкости(АГЗУ)" 158 none 2 true
    ∷ row "Буферное давление(СТМ-У)" 159 none 2 true
    ∷ row "Затрубное давление(СТМ-У)" 160 none 2 true
    ∷ row "Линейное давление(СТМ-У)" 161 none 2 true
    ∷ []
