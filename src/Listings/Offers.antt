-- ===== src/Listings/Offers.antt =====
-- A client that sends a choice of the table of the supported commands back as a command.
use ritex.Base.{
  ℕ, ◌≡◌, ◌≢◌, refl, Bool, true, false, some, List, [], ◌∷◌, ◌==◌, ◌⊎◌, inl, inr, if◌then◌else◌,
  arith, ◌++◌, ==_refl,
}
use ritex.Decimal.{itoa}
use ritex.Decimal.Laws.{itoa-IsPlain, itoa_some}
use ritex.CmdLine.Words.{Word}
use ritex.CmdLine.Words.Laws.{IsPlain, split_word, split_last}
use ritex.Commands.Table.{find_command, find_template, Conversions, read_message, external_of}
use ritex.Listings.Commands.{ArgParam, setting_params, motor_params, tilde, plain_params}
use ritex.Device.Table.{all_settings}

-- A choice among the parameters of an argument.
abbrev pub Chosen : ArgParam → List ArgParam → Type 0
Chosen p [] = ⊥
Chosen p (q ∷ ps) = (p ≡ q) ⊎ Chosen p ps

-- No two parameters have the same number.
abbrev differs_from : ℕ → List ArgParam → Bool
differs_from id [] = true
differs_from id (p ∷ ps) = if p.id == id then false else differs_from id ps

abbrev distinct : List ArgParam → Bool
distinct [] = true
distinct (p ∷ ps) = if differs_from p.id ps then distinct ps else false

both_fail :
    (same rest : Bool) → (if same then false else rest) ≡ true → (same ≡ false) × (rest ≡ true)
both_fail true rest e = absurd (ground (arith, e))
both_fail false rest e = (refl, e)

both_hold :
    (first rest : Bool) → (if first then rest else false) ≡ true → (first ≡ true) × (rest ≡ true)
both_hold true rest e = (refl, e)
both_hold false rest e = absurd (ground (arith, e))

not_first :
    (p : ArgParam) (id : ℕ) (ps : List ArgParam)
    → differs_from id ps ≡ true
    → Chosen p ps
    → (id == p.id) ≡ false
not_first p id [] d c = absurd c
not_first p id (q ∷ ps) d (inl e) =
    let (other, later) = both_fail (q.id == id) (differs_from id ps) d in
    rw e (ground (arith, other))
not_first p id (q ∷ ps) d (inr c) =
    not_first p id ps (both_fail (q.id == id) (differs_from id ps) d).1 c

find_template-Chosen :
    (p : ArgParam) (ps : List ArgParam)
    → distinct ps ≡ true
    → Chosen p ps
    → find_template p.id (plain_params ps) ≡ some p.device_data
unfolding find_template
find_template-Chosen p [] d c = absurd c
find_template-Chosen p (q ∷ ps) d (inl e) = rw (e, ==_refl q.id) refl
find_template-Chosen p (q ∷ ps) d (inr c) =
    let (first, rest) = both_hold (differs_from q.id ps) (distinct ps) d in
    rw (not_first p q.id ps first c, find_template-Chosen p ps rest c) refl

settings_distinct : distinct (setting_params all_settings) ≡ true
settings_distinct = refl

motor_distinct : distinct motor_params ≡ true
motor_distinct = refl

-- `atoi` reads back what was printed for a choice.
abbrev pub ReadsBack : Conversions → ArgParam → Type 0
ReadsBack n p = n.atoi (itoa p.id) ≡ p.id

itoa_plain : (id : ℕ) → IsPlain tilde (itoa id)
itoa_plain id = itoa-IsPlain tilde id (λ d. omega (arith, d))

-- Every choice that the table of the supported commands offers is a command that is created: where
-- atoi reads back the number that was printed, a choice among the settings with any value behind
-- it, that is not empty and has no ~, gives the command and the parameter of the setting with this
-- value, and a choice for the motor gives its command and parameter.
pub external_of-offers :
    (n : Conversions) (p : ArgParam) (value : Word)
    → ReadsBack n p
    → IsPlain tilde value
    → value ≢ []
    → (Chosen p (setting_params all_settings)
        → external_of n 24 (itoa p.id ++ (tilde ∷ value))
          ≡ some (record {
            cmd_id = p.device_data.cmd;
            param1 = p.device_data.param;
            param2 = n.atof_ushort value;
          }))
      × (Chosen p motor_params
          → external_of n 2 (itoa p.id)
            ≡ some
                (record { cmd_id = p.device_data.cmd; param1 = p.device_data.param; param2 = 0 }))
unfolding external_of read_message find_command
external_of-offers n p value back plain some_value = (
  λ c.
      rw
        (
          split_word tilde (itoa p.id) value (itoa_plain p.id),
          split_last tilde value plain some_value,
          back,
          find_template-Chosen p (setting_params all_settings) settings_distinct c,
        )
        refl,
  λ c.
      rw
        (
          split_last tilde (itoa p.id) (itoa_plain p.id) (itoa_some p.id),
          back,
          find_template-Chosen p motor_params motor_distinct c,
        )
        refl,
)
