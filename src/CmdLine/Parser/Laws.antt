-- ===== src/CmdLine/Parser/Laws.antt =====
-- The loop of `Parse` ends: every round but the last takes an option off the line, and no state goes on
-- at the end of it.
use ritex.Base.{
  ℕ, zero, suc, ◌<◌, ◌≡◌, refl, Bool, true, false, Option, none, some, List, [], ◌∷◌, length, arith,
}
use ritex.CmdLine.Parser.{
  Token, State, Parser, Pass, step_in, step, Result, accepted, rejected, parse_loop, start, parse,
}

abbrev pub follow : Pass → (Parser → Result) → Result
follow (Pass.next m) go_on = go_on m
follow (Pass.accept c) go_on = accepted c
follow (Pass.reject c) go_on = rejected c

-- What the loop comes to, by recursion on the line.
unfoldable pub outcome : List Token → Parser → Result
outcome [] m = follow (step none m) (λ m'. rejected m'.command)
outcome (token ∷ tokens) m = follow (step (some token) m) (outcome tokens)

abbrev is_final : Pass → Bool
is_final (Pass.next m) = false
is_final (Pass.accept c) = true
is_final (Pass.reject c) = true

final_at_end : (s : State) (m : Parser) → is_final (step_in s none m) ≡ true
final_at_end State.first m = refl
final_at_end State.a_first m = refl
final_at_end State.a_list m = refl
final_at_end State.a_name m = refl
final_at_end State.a_value m = refl
final_at_end State.p m = refl
final_at_end State.d m = refl
final_at_end State.r m = refl
final_at_end State.r_devid m = refl
final_at_end State.t m = refl
final_at_end State.cmd m = refl
final_at_end State.cmd_devid m = refl
final_at_end State.cmd_type m = refl
final_at_end State.cmd_msg m = refl
final_at_end State.cmd_src m = refl
final_at_end State.cmd_id m = refl
final_at_end State.sp m = refl
final_at_end State.sp_path m = refl
final_at_end State.on_exit m = refl

abbrev loop_after : ℕ → List Token → Pass → Option Result
loop_after rounds tokens pass = elim pass [
  | Pass.next m' ↦ parse_loop rounds tokens m'
  | Pass.accept c ↦ some (accepted c)
  | Pass.reject c ↦ some (rejected c)
]

last_round :
    (rounds : ℕ) (pass : Pass)
    → is_final pass ≡ true
    → loop_after rounds [] pass ≡ some (follow pass (λ m'. rejected m'.command))
last_round rounds (Pass.next m) h = absurd (cc h)
last_round rounds (Pass.accept c) h = refl
last_round rounds (Pass.reject c) h = refl

one_round :
    (rounds : ℕ) (tokens : List Token) (pass : Pass)
    → ((m : Parser) → parse_loop rounds tokens m ≡ some (outcome tokens m))
    → loop_after rounds tokens pass ≡ some (follow pass (outcome tokens))
one_round rounds tokens (Pass.next m) later = later m
one_round rounds tokens (Pass.accept c) later = refl
one_round rounds tokens (Pass.reject c) later = refl

pub parse_loop-outcome :
    (rounds : ℕ) (tokens : List Token) (m : Parser)
    → length tokens < rounds
    → parse_loop rounds tokens m ≡ some (outcome tokens m)
unfolding parse_loop outcome step
parse_loop-outcome zero tokens m h = absurd (omega arith)
parse_loop-outcome (suc rounds) [] m h =
    last_round rounds (step_in m.state none m) (final_at_end m.state m)
parse_loop-outcome (suc rounds) (token ∷ tokens) m h =
    one_round rounds tokens (step_in m.state (some token) m)
      λ m'. parse_loop-outcome rounds tokens m' (omega arith)

pub parse-outcome :
    (rounds : ℕ) (tokens : List Token)
    → length tokens < rounds
    → parse rounds tokens ≡ some (outcome tokens start)
unfolding parse
parse-outcome rounds tokens h = parse_loop-outcome rounds tokens start h

-- Every list of options has one result of Parse that it comes to in any number of rounds above the
-- number of the options: no state goes on at the end of the line.
pub parse_ends :
    (tokens : List Token)
    → (result : Result) × ((rounds : ℕ)
        → length tokens < rounds
        → parse rounds tokens ≡ some result)
parse_ends tokens = (outcome tokens start, λ rounds h. parse-outcome rounds tokens h)
