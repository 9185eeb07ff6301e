-- ===== src/CmdLine/Parser/Params.antt =====
-- What is left of an accepted line in the states of `Parse` that take a word, an option or a list of
-- parameters.
use ritex.Base.{
  ℕ, zero, suc, ◌≤◌, ◌≡◌, refl, sym, ap, ◌∙◌, false, Option, none, some, List, [], ◌∷◌, ◌++◌, ◌==◌,
  All, length, arith, eq_of_==, Bool-cases, inl, inr,
}
use ritex.CmdLine.Words.{Word}
use ritex.CmdLine.Command.{CmdLineCommand, add_parameter}
use ritex.CmdLine.Parser.{
  Token, State, Parser, Pass, Result, accepted, rejected, step, on_word, on_expect_sp, on_expect_a,
}
use ritex.CmdLine.Parser.Laws.{outcome, follow}
use ritex.CmdLine.Parser.Grammar.{is_a, NoA, Param, write_params, IsParam, with_params}
use ritex.CmdLine.Parser.RoundTrip.{at}

-- What a line comes to, where its first option is handled by `on`.
abbrev pub read : (Option Token → Pass) → List Token → Result
read on [] = follow (on none) (λ m'. rejected m'.command)
read on (token ∷ tokens) = follow (on (some token)) (outcome tokens)

outcome-read : (tokens : List Token) (m : Parser) → outcome tokens m ≡ read (λ c. step c m) tokens
unfolding outcome
outcome-read [] m = refl
outcome-read (token ∷ tokens) m = refl

pub as_read :
    (tokens : List Token) (m : Parser) (c : CmdLineCommand)
    → outcome tokens m ≡ accepted c
    → read (λ o. step o m) tokens ≡ accepted c
as_read tokens m c h = sym (outcome-read tokens m) ∙ h

pub takes_word :
    (s : State) (store : Word → CmdLineCommand) (m : Parser) (tokens : List Token)
    (c : CmdLineCommand)
    → read (λ o. on_word s store o m) tokens ≡ accepted c
    → (w : Word) × (rest : List Token) × (tokens ≡ Token.word w ∷ rest)
      × (outcome rest (at s m.last_arg_name (store w)) ≡ accepted c)
takes_word s store m [] c h = absurd (cc h)
takes_word s store m (Token.word w ∷ rest) c h = (w, rest, refl, h)
takes_word s store m (Token.long_option i ∷ rest) c h = absurd (cc h)
takes_word s store m (Token.short_option x ∷ rest) c h = absurd (cc h)

takes_sp :
    (m : Parser) (tokens : List Token) (c : CmdLineCommand)
    → read (λ o. on_expect_sp o m) tokens ≡ accepted c
    → (rest : List Token) × (tokens ≡ Token.long_option 1 ∷ rest)
      × (outcome rest (at State.sp m.last_arg_name m.command) ≡ accepted c)
takes_sp m [] c h = absurd (cc h)
takes_sp m (Token.word w ∷ rest) c h = absurd (cc h)
takes_sp m (Token.long_option i ∷ rest) c h = (rest, ground (arith, h), ground (arith, h))
takes_sp m (Token.short_option x ∷ rest) c h = absurd (cc h)

takes_a :
    (m : Parser) (tokens : List Token) (c : CmdLineCommand)
    → read (λ o. on_expect_a o m) tokens ≡ accepted c
    → (rest : List Token) × (tokens ≡ Token.short_option b'a' ∷ rest)
      × (outcome rest (at State.a_name m.last_arg_name m.command) ≡ accepted c)
takes_a m [] c h = absurd (cc h)
takes_a m (Token.word w ∷ rest) c h = absurd (cc h)
takes_a m (Token.long_option i ∷ rest) c h = absurd (cc h)
takes_a m (Token.short_option x ∷ rest) c h = (rest, ground (arith, h), ground (arith, h))

takes_name_value :
    (name : Word) (c : CmdLineCommand) (tokens : List Token) (c' : CmdLineCommand)
    → outcome tokens (at State.a_name name c) ≡ accepted c'
    → (n : Word) × (v : Word) × (rest : List Token) × (tokens
        ≡ Token.word n ∷ (Token.word v ∷ rest))
      × (outcome rest (at State.a_list n (add_parameter n v c)) ≡ accepted c')
unfolding outcome step
takes_name_value name c [] c' h = absurd (cc h)
takes_name_value name c (Token.long_option i ∷ rest) c' h = absurd (cc h)
takes_name_value name c (Token.short_option i ∷ rest) c' h = absurd (cc h)
takes_name_value name c (Token.word n ∷ []) c' h = absurd (cc h)
takes_name_value name c (Token.word n ∷ (Token.long_option i ∷ rest)) c' h = absurd (cc h)
takes_name_value name c (Token.word n ∷ (Token.short_option i ∷ rest)) c' h = absurd (cc h)
takes_name_value name c (Token.word n ∷ (Token.word v ∷ rest)) c' h = (n, v, rest, refl, h)

-- What stands behind a value.
record ListRead (tokens : List Token) (c c' : CmdLineCommand) : Type 0 where
  passed : List Token
  params : List Param
  no_a : NoA passed
  no_a_later : All IsParam params
  same : passed ++ write_params params ≡ tokens
  gives : with_params params c ≡ c'

pass_one :
    (token : Token) (tokens : List Token) (c c' : CmdLineCommand)
    → is_a token ≡ false
    → ListRead tokens c c'
    → ListRead (token ∷ tokens) c c'
pass_one token tokens c c' h r = record {
  passed = token ∷ r.passed;
  params = r.params;
  no_a = (h, r.no_a);
  no_a_later = r.no_a_later;
  same = ap (◌∷◌ token) r.same;
  gives = r.gives;
}

one_param :
    (n v : Word) (rest : List Token) (c c' : CmdLineCommand)
    → ListRead rest (add_parameter n v c) c'
    → ListRead (Token.short_option b'a' ∷ (Token.word n ∷ (Token.word v ∷ rest))) c c'
unfolding write_params with_params
one_param n v rest c c' r = record {
  passed = [];
  params = record { name = n; value = v; passed = r.passed } ∷ r.params;
  no_a = tt;
  no_a_later = (r.no_a, r.no_a_later);
  same = ap (λ tokens. Token.short_option b'a' ∷ (Token.word n ∷ (Token.word v ∷ tokens))) r.same;
  gives = r.gives;
}

-- The option -a, and the list behind its value.
read_letter :
    (n x : ℕ) (tokens : List Token) (name : Word) (c c' : CmdLineCommand)
    → length tokens ≤ n
    → outcome (Token.short_option x ∷ tokens) (at State.a_list name c) ≡ accepted c'
    → ((rest : List Token) (m : Word) (d : CmdLineCommand)
        → length rest ≤ n
        → outcome rest (at State.a_list m d) ≡ accepted c'
        → ListRead rest d c')
    → ListRead (Token.short_option x ∷ tokens) c c'
unfolding outcome step
read_letter n x tokens name c c' small h later = elim (Bool-cases (x == b'a')) [
  | inl e ↦
      let (k, v, rest, same, h') = takes_name_value name c tokens c' (ground (arith, h, e)) in
      rw (eq_of_== x b'a' e, same)
        (one_param k v rest c c'
          (later rest k (add_parameter k v c) (omega (arith, ap length same)) h'))
  | inr e ↦
      pass_one (Token.short_option x) tokens c c' e
        (later tokens name c small (ground (arith, h, e)))
]

read_list :
    (n : ℕ) (tokens : List Token) (name : Word) (c c' : CmdLineCommand)
    → length tokens ≤ n
    → outcome tokens (at State.a_list name c) ≡ accepted c'
    → ListRead tokens c c'
unfolding outcome step write_params with_params
read_list n [] name c c' small h = record {
  passed = [];
  params = [];
  no_a = tt;
  no_a_later = tt;
  same = refl;
  gives = cc h;
}
read_list zero (token ∷ tokens) name c c' small h = absurd (omega arith)
read_list (suc n) (Token.long_option i ∷ tokens) name c c' small h =
    pass_one (Token.long_option i) tokens c c' refl (read_list n tokens name c c' (omega arith) h)
read_list (suc n) (Token.word w ∷ tokens) name c c' small h =
    pass_one (Token.word w) tokens c c' refl (read_list n tokens name c c' (omega arith) h)
read_list (suc n) (Token.short_option x ∷ tokens) name c c' small h =
    read_letter n x tokens name c c' (omega arith) h
      λ rest m d less h'. read_list n rest m d c' less h'

-- A list with one parameter at least.
pub record ParamsRead (tokens : List Token) (c c' : CmdLineCommand) : Type 0 where
  pub param : Param
  pub params : List Param
  pub no_a : All IsParam (param ∷ params)
  pub same : write_params (param ∷ params) ≡ tokens
  pub gives : with_params (param ∷ params) c ≡ c'

pub read_params :
    (m : Parser) (tokens : List Token) (c' : CmdLineCommand)
    → read (λ o. on_expect_a o m) tokens ≡ accepted c'
    → ParamsRead tokens m.command c'
unfolding write_params with_params
read_params m tokens c' h =
    let (rest, same, h1) = takes_a m tokens c' h in
    let (n, v, later, same', h2) = takes_name_value m.last_arg_name m.command rest c' h1 in
    let r = read_list (length later) later n (add_parameter n v m.command) c' (omega arith) h2 in
    record {
      param = record { name = n; value = v; passed = r.passed };
      params = r.params;
      no_a = (r.no_a, r.no_a_later);
      same =
          ap (λ tokens. Token.short_option b'a' ∷ (Token.word n ∷ (Token.word v ∷ tokens))) r.same
          ∙ ap (λ tokens. Token.short_option b'a' ∷ tokens) (sym same')
          ∙ sym same;
      gives = r.gives;
    }

-- -sp, its path, and the list behind it.
pub record ScriptRead (tokens : List Token) (c c' : CmdLineCommand) : Type 0 where
  pub path : Word
  pub rest : List Token
  pub same : Token.long_option 1 ∷ (Token.word path ∷ rest) ≡ tokens
  pub params : ParamsRead rest (record c { script_path_raw = path }) c'

pub read_script :
    (m : Parser) (tokens : List Token) (c' : CmdLineCommand)
    → read (λ o. on_expect_sp o m) tokens ≡ accepted c'
    → ScriptRead tokens m.command c'
unfolding step
read_script m tokens c' h =
    let (rest, same, h1) = takes_sp m tokens c' h in
    let (path, later, same', h2) =
      takes_word State.sp_path (λ w. record m.command { script_path_raw = w })
        (at State.sp m.last_arg_name m.command) rest c'
        (as_read rest (at State.sp m.last_arg_name m.command) c' h1) in
    record {
      path = path;
      rest = later;
      same = ap (λ tokens. Token.long_option 1 ∷ tokens) (sym same') ∙ sym same;
      params =
          read_params
            (at State.sp_path m.last_arg_name (record m.command { script_path_raw = path })) later
            c' (as_read later _ c' h2);
    }
