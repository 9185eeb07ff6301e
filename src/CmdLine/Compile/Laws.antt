-- ===== src/CmdLine/Compile/Laws.antt =====
-- What `Compile` accepts, and what it makes of the parameters of a line.
use Prim.Native.Nat.{Ordering}
use ritex.Base.{◌≡◌, refl, ap, ◌∙◌, Option, none, some, List, [], ◌∷◌, ◌>>=◌}
use ritex.CmdLine.Words.{Word}
use ritex.CmdLine.Command.{order, found, find, assign}
use ritex.CmdLine.Command.Laws.{
  eq_of_order, order_refl, find-assign, IsAbove, IsSorted, find-IsAbove,
}
use ritex.CmdLine.Compile.{
  AdditionalParameter, CompiledParameter, Numbers, compile_known, compile_parameters,
}

-- Where a chain had a result, its first part had one.
pub bind_some {ℓ κ} :
    {A : Type ℓ} {B : Type κ} (o : Option A) (f : A → Option B) (b : B)
    → (o >>= f) ≡ some b
    → (a : A) × (o ≡ some a) × (f a ≡ some b)
bind_some none f b h = absurd (cc h)
bind_some (some a) f b h = (a, refl, h)

-- The first value there is.
abbrev pub over {ℓ} : {A : Type ℓ} → Option A → Option A → Option A
over (some v) later = some v
over none later = later

module _ (n : Numbers) (map : List (Word × AdditionalParameter)) where
  -- The value of a name on the line.
  abbrev pub value_on : List (Word × Word) → Word → Option CompiledParameter
  value_on raw name = find raw name >>= λ v. compile_known n map name v

  found_key :
      (o : Ordering) (name k v : Word) (raw : List (Word × Word)) (param : CompiledParameter)
      (before : Option CompiledParameter)
      → order name k ≡ o
      → IsAbove k raw
      → compile_known n map k v ≡ some param
      → over (value_on raw name) (found o param before)
        ≡ over (found o v (find raw name) >>= λ w. compile_known n map name w) before
  found_key Ordering.lt name k v raw param before e above known = refl
  found_key Ordering.gt name k v raw param before e above known = refl
  found_key Ordering.eq name k v raw param before e above known =
      rw (eq_of_order name k e, find-IsAbove k raw above, known) refl

  find-compile_parameters :
      (raw : List (Word × Word)) (before m : List (Word × CompiledParameter)) (name : Word)
      → IsSorted raw
      → compile_parameters n map raw before ≡ some m
      → find m name ≡ over (value_on raw name) (find before name)
  unfolding compile_parameters find
  find-compile_parameters [] before m name sorted h = cc h
  find-compile_parameters ((k, v) ∷ raw) before m name (above, sorted) h =
      let (param, known, later) =
        bind_some (compile_known n map k v)
          (λ param. compile_parameters n map raw (assign k param before)) m h in
      find-compile_parameters raw (assign k param before) m name sorted later
      ∙ ap (over (value_on raw name)) (find-assign k param before name)
      ∙ found_key (order name k) name k v raw param (find before name) refl above known

  over-none : (o : Option CompiledParameter) → over o none ≡ o
  over-none none = refl
  over-none (some v) = refl

  -- From no compiled parameters on, each name has its value on the line.
  pub find-compiled :
      (raw : List (Word × Word)) (m : List (Word × CompiledParameter)) (name : Word)
      → IsSorted raw
      → compile_parameters n map raw [] ≡ some m
      → find m name ≡ value_on raw name
  unfolding find
  find-compiled raw m name sorted h =
      find-compile_parameters raw [] m name sorted h ∙ over-none (value_on raw name)

  -- Every pair of the line has a known name and a value of its type.
  abbrev pub AllKnown : List (Word × Word) → Type 0
  AllKnown raw =
      (name value : Word)
      → find raw name ≡ some value
      → (param : CompiledParameter) × (compile_known n map name value ≡ some param)

  -- A name that is found behind a key that is below all is not that key.
  find_behind :
      (o : Ordering) (k v name value : Word) (raw : List (Word × Word))
      → order name k ≡ o
      → IsAbove k raw
      → find raw name ≡ some value
      → found o v (find raw name) ≡ some value
  find_behind Ordering.lt k v name value raw e above h = h
  find_behind Ordering.gt k v name value raw e above h = h
  find_behind Ordering.eq k v name value raw e above h =
      absurd (cc (eq_of_order name k e, find-IsAbove k raw above, h))

  pub compile_parameters_total :
      (raw : List (Word × Word)) (before : List (Word × CompiledParameter))
      → IsSorted raw
      → AllKnown raw
      → (m : List (Word × CompiledParameter)) × (compile_parameters n map raw before ≡ some m)
  unfolding compile_parameters find
  compile_parameters_total [] before sorted known = (before, refl)
  compile_parameters_total ((k, v) ∷ raw) before (above, sorted) known =
      let (param, first) = known k v (rw (order_refl k) refl) in
      let (m, later) = compile_parameters_total raw (assign k param before) sorted (λ name value h.
        known name value (find_behind (order name k) k v name value raw refl above h)) in
      (m, rw first later)

  pub all_known :
      (raw : List (Word × Word)) (before m : List (Word × CompiledParameter)) (name value : Word)
      → compile_parameters n map raw before ≡ some m
      → find raw name ≡ some value
      → (param : CompiledParameter) × (compile_known n map name value ≡ some param)
  unfolding compile_parameters find
  all_known [] before m name value h given = absurd (cc given)
  all_known ((k, v) ∷ raw) before m name value h given =
      let (param, known, later) =
        bind_some (compile_known n map k v)
          (λ param. compile_parameters n map raw (assign k param before)) m h in
      known_here (order name k) param refl known given
        (all_known raw (assign k param before) m name value later)
    where
      known_here :
          (o : Ordering) (param : CompiledParameter)
          → order name k ≡ o
          → compile_known n map k v ≡ some param
          → found o v (find raw name) ≡ some value
          → (find raw name ≡ some value
              → (p : CompiledParameter) × (compile_known n map name value ≡ some p))
          → (p : CompiledParameter) × (compile_known n map name value ≡ some p)
      known_here Ordering.lt param e known given later = later given
      known_here Ordering.gt param e known given later = later given
      known_here Ordering.eq param e known given later =
          (param, cc (eq_of_order name k e, known, given))
