-- ===== src/Device/Settings/Stored.antt =====
-- What a command and the rows of the data base store in the current settings.
use ritex.Base.{
  ℕ, ◌≡◌, ◌≢◌, refl, ap, ◌∙◌, true, Option, none, some, List, [], ◌∷◌, ◌++◌, ◌==◌, if◌then◌else◌,
  arith, inl, inr, Bool-cases, same_text,
}
use Prim.Native.String.{String}
use ritex.Device.Table.{Setting}
use ritex.Device.Settings.{set_value, set_current_setting_value, is_known, store_value, store_rows}

-- The first setting with a number, and its value.
abbrev pub value_of : ℕ → List Setting → Option ℕ
value_of id [] = none
value_of id (s ∷ ss) = let rest = value_of id ss in if s.id == id then some s.value else rest

pub set_value-new :
    (id new old : ℕ) (ss : List Setting)
    → value_of id ss ≡ some old
    → (value_of id (set_value id new ss).0 ≡ some new)
      × ((set_value id new ss).1 ≡ (if old == new then none else some old))
unfolding set_value
set_value-new id new old [] h = ground arith
set_value-new id new old (s ∷ ss) h = ground (arith, set_value-new id new old ss)

pub set_value-other :
    (id j new : ℕ) (ss : List Setting) → id ≢ j → value_of j (set_value id new ss).0 ≡ value_of j ss
unfolding set_value
set_value-other id j new [] ne = refl
set_value-other id j new (s ∷ ss) ne = ground (arith, set_value-other id j new ss ne)

-- Storing a value for a setting of the table, whose number passes the assertion: the setting has
-- the new value, the old one is returned just when it differs, and another setting keeps its value.
pub set_current_setting_value_lem :
    (id j new old : ℕ) (ss : List Setting)
    → is_known id ss ≡ true
    → value_of id ss ≡ some old
    → id ≢ j
    → (ss' : List Setting) × (set_current_setting_value id new ss
        ≡ some (ss', if old == new then none else some old))
      × (value_of id ss' ≡ some new)
      × (value_of j ss' ≡ value_of j ss)
unfolding set_current_setting_value
set_current_setting_value_lem id j new old ss known h ne =
    let (updated, replaced) = set_value-new id new old ss h in
    (
      (set_value id new ss).0,
      rw known (ap (λ r. some ((set_value id new ss).0, r)) replaced),
      updated,
      set_value-other id j new ss ne,
    )

-- The first setting with a name.
abbrev pub named : String → List Setting → Option Setting
named name [] = none
named name (s ∷ ss) = let rest = named name ss in if same_text s.name name then some s else rest

abbrev pub stored : ℕ → Setting → Setting
stored value s = record s { value = value; is_value_set = true }

abbrev stored_in : ℕ → Option Setting → Option Setting
stored_in value none = none
stored_in value (some s) = some (stored value s)

store_value-named :
    (name : String) (value : ℕ) (ss : List Setting) (s : Setting)
    → named name ss ≡ some s
    → named name (store_value name value ss) ≡ some (stored value s)
unfolding store_value
store_value-named name value [] s h = ground arith
store_value-named name value (s' ∷ ss) s h = elim (Bool-cases (same_text s'.name name)) [
  | inl e ↦ rw (e, named, e) (ap (stored_in value) (rw (named, e) at h))
  | inr e ↦ rw (e, named, e) (store_value-named name value ss s (rw (named, e) at h))
]

-- A stored value keeps which names there are.
store_value_keeps :
    (name other : String) (value : ℕ) (ss : List Setting) (s : Setting)
    → named name ss ≡ some s
    → (s' : Setting) × (named name (store_value other value ss) ≡ some s')
unfolding store_value
store_value_keeps name other value [] s h = absurd (ground (arith, h))
store_value_keeps name other value (s' ∷ ss) s h = elim (Bool-cases (same_text s'.name other)) [
  | inl e ↦ elim (Bool-cases (same_text s'.name name)) [
    | inl here ↦ (stored value s', rw (e, named, here) refl)
    | inr there ↦ (s, rw (e, named, there) (rw (named, there) at h))
  ]
  | inr e ↦ elim (Bool-cases (same_text s'.name name)) [
    | inl here ↦ (s', rw (e, named, here) refl)
    | inr there ↦
        let (found, same) = store_value_keeps name other value ss s (rw (named, there) at h) in
        (found, rw (e, named, there) same)
  ]
]

store_rows_keeps :
    (name : String) (rows : List (Option String × ℕ)) (ss : List Setting) (s : Setting)
    → named name ss ≡ some s
    → (s' : Setting) × (named name (store_rows rows ss) ≡ some s')
unfolding store_rows
store_rows_keeps name [] ss s h = (s, h)
store_rows_keeps name ((none, value) ∷ rows) ss s h = store_rows_keeps name rows ss s h
store_rows_keeps name ((some other, value) ∷ rows) ss s h =
    let (s', h') = store_value_keeps name other value ss s h in
    store_rows_keeps name rows (store_value other value ss) s' h'

store_rows-append :
    (rows more : List (Option String × ℕ)) (ss : List Setting)
    → store_rows (rows ++ more) ss ≡ store_rows more (store_rows rows ss)
unfolding store_rows
store_rows-append [] more ss = refl
store_rows-append ((none, value) ∷ rows) more ss = store_rows-append rows more ss
store_rows-append ((some name, value) ∷ rows) more ss =
    store_rows-append rows more (store_value name value ss)

-- After the rows of the data base are stored, the first setting with the name of the last row has
-- the value of that row, and counts as set.
pub store_rows_last :
    (name : String) (value : ℕ) (rows : List (Option String × ℕ)) (ss : List Setting) (s : Setting)
    → named name ss ≡ some s
    → (s' : Setting) × (named name (store_rows (rows ++ ((some name, value) ∷ [])) ss) ≡ some s')
      × (s'.value ≡ value)
      × (s'.is_value_set ≡ true)
store_rows_last name value rows ss s h =
    let (found, same) = store_rows_keeps name rows ss s h in
    (
      stored value found,
      ap (named name) (store_rows-append rows ((some name, value) ∷ []) ss)
          ∙ unfold store_rows in store_value-named name value (store_rows rows ss) found same,
      refl,
      refl,
    )
