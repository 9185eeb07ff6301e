-- ===== src/Listings/Rows.antt =====
-- Lines of fields, written and split again.
use ritex.Base.{ℕ, ◌≡◌, ◌≢◌, refl, ap, ◌∙◌, false, List, [], ◌∷◌, ◌++◌, ◌==◌, All, map}
use ritex.CmdLine.Words.{Word, split}
use ritex.CmdLine.Words.Laws.{IsPlain, last_word, split_word, split_last}
use ritex.Listings.{newline, bar}
use ritex.Decimal.Laws.{All-append}

-- A delimiter stands between two words.
abbrev pub join : ℕ → List Word → Word
join delim [] = []
join delim (w ∷ []) = w
join delim (w ∷ (v ∷ words)) = w ++ (delim ∷ join delim (v ∷ words))

pub split-join :
    (delim : ℕ) (words : List Word)
    → All (IsPlain delim) words
    → last_word words ≢ []
    → split delim (join delim words) ≡ words
split-join delim [] all named = absurd (named refl)
split-join delim (w ∷ []) (h, hs) named = split_last delim w h named
split-join delim (w ∷ (v ∷ words)) (h, hs) named =
    split_word delim w (join delim (v ∷ words)) h
    ∙ ap (◌∷◌ w) (split-join delim (v ∷ words) hs named)

-- A line of fields, and the end of it, in front of the rest.
abbrev pub write_rows : List (List Word) → Word
write_rows [] = []
write_rows (row ∷ rows) = join bar row ++ (newline ∷ write_rows rows)

abbrev pub read_rows : Word → List (List Word)
read_rows output = map (split bar) (split newline output)

-- No field has a bar or the end of a line in it, and the last one is not empty.
pub record IsRow (row : List Word) : Type 0 where
  pub no_bar : All (IsPlain bar) row
  pub one_line : All (IsPlain newline) row
  pub named : last_word row ≢ []

join-IsPlain :
    (delim c : ℕ) (words : List Word)
    → (delim == c) ≡ false
    → All (IsPlain c) words
    → IsPlain c (join delim words)
join-IsPlain delim c [] other all = tt
join-IsPlain delim c (w ∷ []) other (h, hs) = h
join-IsPlain delim c (w ∷ (v ∷ words)) other (h, hs) =
    All-append (λ (x : ℕ). (x == c) ≡ false) w _ h
      (other, join-IsPlain delim c (v ∷ words) other hs)

split_end : (delim : ℕ) → split delim [] ≡ []
unfolding split
split_end delim = refl

pub read_rows-write_rows :
    (rows : List (List Word)) → All IsRow rows → read_rows (write_rows rows) ≡ rows
read_rows-write_rows [] all = ap (map (split bar)) (split_end newline)
read_rows-write_rows (row ∷ rows) (h, hs) =
    ap (map (split bar)) (
      split_word newline (join bar row) (write_rows rows)
        (join-IsPlain bar newline row refl h.one_line))
    ∙ rw (split-join bar row h.no_bar h.named) (ap (◌∷◌ row) (read_rows-write_rows rows hs))
