-- ===== src/CmdLine/Words/Laws.antt =====
-- A command line that is joined and split again.
use ritex.Base.{
  ℕ, ◌≡◌, ◌≢◌, refl, sym, ap, ◌∙◌, false, List, [], ◌∷◌, ◌++◌, ◌==◌, All, append-nil, ==_refl,
}
use ritex.CmdLine.Words.{Word, space, in_front, split, set_cmd_line, get_cmd_line}

-- A word with no delimiter in it.
abbrev pub IsPlain : ℕ → Word → Type 0
IsPlain delim = All (λ c. (c == delim) ≡ false)

-- The bytes of a plain word go in front of the first word.
abbrev all_in_front : Word → List Word → List Word
all_in_front [] words = words
all_in_front (c ∷ w) words = in_front c (all_in_front w words)

split-append :
    (delim : ℕ) (w : Word) (s : List ℕ)
    → IsPlain delim w
    → split delim (w ++ s) ≡ all_in_front w (split delim s)
unfolding split
split-append delim [] s h = refl
split-append delim (c ∷ w) s (h, hs) = rw (h, split-append delim w s hs) refl

all_in_front_first :
    (w v : Word) (words : List Word) → all_in_front w (v ∷ words) ≡ (w ++ v) ∷ words
all_in_front_first [] v words = refl
all_in_front_first (c ∷ w) v words = rw (all_in_front_first w v words) refl

all_in_front_alone : (c : ℕ) (w : Word) → all_in_front (c ∷ w) [] ≡ (c ∷ w) ∷ []
all_in_front_alone c [] = refl
all_in_front_alone c (d ∷ w) = rw (all_in_front_alone d w) refl

-- The last of the words.
abbrev pub last_word : List Word → Word
last_word [] = []
last_word (w ∷ []) = w
last_word (w ∷ (v ∷ words)) = last_word (v ∷ words)

-- A plain word, a delimiter, and the rest.
pub split_word :
    (delim : ℕ) (w : Word) (s : List ℕ)
    → IsPlain delim w
    → split delim (w ++ (delim ∷ s)) ≡ w ∷ split delim s
unfolding split
split_word delim w s h =
    split-append delim w (delim ∷ s) h
    ∙ rw (==_refl delim) (all_in_front_first w [] (split delim s))
    ∙ ap (λ v. v ∷ split delim s) (append-nil w)

pub split_last : (delim : ℕ) (w : Word) → IsPlain delim w → w ≢ [] → split delim w ≡ w ∷ []
unfolding split
split_last delim [] h some_byte = absurd (some_byte refl)
split_last delim (c ∷ w) h some_byte =
    ap (split delim) (sym (append-nil (c ∷ w)))
    ∙ split-append delim (c ∷ w) [] h
    ∙ all_in_front_alone c w

-- The arguments that GetCmdLine joins are those that SetCmdLine splits, where no argument has a
-- space in it and the last one is not empty.
pub set_cmd_line-get_cmd_line :
    (args : List Word)
    → All (IsPlain space) args
    → last_word args ≢ []
    → set_cmd_line (get_cmd_line args) ≡ args
unfolding set_cmd_line get_cmd_line
set_cmd_line-get_cmd_line [] all named = absurd (named refl)
set_cmd_line-get_cmd_line (w ∷ []) (h, hs) named = split_last space w h named
set_cmd_line-get_cmd_line (w ∷ (v ∷ args)) (h, hs) named =
    split_word space w (get_cmd_line (v ∷ args)) h
    ∙ ap (◌∷◌ w) (set_cmd_line-get_cmd_line (v ∷ args) hs named)
