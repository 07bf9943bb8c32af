-- ===== src/SmbShell/Words.antt =====
-- What `split_by_space` of cpp/samba/client/OpenSmbC/examples/smb2-ex.cpp returns.
use code_study_example.SmbShell.Split.{
  is_space, split_by_space, split-words, words, at_blank, onto_first, words-letter_last,
  words-letter_more,
}
use code_study_example.Shared.Texts.{Text}
use code_study_example.Shared.{
  ℕ, ◌≤◌, ◌≡◌, refl, ap, ◌∙◌, List, [], ◌∷◌, ◌++◌, true, false, length, arith, All, Bool-cases, inl,
  inr, if◌then◌else◌,
}

-- A word has a character, and no blank.
abbrev pub IsWord : Text → Type 0
IsWord w = (1 ≤ length w) × All (λ c. is_space c ≡ false) w

abbrev pub letters : Text → Text
letters [] = []
letters (c ∷ cs) = if is_space c then letters cs else c ∷ letters cs

abbrev pub concat : List Text → Text
concat [] = []
concat (w ∷ ws) = w ++ concat ws

onto_first-IsWord :
    (c : ℕ) (ws : List Text) → is_space c ≡ false → All IsWord ws → All IsWord (onto_first c ws)
onto_first-IsWord c [] h a = ((omega arith, (h, tt)), tt)
onto_first-IsWord c (w ∷ ws) h a = ((omega arith, (h, a.0.1)), a.1)

words-IsWord : (t : Text) → All IsWord (words t)
unfolding words
words-IsWord [] = tt
words-IsWord (c ∷ cs) = elim (Bool-cases (is_space c)) [
  | inl h ↦ rw h (words-IsWord cs)
  | inr h ↦ elim (Bool-cases (at_blank cs)) [
    | inl k ↦ rw (h, k) ((omega arith, (h, tt)), words-IsWord cs)
    | inr k ↦ rw (h, k) (onto_first-IsWord c (words cs) h (words-IsWord cs))
  ]
]

concat-onto_first : (c : ℕ) (ws : List Text) → concat (onto_first c ws) ≡ c ∷ concat ws
concat-onto_first c [] = refl
concat-onto_first c (w ∷ ws) = refl

concat-words : (t : Text) → concat (words t) ≡ letters t
unfolding words
concat-words [] = refl
concat-words (c ∷ cs) = elim (Bool-cases (is_space c)) [
  | inl h ↦ rw h (concat-words cs)
  | inr h ↦ elim (Bool-cases (at_blank cs)) [
    | inl k ↦ rw (h, k) (ap (◌∷◌ c) (concat-words cs))
    | inr k ↦ rw (h, k) (concat-onto_first c (words cs) ∙ ap (◌∷◌ c) (concat-words cs))
  ]
]

-- Every token that `split_by_space` returns has a character and no blank, and the tokens together
-- are the characters of the input that are no blanks, in their order.
pub split_by_space_lem :
    (input : Text)
    → All IsWord (split_by_space input) × (concat (split_by_space input) ≡ letters input)
split_by_space_lem input = rw (split-words input) (words-IsWord input, concat-words input)

-- The words with one space before each.
abbrev pub spaced : List Text → Text
spaced [] = []
spaced (w ∷ ws) = 32 ∷ w ++ spaced ws

spaced-at_blank : (ws : List Text) → at_blank (spaced ws) ≡ true
unfolding is_space
spaced-at_blank [] = refl
spaced-at_blank (w ∷ ws) = refl

words-word :
    (c : ℕ) (cs rest : Text)
    → All (λ c. is_space c ≡ false) (c ∷ cs)
    → at_blank rest ≡ true
    → words (c ∷ cs ++ rest) ≡ (c ∷ cs) ∷ words rest
words-word c [] rest a b = words-letter_last c rest a.0 b
words-word c (d ∷ ds) rest a b =
    words-letter_more c (d ∷ ds ++ rest) a.0 a.1.0 ∙ ap (onto_first c) (words-word d ds rest a.1 b)

words-spaced : (ws : List Text) → All IsWord ws → words (spaced ws) ≡ ws
unfolding words is_space
words-spaced [] a = refl
words-spaced ([] ∷ ws) a = absurd (omega (arith, a.0.0))
words-spaced ((c ∷ cs) ∷ ws) a =
    words-word c cs (spaced ws) a.0.1 (spaced-at_blank ws) ∙ ap (◌∷◌ (c ∷ cs)) (words-spaced ws a.1)

-- A command line is read back: words that have a character and no blank, written with one space
-- before each, are what `split_by_space` returns of that line.
pub split_by_space-spaced : (ws : List Text) → All IsWord ws → split_by_space (spaced ws) ≡ ws
split_by_space-spaced ws a = split-words (spaced ws) ∙ words-spaced ws a
