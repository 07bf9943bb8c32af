-- ===== src/SmbShell/Split.antt =====
-- `split_by_space` of cpp/samba/client/OpenSmbC/examples/smb2-ex.cpp, and what it returns.
use code_study_example.Shared.Texts.{Text}
use code_study_example.Shared.{
  ℕ, zero, suc, ◌<◌, ◌≤◌, ◌≡◌, refl, sym, ap, ◌∙◌, leb, ◌==◌, List, [], ◌∷◌, ◌&&◌, ◌||◌, Bool, true,
  false, Option, none, some, if◌then◌else◌, length, arith, Bool-cases, inl, inr, List-cases,
}

-- `isspace` in the C locale.
unfoldable pub is_space : ℕ → Bool
is_space c = (c == 32) || (leb 9 c && leb c 13)

-- `iss >> token`: the blanks are skipped, then the characters up to the next blank are the token.
unfoldable pub skip_space : Text → Text
skip_space [] = []
skip_space (c ∷ cs) = if is_space c then skip_space cs else c ∷ cs

unfoldable pub token : Text → Text × Text
token [] = ([], [])
token (c ∷ cs) =
    let (word, rest) = token cs in if is_space c then ([], c ∷ cs) else (c ∷ word, rest)

-- The extraction fails where nothing is left.
unfoldable pub extract_at : Text → Option (Text × Text)
extract_at [] = none
extract_at (c ∷ cs) = some (token (c ∷ cs))

unfoldable pub extract : Text → Option (Text × Text)
extract input = extract_at (skip_space input)

-- The loop, on fuel.
unfoldable pub read_tokens : ℕ → Text → List Text
read_tokens zero input = []
read_tokens (suc fuel) input = elim (extract input) [
  | none ↦ []
  | some p ↦ p.0 ∷ read_tokens fuel p.1
]

unfoldable pub split_by_space : Text → List Text
split_by_space input = read_tokens (suc (length input)) input

-- The words of a text, said without a stream: a character that is no blank begins a word of its
-- own where a blank or the end follows, and else belongs to the word that follows.
abbrev pub at_blank : Text → Bool
at_blank [] = true
at_blank (c ∷ cs) = is_space c

abbrev pub onto_first : ℕ → List Text → List Text
onto_first c [] = (c ∷ []) ∷ []
onto_first c (w ∷ ws) = (c ∷ w) ∷ ws

unfoldable pub words : Text → List Text
words [] = []
words (c ∷ cs) =
    if is_space c
    then words cs
    else (if at_blank cs then (c ∷ []) ∷ words cs else onto_first c (words cs))

-- The equations of the definitions above on a blank and on another character.
pub words-blank : (c : ℕ) (cs : Text) → is_space c ≡ true → words (c ∷ cs) ≡ words cs
unfolding words
words-blank c cs h = rw h refl

words-letter :
    (c : ℕ) (cs : Text)
    → is_space c ≡ false
    → words (c ∷ cs) ≡ (if at_blank cs then (c ∷ []) ∷ words cs else onto_first c (words cs))
unfolding words
words-letter c cs h = rw h refl

skip-blank : (c : ℕ) (cs : Text) → is_space c ≡ true → skip_space (c ∷ cs) ≡ skip_space cs
unfolding skip_space
skip-blank c cs h = rw h refl

skip-letter : (c : ℕ) (cs : Text) → is_space c ≡ false → skip_space (c ∷ cs) ≡ c ∷ cs
unfolding skip_space
skip-letter c cs h = rw h refl

token_nil : token [] ≡ ([], [])
unfolding token
token_nil = refl

token-blank : (c : ℕ) (cs : Text) → is_space c ≡ true → token (c ∷ cs) ≡ ([], c ∷ cs)
unfolding token
token-blank c cs h = rw h refl

token-letter :
    (c : ℕ) (cs : Text) → is_space c ≡ false → token (c ∷ cs) ≡ (c ∷ (token cs).0, (token cs).1)
unfolding token
token-letter c cs h = rw h refl

words_nil : [] ≡ words []
unfolding words
words_nil = refl

words-skip : (t : Text) → words (skip_space t) ≡ words t
unfolding skip_space
words-skip [] = refl
words-skip (c ∷ cs) = elim (Bool-cases (is_space c)) [
  | inl h ↦ ap words (skip-blank c cs h) ∙ words-skip cs ∙ sym (words-blank c cs h)
  | inr h ↦ ap words (skip-letter c cs h)
]

abbrev first_word : Text × Text → List Text
first_word p = p.0 ∷ words p.1

pub words-letter_last :
    (c : ℕ) (cs : Text)
    → is_space c ≡ false
    → at_blank cs ≡ true
    → words (c ∷ cs) ≡ (c ∷ []) ∷ words cs
words-letter_last c cs h k = words-letter c cs h ∙ rw k refl

pub words-letter_more :
    (c : ℕ) (cs : Text)
    → is_space c ≡ false
    → at_blank cs ≡ false
    → words (c ∷ cs) ≡ onto_first c (words cs)
words-letter_more c cs h k = words-letter c cs h ∙ rw k refl

words-token :
    (c : ℕ) (cs : Text) → is_space c ≡ false → words (c ∷ cs) ≡ first_word (token (c ∷ cs))
words-token c [] h =
    words-letter_last c [] h refl
    ∙ ap first_word (sym (token-letter c [] h ∙ ap (λ p. (c ∷ p.0, p.1)) token_nil))
words-token c (d ∷ ds) h = elim (Bool-cases (is_space d)) [
  | inl k ↦
      words-letter_last c (d ∷ ds) h k
      ∙ ap (λ (p : Text × Text). first_word (c ∷ p.0, p.1)) (sym (token-blank d ds k))
      ∙ ap first_word (sym (token-letter c (d ∷ ds) h))
  | inr k ↦
      words-letter_more c (d ∷ ds) h k
      ∙ ap (onto_first c) (words-token d ds k)
      ∙ ap first_word (sym (token-letter c (d ∷ ds) h))
]

length-token : (t : Text) → length (token t).1 ≤ length t
unfolding token
length-token [] = omega arith
length-token (c ∷ cs) = ground (arith, length-token cs)

length-token_rest : (c : ℕ) (cs : Text) → is_space c ≡ false → length (token (c ∷ cs)).1 ≤ length cs
unfolding token
length-token_rest c cs h = rw h (length-token cs)

length-skip : (t : Text) → length (skip_space t) ≤ length t
unfolding skip_space
length-skip [] = omega arith
length-skip (c ∷ cs) = ground (arith, length-skip cs)

head-cons : {c d : ℕ} {cs ds : Text} → c ∷ cs ≡ d ∷ ds → c ≡ d
head-cons e = ground arith

-- What is left after the blanks begins with no blank.
starts_word : (t : Text) (c : ℕ) (cs : Text) → skip_space t ≡ c ∷ cs → is_space c ≡ false
unfolding skip_space
starts_word [] c cs e = ground arith
starts_word (d ∷ ds) c cs e = elim (Bool-cases (is_space d)) [
  | inl h ↦ starts_word ds c cs (sym (skip-blank d ds h) ∙ e)
  | inr h ↦ ap is_space (sym (head-cons (sym (skip-letter d ds h) ∙ e))) ∙ h
]

tokens_stop : (fuel : ℕ) (input : Text) → skip_space input ≡ [] → read_tokens fuel input ≡ []
unfolding read_tokens extract extract_at
tokens_stop zero input e = refl
tokens_stop (suc fuel) input e = rw (read_tokens, e) refl

tokens_step :
    (fuel : ℕ) (input : Text) (c : ℕ) (cs : Text)
    → skip_space input ≡ c ∷ cs
    → read_tokens (suc fuel) input ≡ (token (c ∷ cs)).0 ∷ read_tokens fuel (token (c ∷ cs)).1
unfolding read_tokens extract extract_at
tokens_step fuel input c cs e = rw (read_tokens, e) refl

-- With more fuel than the text has characters the loop reads every word.
read_tokens-words :
    (fuel : ℕ) (input : Text) → length input < fuel → read_tokens fuel input ≡ words input
read_tokens-words zero input h = absurd (omega (arith, h))
read_tokens-words (suc fuel) input h = elim (List-cases (skip_space input)) [
  | inl e ↦ tokens_stop (suc fuel) input e ∙ words_nil ∙ ap words (sym e) ∙ words-skip input
  | inr (c, cs, e) ↦
      let letter = starts_word input c cs e in
      tokens_step fuel input c cs e
      ∙ ap (◌∷◌ (token (c ∷ cs)).0) (
          read_tokens-words fuel (token (c ∷ cs)).1
            (omega (arith, h, length-token_rest c cs letter, length-skip input, ap length e)))
      ∙ sym (words-token c cs letter)
      ∙ ap words (sym e)
      ∙ words-skip input
]

pub split-words : (input : Text) → split_by_space input ≡ words input
unfolding split_by_space
split-words input = read_tokens-words (suc (length input)) input (omega arith)
