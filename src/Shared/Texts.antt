-- ===== src/Shared/Texts.antt =====
-- Texts as lists of the numbers of their characters, and what printf and std::string do with them.
use Prim.Native.Char.{code}
use Prim.Native.String.{String}
use code_study_example.Shared.{
  ℕ, zero, suc, ◌+◌, ◌-◌, ◌/◌, ◌%◌, ◌≡◌, refl, ltb, ◌==◌, List, [], ◌∷◌, ◌++◌, ◌&&◌, ◌||◌, Bool,
  true, false, if◌then◌else◌, length, arith,
}

abbrev pub Text : Type 0
Text = List ℕ

-- A literal. `String` has its own `[]` and `∷`.
abbrev pub codes : String → Text
codes String.[] = []
codes (String.◌∷◌ c s) = code c ∷ codes s

abbrev pub same_text : Text → Text → Bool
same_text [] [] = true
same_text [] (d ∷ ds) = false
same_text (c ∷ cs) [] = false
same_text (c ∷ cs) (d ∷ ds) = (c == d) && same_text cs ds

pub same_text_refl : (t : Text) → same_text t t ≡ true
same_text_refl [] = refl
same_text_refl (c ∷ cs) = ground (arith, same_text_refl cs)

pub same_text→≡ : (t u : Text) → same_text t u ≡ true → t ≡ u
same_text→≡ [] [] h = refl
same_text→≡ [] (d ∷ ds) h = ground arith
same_text→≡ (c ∷ cs) [] h = ground arith
same_text→≡ (c ∷ cs) (d ∷ ds) h = ground (arith, same_text→≡ cs ds)

-- The order of texts by their characters.
abbrev pub less_text : Text → Text → Bool
less_text [] [] = false
less_text [] (d ∷ ds) = true
less_text (c ∷ cs) [] = false
less_text (c ∷ cs) (d ∷ ds) = ltb c d || ((c == d) && less_text cs ds)

-- The digit of a number below 16, in lower case.
abbrev pub digit : ℕ → ℕ
digit d = if ltb d 10 then 48 + d else 87 + d

-- The digits of a number to a base from 2 to 16; a number below 2 ^ 64 has 64 of them at most.
abbrev pub digits_in : ℕ → ℕ → ℕ → Text
digits_in zero base n = []
digits_in (suc fuel) base n =
    let rest = digits_in fuel base (n / base) in
    if ltb n base then digit n ∷ [] else rest ++ digit (n % base) ∷ []

unfoldable pub decimal : ℕ → Text
decimal n = digits_in 64 10 n

unfoldable pub hexadecimal : ℕ → Text
hexadecimal n = digits_in 64 16 n

abbrev pub repeated : ℕ → ℕ → Text
repeated zero c = []
repeated (suc n) c = c ∷ repeated n c

-- The field widths of printf: `%-20s`, `%15u`, `%016x`.
unfoldable pub left_justified : ℕ → Text → Text
left_justified width t = t ++ repeated (width - length t) 32

unfoldable pub right_justified : ℕ → ℕ → Text → Text
right_justified width fill t = repeated (width - length t) fill ++ t
