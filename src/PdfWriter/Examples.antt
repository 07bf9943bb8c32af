-- ===== src/PdfWriter/Examples.antt =====
-- Exports of cpp/qt/pdfwriter.
use code_study_example.Shared.{ℕ, List, [], ◌∷◌, Bool, ltb, ◌++◌}

-- Names are numbers; those below 100 end in png.
abbrev is_png : ℕ → Bool
is_png n = ltb n 100

abbrev names : List ℕ
names = 1 ∷ 2 ∷ 200 ∷ 3 ∷ 4 ∷ 5 ∷ 6 ∷ 7 ∷ 8 ∷ 9 ∷ 10 ∷ 11 ∷ 12 ∷ []

abbrev joined : List (List (List ℕ)) → List (List ℕ)
joined [] = []
joined (f ∷ fs) = f ++ joined fs
