-- ===== src/SqlModel/Examples.antt =====
-- The table of cpp/qt/sqlmodel/widget.cpp with concrete rows.
use code_study_example.SqlModel.{Person, Widget, Outside, remove_row, record_at, clicked}
use code_study_example.SqlModel.Edits.{Consistent, remove_row_lem}
use code_study_example.Shared.Int.{pos}
use code_study_example.Shared.Texts.{codes}
use code_study_example.Shared.{ℕ, ◌≡◌, refl, [], ◌∷◌, true, arith}

abbrev row_of : ℕ → Person
row_of n = record { id = n; name = codes "Tony"; age = 30; date = 1; image = [] }

-- Ids 2, 5 and 6 of six that were given, in a view that a search left with two rows.
abbrev three : Widget
three = record {
  person = row_of 2 ∷ row_of 5 ∷ row_of 6 ∷ [];
  sequence = 6;
  model = row_of 2 ∷ row_of 5 ∷ [];
}

three-Consistent : Consistent three
three-Consistent = record {
  ascending = ((ground arith, (ground arith, tt)), ((ground arith, tt), (tt, tt)));
  given = (
    (ground arith, ground arith),
    ((ground arith, ground arith), ((ground arith, ground arith), tt)),
  );
}

abbrev outside : Outside
outside = record { rand_name = 23; rand_age = 60; now = 2; image = []; exec = true }

remove_row_lem_example :
    ((remove_row (pos 1) outside three).person ≡ row_of 2 ∷ row_of 6 ∷ [])
    × ((remove_row (pos 1) outside three).model ≡ row_of 2 ∷ row_of 6 ∷ [])
unfolding record_at
remove_row_lem_example =
    remove_row_lem (pos 1) outside three (row_of 2 ∷ []) (row_of 5) (row_of 6 ∷ []) three-Consistent
      refl refl refl

abbrev with_picture : Widget
with_picture = record three { model = record (row_of 2) { image = 7 ∷ [] } ∷ [] }

shows_picture : clicked (pos 0) with_picture [] ≡ 7 ∷ []
unfolding clicked record_at
shows_picture = refl
