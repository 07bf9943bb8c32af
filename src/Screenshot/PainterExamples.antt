-- ===== src/Screenshot/PainterExamples.antt =====
-- A text of two lines painted by cpp/qt/ScreenShot/drawcontent.cpp.
use code_study_example.Screenshot.Examples.{Quad, quads}
use code_study_example.Screenshot.Painter.{
  Floats, QLines, draw_text, draw_to_painter, painted_text, split,
}
use code_study_example.Screenshot.Painter.Lines.{joined, AllApart, text_lines_apart}
use code_study_example.Screenshot.Window.{Text, item_text}
use code_study_example.Shared.{◌≡◌, refl, [], ◌∷◌, map, true, arith}
use code_study_example.Shared.Int.{ℤ, pos, ltb_ℤ, ◌-ℤ◌, ◌*ℤ◌}

-- Whole numbers, and no trigonometry: no arrow is painted here.
abbrev whole : Floats
whole = record {
  Float = ℤ;
  of_int = λ a. a;
  sub = λ a b. a -ℤ b;
  mul = λ a b. a *ℤ b;
  atan2f = λ a b. pos 0;
  cosf = λ a. pos 1;
  sinf = λ a. pos 0;
  less = ltb_ℤ;
  ten = pos 10;
  half = pos 0;
  four = pos 4;
}

abbrev no_lines : QLines whole
no_lines = record {
  is_null_point = λ p. true;
  is_null_line = λ l. true;
  dx = λ l. pos 0;
  dy = λ l. pos 0;
  length = λ l. pos 0;
  set_length = λ a l. l;
  unit_vector = λ l. l;
  normal_vector = λ l. l;
  translate = λ p l. l;
}

-- Every line is 30 high.
abbrev bounding : ℤ → ℤ → ℤ → Text → Quad
bounding x y w line = record { qx = x; qy = y; qw = w; qh = pos 30 }

abbrev two_lines : Text
two_lines = 104 ∷ 105 ∷ 10 ∷ 98 ∷ []

abbrev place : Quad
place = record { qx = pos 5; qy = pos 7; qw = pos 200; qh = pos 150 }

lines_of_two : split two_lines ≡ (104 ∷ 105 ∷ []) ∷ (98 ∷ []) ∷ []
unfolding split
lines_of_two = refl

text_lines_apart_example :
    (joined (map (λ d. d.1) (draw_text quads whole no_lines bounding two_lines place)) ≡ two_lines)
    × AllApart quads (draw_text quads whole no_lines bounding two_lines place)
    × (draw_to_painter quads whole no_lines bounding (item_text two_lines place)
        ≡ map (λ d. painted_text d.0 d.1) (draw_text quads whole no_lines bounding two_lines place))
text_lines_apart_example =
    text_lines_apart quads whole no_lines bounding (λ x y w l. refl) (λ x y w l. ground arith)
      two_lines place
