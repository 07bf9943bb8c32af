-- ===== src/Screenshot/Painter.antt =====
-- How the items of the screenshot tool are painted: cpp/qt/ScreenShot/drawcontent.cpp.
pub mod Lines
use code_study_example.Screenshot.Rect.{Point, Rects}
use code_study_example.Screenshot.Window.{Text, DrawItem, item_text, item_rect, item_line_arrow}
use code_study_example.Shared.{ℕ, ◌==◌, ◌&&◌, ◌++◌, Bool, not, List, [], ◌∷◌, map, if◌then◌else◌}
use code_study_example.Shared.Int.{ℤ, pos, ◌+ℤ◌}

-- Floating-point numbers, with the functions of <cmath>.
pub record Floats : Type 1 where
  pub Float : Type 0
  pub of_int : ℤ → Float
  pub sub : Float → Float → Float
  pub mul : Float → Float → Float
  pub atan2f : Float → Float → Float
  pub cosf : Float → Float
  pub sinf : Float → Float
  pub less : Float → Float → Bool
  pub ten : Float
  pub half : Float
  pub four : Float

module _ (f : Floats) where
  open f use {Float}

  -- QPointF.
  pub record PointF : Type 0 where
    pub x : Float
    pub y : Float

  -- QLineF.
  pub record LineF : Type 0 where
    pub p1 : PointF
    pub p2 : PointF

-- What the code calls of QPointF and QLineF.
pub record QLines (f : Floats) : Type 0 where
  pub is_null_point : PointF f → Bool
  pub is_null_line : LineF f → Bool
  pub dx : LineF f → f.Float
  pub dy : LineF f → f.Float
  pub length : LineF f → f.Float
  pub set_length : f.Float → LineF f → LineF f
  pub unit_vector : LineF f → LineF f
  pub normal_vector : LineF f → LineF f
  pub translate : PointF f → LineF f → LineF f

-- `text.split("\n")`.
abbrev pub first_line : ℕ → List Text → List Text
first_line c [] = (c ∷ []) ∷ []
first_line c (l ∷ ls) = (c ∷ l) ∷ ls

unfoldable pub split : Text → List Text
split [] = [] ∷ []
split (c ∷ cs) = let rest = split cs in if c == 10 then [] ∷ rest else first_line c rest

-- What is painted: a line of text in its rectangle, a rectangle, or a line.
pub data Painted (q : Rects) (f : Floats) : Type 0 where
  painted_text : q.Rect → Text → Painted q f
  painted_rect : q.Rect → Painted q f
  painted_line : LineF f → Painted q f

-- `bounding` is QFontMetrics::boundingRect, for lines of a width from a point on.
module _ (q : Rects) (f : Floats) (g : QLines f) (bounding : ℤ → ℤ → ℤ → Text → q.Rect) where
  open q use {Rect, left, top, width, height}
  open g use {
    is_null_point, is_null_line, dx, dy, length, set_length, unit_vector, normal_vector, translate,
  }

  -- The loop of `DrawItemText::drawToPainter`; `y` is where the next line begins.
  unfoldable pub draw_lines : ℤ → ℤ → ℤ → List Text → List (Rect × Text)
  draw_lines x y w [] = []
  draw_lines x y w (line ∷ lines) =
      let rect = bounding x y w line in
      (rect, line) ∷ draw_lines x (y +ℤ height rect +ℤ pos 12) w lines

  unfoldable pub draw_text : Text → Rect → List (Rect × Text)
  draw_text text rt = draw_lines (left rt) (top rt) (width rt) (split text)

  -- A side of the arrow's head is painted if its ends are not null and it is longer than 4.
  unfoldable pub side : PointF f → PointF f → List (LineF f)
  side p1 p2 =
      let line : LineF f = record { p1 = p1; p2 = p2 } in
      if not (is_null_point p1) && not (is_null_point p2) && f.less f.four (length line)
      then line ∷ []
      else []

  unfoldable pub head : LineF f → List (LineF f)
  head line =
      let v =
        translate (record { x = dx line; y = dy line }) (set_length f.ten (unit_vector line)) in
      let n = normal_vector v in
      let n' = set_length (f.mul (length n) f.half) n in
      let n2 = normal_vector (normal_vector n') in
      side v.p2 n'.p2 ++ side n'.p2 n2.p2 ++ side n2.p2 v.p2

  unfoldable pub draw_line_arraw : PointF f → PointF f → List (LineF f)
  draw_line_arraw start stop =
      let theta1 = f.atan2f (f.sub stop.y start.y) (f.sub stop.x start.x) in
      let stop' : PointF f = record {
        x = f.sub stop.x (f.mul f.ten (f.cosf theta1));
        y = f.sub stop.y (f.mul f.ten (f.sinf theta1));
      } in
      let line : LineF f = record { p1 = start; p2 = stop' } in
      line ∷ (if is_null_line (unit_vector line) then [] else head line)

  abbrev pub point_f : Point → PointF f
  point_f p = record { x = f.of_int p.x; y = f.of_int p.y }

  unfoldable pub draw_to_painter : DrawItem q → List (Painted q f)
  draw_to_painter (item_text text rt) = map (λ d. painted_text d.0 d.1) (draw_text text rt)
  draw_to_painter (item_rect rt) = painted_rect rt ∷ []
  draw_to_painter (item_line_arrow start end) =
      map painted_line (draw_line_arraw (point_f start) (point_f end))
