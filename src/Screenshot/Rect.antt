-- ===== src/Screenshot/Rect.antt =====
-- Points and rectangles of Qt, as cpp/qt/ScreenShot uses them.
use code_study_example.Shared.{◌≡◌, Bool, if◌then◌else◌}
use code_study_example.Shared.Int.{ℤ, pos, ◌+ℤ◌, ◌-ℤ◌, ltb_ℤ}

-- A QPoint, by its coordinates.
pub record Point : Type 0 where
  pub x : ℤ
  pub y : ℤ

infixl 65 ◌+P◌ ◌-P◌
unfoldable pub ◌+P◌ : Point → Point → Point
p +P q = record { x = p.x +ℤ q.x; y = p.y +ℤ q.y }

unfoldable pub ◌-P◌ : Point → Point → Point
p -P q = record { x = p.x -ℤ q.x; y = p.y -ℤ q.y }

abbrev pub origin : Point
origin = record { x = pos 0; y = pos 0 }

-- QRect. The right and the bottom edge are the last column and row inside.
pub record Rects : Type 1 where
  pub Rect : Type 0
  pub rect : ℤ → ℤ → ℤ → ℤ → Rect
  pub left : Rect → ℤ
  pub top : Rect → ℤ
  pub right : Rect → ℤ
  pub bottom : Rect → ℤ
  pub width : Rect → ℤ
  pub height : Rect → ℤ
  pub contains : Rect → Point → Bool
  pub left-rect : (x y w h : ℤ) → left (rect x y w h) ≡ x
  pub top-rect : (x y w h : ℤ) → top (rect x y w h) ≡ y
  pub right-rect : (x y w h : ℤ) → right (rect x y w h) ≡ x +ℤ w -ℤ pos 1
  pub bottom-rect : (x y w h : ℤ) → bottom (rect x y w h) ≡ y +ℤ h -ℤ pos 1
  pub width-rect : (x y w h : ℤ) → width (rect x y w h) ≡ w
  pub height-rect : (x y w h : ℤ) → height (rect x y w h) ≡ h

unfoldable pub min_ℤ : ℤ → ℤ → ℤ
min_ℤ a b = if ltb_ℤ b a then b else a

unfoldable pub max_ℤ : ℤ → ℤ → ℤ
max_ℤ a b = if ltb_ℤ a b then b else a
