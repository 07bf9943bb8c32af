-- ===== src/Screenshot/Area/Numbers.antt =====
-- Corners and sizes of the rectangle of cpp/qt/ScreenShot/selectshotarea.cpp.
use code_study_example.Screenshot.Rect.{Point, origin, ◌+P◌, Rects, min_ℤ}
use code_study_example.Screenshot.Area.{SelectShotArea, rt, spanned}
use code_study_example.Shared.{◌∙◌, ◌≡◌, refl, arith}
use code_study_example.Shared.Int.{ℤ, pos, ◌+ℤ◌, ◌-ℤ◌, ◌≤ℤ◌, abs, int_laws, +ℤ_parts, eq_of_parts}

pub +ℤ_zero : (a : ℤ) → a +ℤ pos 0 ≡ a
+ℤ_zero a = omega int_laws

pub +P_origin : (p : Point) → p +P origin ≡ p
unfolding ◌+P◌
+P_origin p = rw (+ℤ_zero p.x, +ℤ_zero p.y) refl

pub min-shift : (a b o : ℤ) → min_ℤ (a +ℤ o) (b +ℤ o) ≡ min_ℤ a b +ℤ o
unfolding min_ℤ
min-shift a b o = ground (arith, +ℤ_parts a o, +ℤ_parts b o)

pub sub-shift : (a b o : ℤ) → (a +ℤ o) -ℤ (b +ℤ o) ≡ a -ℤ b
sub-shift a b o = omega int_laws

pub sub_self : (a : ℤ) → a -ℤ a ≡ pos 0
sub_self a = omega int_laws

pub min_first : (a b : ℤ) → a ≤ℤ b → min_ℤ a b ≡ a
unfolding min_ℤ
min_first a b h = ground arith

pub min_second : (a b : ℤ) → b ≤ℤ a → min_ℤ a b ≡ b
unfolding min_ℤ
min_second a b h = ground (arith, eq_of_parts a b)

pub abs_first : (a b : ℤ) → a ≤ℤ b → abs (a -ℤ b) ≡ b -ℤ a
unfolding abs ◌-ℤ◌
abs_first a b h = ground arith

pub abs_second : (a b : ℤ) → b ≤ℤ a → abs (a -ℤ b) ≡ a -ℤ b
unfolding abs ◌-ℤ◌
abs_second a b h = ground arith

module _ (q : Rects) where
  open q use {rect}

  pub shown :
      (s : SelectShotArea)
      → rt q s ≡ spanned q (s.init_pressed +P s.move_offset) (s.init_move +P s.move_offset)
  unfolding rt spanned
  shown s = refl

  pub spanned_still : (a b o : Point) → o ≡ origin → spanned q (a +P o) (b +P o) ≡ spanned q a b
  spanned_still a b o h = rw (h, +P_origin a, +P_origin b) refl

  pub rt-spanned :
      (s : SelectShotArea) → s.move_offset ≡ origin → rt q s ≡ spanned q s.init_pressed s.init_move
  rt-spanned s h = shown s ∙ spanned_still s.init_pressed s.init_move s.move_offset h

  pub spanned-rect :
      (a b : Point)
      → spanned q a b ≡ rect (min_ℤ a.x b.x) (min_ℤ a.y b.y) (abs (a.x -ℤ b.x)) (abs (a.y -ℤ b.y))
  unfolding spanned
  spanned-rect a b = refl
