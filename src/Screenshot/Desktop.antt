-- ===== src/Screenshot/Desktop.antt =====
-- The picture of the desktop: `Tool::mergeGrabWindow` of cpp/qt/ScreenShot/Tool.h.
pub mod Bounds
use code_study_example.Screenshot.Rect.{Rects}
use code_study_example.Shared.{
  ◌≡◌, ◌↔◌, refl, sym, ap, subst, ◌∙◌, List, [], ◌∷◌, All, if◌then◌else◌, arith,
}
use code_study_example.Shared.Int.{ℤ, pos, ◌+ℤ◌, ◌-ℤ◌, ◌≤ℤ◌, ltb_ℤ, int_laws}

-- The pixmap: its size, and where the picture of each screen is painted on it, in order. What lies
-- outside of the size is lost.
pub record Pixmap (q : Rects) : Type 0 where
  pub pix_width : ℤ
  pub pix_height : ℤ
  pub painted : List (q.Rect)

module _ (q : Rects) (united : q.Rect → q.Rect → q.Rect) where
  open q use {Rect, rect, left, top, right, bottom, width, height}

  -- `for (auto pScreen : screens) rt = rt.united(pScreen->geometry())`
  unfoldable pub unite_all : List Rect → Rect → Rect
  unite_all [] rt = rt
  unite_all (screen ∷ screens) rt = unite_all screens (united rt screen)

  -- The second loop, `drawPixmap(rect.topLeft(), …)`.
  unfoldable pub paint_screens : List Rect → List Rect
  paint_screens [] = []
  paint_screens (r ∷ screens) = rect (left r) (top r) (width r) (height r) ∷ paint_screens screens

  unfoldable pub merge_grab_window : List Rect → Pixmap q
  merge_grab_window screens =
      let rt = unite_all screens (rect (pos 0) (pos 0) (pos 0) (pos 0)) in
      record { pix_width = width rt; pix_height = height rt; painted = paint_screens screens }

  -- `r` lies in `s`.
  abbrev pub Within : Rect → Rect → Type 0
  Within s r = (left s ≤ℤ left r) × (right r ≤ℤ right s) × (top s ≤ℤ top r) × (bottom r ≤ℤ bottom s)

  abbrev pub HasSize : Rect → Type 0
  HasSize r = (left r ≤ℤ right r) × (top r ≤ℤ bottom r)
