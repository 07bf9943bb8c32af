-- ===== src/Screenshot/DesktopExamples.antt =====
-- The desktop of cpp/qt/ScreenShot/Tool.h with two screens.
use code_study_example.Screenshot.Rect.{min_ℤ, max_ℤ}
use code_study_example.Screenshot.Examples.{Quad, quads}
use code_study_example.Screenshot.Desktop.{merge_grab_window, unite_all, Within, HasSize}
use code_study_example.Screenshot.Desktop.Bounds.{desktop_whole_iff}
use code_study_example.Shared.{
  ◌≡◌, ◌↔◌, refl, ap, ◌∙◌, [], ◌∷◌, All, Bool, true, false, ◌==◌, ◌&&◌, if◌then◌else◌, arith,
  if_false,
}
use code_study_example.Shared.Int.{ℤ, pos, negsuc, ◌+ℤ◌, ◌-ℤ◌, ◌≤ℤ◌, int_laws}

abbrev is_nil : ℤ → Bool
is_nil (pos n) = n == 0
is_nil _ = false

-- QRect::isNull.
abbrev is_null : Quad → Bool
is_null r = is_nil r.qw && is_nil r.qh

abbrev spanned_by : Quad → Quad → Quad
spanned_by a b =
    let x = min_ℤ a.qx b.qx in
    let y = min_ℤ a.qy b.qy in
    record {
      qx = x;
      qy = y;
      qw = max_ℤ (a.qx +ℤ a.qw -ℤ pos 1) (b.qx +ℤ b.qw -ℤ pos 1) -ℤ x +ℤ pos 1;
      qh = max_ℤ (a.qy +ℤ a.qh -ℤ pos 1) (b.qy +ℤ b.qh -ℤ pos 1) -ℤ y +ℤ pos 1;
    }

abbrev united : Quad → Quad → Quad
united a b = if is_null a then b else spanned_by a b

sized-not-nil : (x w : ℤ) → x ≤ℤ x +ℤ w -ℤ pos 1 → is_nil w ≡ false
unfolding ◌+ℤ◌ ◌-ℤ◌
sized-not-nil x w h = ground arith

and_false : (a b : Bool) → a ≡ false → (a && b) ≡ false
and_false true b h = absurd (ground arith)
and_false false b h = refl

ends_at : (x r : ℤ) → x +ℤ (r -ℤ x +ℤ pos 1) -ℤ pos 1 ≡ r
ends_at x r = omega int_laws

spans : (x w : ℤ) → w ≡ x +ℤ w -ℤ pos 1 -ℤ x +ℤ pos 1
spans x w = omega int_laws

united-edges :
    (a b : Quad)
    → HasSize quads united a
    → HasSize quads united b
    → (quads.left (united a b) ≡ min_ℤ (quads.left a) (quads.left b))
      × (quads.right (united a b) ≡ max_ℤ (quads.right a) (quads.right b))
      × (quads.top (united a b) ≡ min_ℤ (quads.top a) (quads.top b))
      × (quads.bottom (united a b) ≡ max_ℤ (quads.bottom a) (quads.bottom b))
united-edges a b h k =
    let e =
      if_false (is_null a) b (spanned_by a b)
        (and_false (is_nil a.qw) (is_nil a.qh) (sized-not-nil a.qx a.qw h.0)) in
    (
      ap (λ (r : Quad). r.qx) e,
      ap (λ (r : Quad). r.qx +ℤ r.qw -ℤ pos 1) e ∙ ends_at (spanned_by a b).qx _,
      ap (λ (r : Quad). r.qy) e,
      ap (λ (r : Quad). r.qy +ℤ r.qh -ℤ pos 1) e ∙ ends_at (spanned_by a b).qy _,
    )

null_first : (r : Quad) → united (record { qx = pos 0; qy = pos 0; qw = pos 0; qh = pos 0 }) r ≡ r
null_first r = refl

abbrev screen : Quad
screen = record { qx = pos 0; qy = pos 0; qw = pos 1920; qh = pos 1080 }

-- To the left of the first.
abbrev left_screen : Quad
left_screen = record { qx = negsuc 1279; qy = pos 0; qw = pos 1280; qh = pos 1024 }

desktop_whole_iff_example :
    (((unite_all quads united (left_screen ∷ []) screen).qx ≡ pos 0)
      × ((unite_all quads united (left_screen ∷ []) screen).qy ≡ pos 0))
    ↔ All
        (Within quads united (record {
          qx = pos 0;
          qy = pos 0;
          qw = (merge_grab_window quads united (screen ∷ left_screen ∷ [])).pix_width;
          qh = (merge_grab_window quads united (screen ∷ left_screen ∷ [])).pix_height;
        }))
        (merge_grab_window quads united (screen ∷ left_screen ∷ [])).painted
unfolding ◌+ℤ◌ ◌-ℤ◌
desktop_whole_iff_example =
    desktop_whole_iff quads united null_first united-edges (λ r. spans r.qx r.qw)
      (λ r. spans r.qy r.qh) screen (left_screen ∷ []) (ground arith, ground arith)
      ((ground arith, ground arith), tt)

-- The first 1280 columns of such a desktop are painted to the left of the picture.
around_left : (unite_all quads united (left_screen ∷ []) screen).qx ≡ negsuc 1279
unfolding unite_all min_ℤ ◌+ℤ◌ ◌-ℤ◌
around_left = refl
