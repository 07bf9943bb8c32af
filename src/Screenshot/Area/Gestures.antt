-- ===== src/Screenshot/Area/Gestures.antt =====
-- Presses, moves and releases in any order (cpp/qt/ScreenShot/selectshotarea.cpp).
use code_study_example.Screenshot.Rect.{Point, origin, ◌+P◌, Rects}
use code_study_example.Screenshot.Area.{
  SelectShotArea, new_area, rt, mouse_pressed, mouse_release, mouse_move, pressed_at,
  pressed_inside, resize, spanned,
}
use code_study_example.Screenshot.Area.Numbers.{spanned_still, shown}
use code_study_example.Shared.{
  ◌≡◌, refl, true, false, arith, List, [], ◌∷◌, Bool-cases, inl, inr, ◌∙◌, sym,
}

module _ (q : Rects) where
  open q use {Rect}

  pub data Gesture : Type 0 where
    press : Point → Gesture
    move : Point → Gesture
    release : Gesture

  abbrev pub gesture : Gesture → SelectShotArea → SelectShotArea
  gesture (press p) s = mouse_pressed q p s
  gesture (move p) s = mouse_move q p s
  gesture release s = mouse_release s

  abbrev pub gestures : List Gesture → SelectShotArea → SelectShotArea
  gestures [] s = s
  gestures (g ∷ gs) s = gestures gs (gesture g s)

  abbrev pub Settled : SelectShotArea → Type 0
  Settled s = s.is_move_pressed ≡ false → s.move_offset ≡ origin

  press-Settled : (p : Point) (s : SelectShotArea) → Settled s → Settled (mouse_pressed q p s)
  unfolding mouse_pressed pressed_at pressed_inside
  press-Settled p s h = ground arith

  move-Settled : (p : Point) (s : SelectShotArea) → Settled s → Settled (mouse_move q p s)
  unfolding mouse_move resize
  move-Settled p s h = ground arith

  release-Settled : (s : SelectShotArea) → Settled s → Settled (mouse_release s)
  unfolding mouse_release
  release-Settled s h = ground arith

  gesture-Settled : (g : Gesture) (s : SelectShotArea) → Settled s → Settled (gesture g s)
  gesture-Settled (press p) s h = press-Settled p s h
  gesture-Settled (move p) s h = move-Settled p s h
  gesture-Settled release s h = release-Settled s h

  gestures-Settled : (gs : List Gesture) (s : SelectShotArea) → Settled s → Settled (gestures gs s)
  gestures-Settled [] s h = h
  gestures-Settled (g ∷ gs) s h = gestures-Settled gs (gesture g s) (gesture-Settled g s h)

  release_ends_move :
      (s : SelectShotArea)
      → s.is_move_pressed ≡ true
      → rt q (mouse_release s)
        ≡ spanned q
            (s.init_pressed +P s.move_offset +P origin)
            (s.init_move +P s.move_offset +P origin)
  unfolding mouse_release
  release_ends_move s h = rw h (shown q _)

  release_ends_other :
      (s : SelectShotArea) → s.is_move_pressed ≡ false → rt q (mouse_release s) ≡ rt q s
  unfolding mouse_release rt
  release_ends_other s h = rw h refl

  -- The area that a release leaves is the one that was shown before it.
  pub release-rt : (s : SelectShotArea) → rt q (mouse_release s) ≡ rt q s
  release-rt s = elim (Bool-cases s.is_move_pressed) [
    | inl h ↦
        release_ends_move s h
        ∙ spanned_still q (s.init_pressed +P s.move_offset) (s.init_move +P s.move_offset) origin
            refl
        ∙ sym (shown q s)
    | inr h ↦ release_ends_other s h
  ]

  release_rests :
      (s : SelectShotArea)
      → Settled s
      → ((mouse_release s).is_init_pressed ≡ false)
        × ((mouse_release s).is_resize_pressed ≡ false)
        × ((mouse_release s).is_move_pressed ≡ false)
        × ((mouse_release s).move_offset ≡ origin)
  unfolding mouse_release
  release_rests s h = ground arith

  -- After any presses, moves and releases on a new area, in any order, a release clears the three
  -- flags and the offset, and leaves the area as it was shown.
  pub release_settles :
      (gs : List Gesture)
      → let s = gestures gs new_area in
        let s' = mouse_release s in
        (s'.is_init_pressed ≡ false)
        × (s'.is_resize_pressed ≡ false)
        × (s'.is_move_pressed ≡ false)
        × (s'.move_offset ≡ origin)
        × (rt q s' ≡ rt q s)
  release_settles gs =
      let s = gestures gs new_area in
      let (a, b, c, d) = release_rests s (gestures-Settled gs new_area (λ _. refl)) in
      (a, b, c, d, release-rt s)
