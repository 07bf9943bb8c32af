-- ===== src/Screenshot/Desktop/Bounds.antt =====
-- How large the picture of the desktop of cpp/qt/ScreenShot/Tool.h is.
use code_study_example.Screenshot.Desktop.{
  unite_all, paint_screens, merge_grab_window, Within, HasSize,
}
use code_study_example.Screenshot.Rect.{Rects, min_ℤ, max_ℤ}
use code_study_example.Shared.{◌≡◌, ◌↔◌, ◌∙◌, List, [], ◌∷◌, All, arith}
use code_study_example.Shared.Int.{ℤ, pos, ◌+ℤ◌, ◌-ℤ◌, ◌≤ℤ◌, int_laws}

min-below : (a b : ℤ) → (min_ℤ a b ≤ℤ a) × (min_ℤ a b ≤ℤ b)
unfolding min_ℤ
min-below a b = ground arith

min-greatest : (a b c : ℤ) → c ≤ℤ a → c ≤ℤ b → c ≤ℤ min_ℤ a b
unfolding min_ℤ
min-greatest a b c h k = ground arith

max-above : (a b : ℤ) → (a ≤ℤ max_ℤ a b) × (b ≤ℤ max_ℤ a b)
unfolding max_ℤ
max-above a b = ground arith

max-least : (a b c : ℤ) → a ≤ℤ c → b ≤ℤ c → max_ℤ a b ≤ℤ c
unfolding max_ℤ
max-least a b c h k = ground arith

at_least_zero : (l : ℤ) → l ≡ pos 0 → pos 0 ≤ℤ l
at_least_zero l e = rw e (omega arith)

span_fits : (l r w : ℤ) → w ≡ r -ℤ l +ℤ pos 1 → l ≡ pos 0 → r ≤ℤ pos 0 +ℤ w -ℤ pos 1
span_fits l r w e f = rw (e, f) (omega int_laws)

span_starts : (l r w : ℤ) → w ≡ r -ℤ l +ℤ pos 1 → pos 0 ≤ℤ l → r ≤ℤ pos 0 +ℤ w -ℤ pos 1 → l ≡ pos 0
span_starts l r w e h k = starts l r h (rw e at k)
  where
    starts : (l r : ℤ) → pos 0 ≤ℤ l → r ≤ℤ pos 0 +ℤ (r -ℤ l +ℤ pos 1) -ℤ pos 1 → l ≡ pos 0
    starts l r h k = omega int_laws

end_of : (l r w : ℤ) → w ≡ r -ℤ l +ℤ pos 1 → l +ℤ w -ℤ pos 1 ≡ r
end_of l r w e = rw e (omega int_laws)

All-map {ℓ κ} :
    {A : Type ℓ} {P Q : A → Type κ} (xs : List A) → ((x : A) → P x → Q x) → All P xs → All Q xs
All-map [] f h = tt
All-map (x ∷ xs) f h = (f x h.0, All-map xs f h.1)

-- What Qt documents of `united`, and of the edges of a rectangle.
module _ (q : Rects) (united : q.Rect → q.Rect → q.Rect)
    (united_null : (r : q.Rect) → united (q.rect (pos 0) (pos 0) (pos 0) (pos 0)) r ≡ r)
    (united_edges : (a b : q.Rect)
      → HasSize q united a
      → HasSize q united b
      → (q.left (united a b) ≡ min_ℤ (q.left a) (q.left b))
        × (q.right (united a b) ≡ max_ℤ (q.right a) (q.right b))
        × (q.top (united a b) ≡ min_ℤ (q.top a) (q.top b))
        × (q.bottom (united a b) ≡ max_ℤ (q.bottom a) (q.bottom b)))
    (width_edges : (r : q.Rect) → q.width r ≡ q.right r -ℤ q.left r +ℤ pos 1)
    (height_edges : (r : q.Rect) → q.height r ≡ q.bottom r -ℤ q.top r +ℤ pos 1) where
  open q use {
    Rect, rect, left, top, right, bottom, width, height, left-rect, top-rect, right-rect,
    bottom-rect,
  }

  abbrev In : Rect → Rect → Type 0
  In s r = Within q united s r

  In-trans : (r s t : Rect) → In s r → In t s → In t r
  In-trans r s t (a, b, c, d) (e, f, g, h) = (omega arith, omega arith, omega arith, omega arith)

  In-united :
      (a b : Rect) → HasSize q united a → HasSize q united b → In (united a b) a × In (united a b) b
  In-united a b ha hb =
      let (l, r, t, m) = united_edges a b ha hb in
      rw (l, r, t, m)
        (
          (
            (min-below (left a) (left b)).0,
            (max-above (right a) (right b)).0,
            (min-below (top a) (top b)).0,
            (max-above (bottom a) (bottom b)).0,
          ),
          (
            (min-below (left a) (left b)).1,
            (max-above (right a) (right b)).1,
            (min-below (top a) (top b)).1,
            (max-above (bottom a) (bottom b)).1,
          ),
        )

  united-In :
      (a b v : Rect) → HasSize q united a → HasSize q united b → In v a → In v b → In v (united a b)
  united-In a b v ha hb (l, r, t, m) (l', r', t', m') =
      let (e, f, g, h) = united_edges a b ha hb in
      rw (e, f, g, h)
        (
          min-greatest (left a) (left b) (left v) l l',
          max-least (right a) (right b) (right v) r r',
          min-greatest (top a) (top b) (top v) t t',
          max-least (bottom a) (bottom b) (bottom v) m m',
        )

  united-HasSize :
      (a b : Rect) → HasSize q united a → HasSize q united b → HasSize q united (united a b)
  united-HasSize a b ha hb =
      let ((l, r, t, m), _) = In-united a b ha hb in (omega (arith, ha.0), omega (arith, ha.1))

  -- The union holds every screen, and nothing smaller does.
  unite_all-holds :
      (screens : List Rect) (rt : Rect)
      → HasSize q united rt
      → All (HasSize q united) screens
      → In (unite_all q united screens rt) rt × All (In (unite_all q united screens rt)) screens
  unfolding unite_all
  unite_all-holds [] rt h hs = ((omega arith, omega arith, omega arith, omega arith), tt)
  unite_all-holds (s ∷ screens) rt h hs =
      let (here, rest) = unite_all-holds screens (united rt s) (united-HasSize rt s h hs.0) hs.1 in
      let (a, b) = In-united rt s h hs.0 in
      let u = unite_all q united screens (united rt s) in
      (In-trans rt (united rt s) u a here, (In-trans s (united rt s) u b here, rest))

  unite_all-least :
      (screens : List Rect) (rt v : Rect)
      → HasSize q united rt
      → All (HasSize q united) screens
      → In v rt
      → All (In v) screens
      → In v (unite_all q united screens rt)
  unfolding unite_all
  unite_all-least [] rt v h hs i is = i
  unite_all-least (s ∷ screens) rt v h hs i is =
      unite_all-least screens (united rt s) v (united-HasSize rt s h hs.0) hs.1
        (united-In rt s v h hs.0 i is.0) is.1

  -- A picture of the size of `u`.
  abbrev frame : Rect → Rect
  frame u = rect (pos 0) (pos 0) (width u) (height u)

  frame-In : (u : Rect) → left u ≡ pos 0 → top u ≡ pos 0 → In (frame u) u
  frame-In u l t =
      let w = width u in
      let h = height u in
      (
        rw (left-rect (pos 0) (pos 0) w h) (at_least_zero (left u) l),
        rw (right-rect (pos 0) (pos 0) w h) (span_fits (left u) (right u) w (width_edges u) l),
        rw (top-rect (pos 0) (pos 0) w h) (at_least_zero (top u) t),
        rw (bottom-rect (pos 0) (pos 0) w h) (span_fits (top u) (bottom u) h (height_edges u) t),
      )

  In-frame : (u : Rect) → In (frame u) u → (left u ≡ pos 0) × (top u ≡ pos 0)
  In-frame u (l, r, t, b) =
      let w = width u in
      let h = height u in
      (
        span_starts (left u) (right u) w (width_edges u) (rw (left-rect (pos 0) (pos 0) w h) at l)
            (rw (right-rect (pos 0) (pos 0) w h) at r),
        span_starts (top u) (bottom u) h (height_edges u) (rw (top-rect (pos 0) (pos 0) w h) at t)
            (rw (bottom-rect (pos 0) (pos 0) w h) at b),
      )

  -- Where a screen is painted is where it lies.
  painted-In : (v r : Rect) → In v r ↔ In v (rect (left r) (top r) (width r) (height r))
  painted-In v r =
      let e =
        right-rect (left r) (top r) (width r) (height r)
        ∙ end_of (left r) (right r) (width r) (width_edges r) in
      let f =
        bottom-rect (left r) (top r) (width r) (height r)
        ∙ end_of (top r) (bottom r) (height r) (height_edges r) in
      let g = left-rect (left r) (top r) (width r) (height r) in
      let h = top-rect (left r) (top r) (width r) (height r) in
      (λ i. rw (e, f, g, h) i, λ i. rw (e, f, g, h) at i)

  paint_screens-In :
      (v : Rect) (screens : List Rect)
      → All (In v) screens ↔ All (In v) (paint_screens q united screens)
  unfolding paint_screens
  paint_screens-In v [] = (λ i. i, λ i. i)
  paint_screens-In v (s ∷ screens) =
      let (to, from) = painted-In v s in
      let (all_to, all_from) = paint_screens-In v screens in
      (λ (i, is). (to i, all_to is), λ (i, is). (from i, all_from is))

  -- The picture of the desktop holds every screen whole exactly if the smallest rectangle around all
  -- screens begins at the origin: it has the size of that rectangle, but its screens are painted
  -- where they lie, so that those to the left of the first screen or above it are cut off.
  pub desktop_whole_iff :
      (screen : Rect) (screens : List Rect)
      → HasSize q united screen
      → All (HasSize q united) screens
      → let around = unite_all q united screens screen in
        let picture = merge_grab_window q united (screen ∷ screens) in
        ((left around ≡ pos 0) × (top around ≡ pos 0))
        ↔ All
            (Within q united (rect (pos 0) (pos 0) picture.pix_width picture.pix_height))
            picture.painted
  unfolding merge_grab_window unite_all
  desktop_whole_iff screen screens h hs =
      let around = unite_all q united screens screen in
      let v = frame around in
      let (first, others) = unite_all-holds screens screen h hs in
      let (to, from) = paint_screens-In v (screen ∷ screens) in
      rw (united_null screen) (
        λ (l, t). to (
          In-trans screen around v first (frame-In around l t),
          All-map screens (λ s i. In-trans s around v i (frame-In around l t)) others,
        ),
        λ is.
            let (i, rest) = from is in
            In-frame around (unite_all-least screens screen v h hs i rest),
      )
