-- ===== src/Screenshot/Painter/Lines.antt =====
-- The lines of a text that cpp/qt/ScreenShot/drawcontent.cpp paints.
use code_study_example.Screenshot.Painter.{
  Floats, QLines, first_line, split, draw_lines, draw_text, painted_text, draw_to_painter,
}
use code_study_example.Screenshot.Rect.{Rects}
use code_study_example.Screenshot.Window.{Text, item_text}
use code_study_example.Shared.{
  ℕ, ◌==◌, ◌≡◌, ◌++◌, List, [], ◌∷◌, map, All, refl, sym, ap, ◌∙◌, Bool-cases, inl, inr, ==_iff,
  arith, ◌≢◌,
}
use code_study_example.Shared.Int.{ℤ, pos, ◌+ℤ◌, ◌≤ℤ◌, int_laws}

-- The lines, with line breaks between them.
abbrev pub joined : List Text → Text
joined [] = []
joined (l ∷ []) = l
joined (l ∷ m ∷ ls) = l ++ (10 ∷ joined (m ∷ ls))

joined-first_line : (c : ℕ) (ls : List Text) → joined (first_line c ls) ≡ c ∷ joined ls
joined-first_line c [] = refl
joined-first_line c (l ∷ []) = refl
joined-first_line c (l ∷ m ∷ ls) = refl

-- A list of lines is never empty.
joined-break :
    (ls : List Text) (text : Text) → joined ls ≡ text → ls ≢ [] → joined ([] ∷ ls) ≡ 10 ∷ text
joined-break [] text e n = absurd (n refl)
joined-break (l ∷ ls) text e n = ap (λ (t : Text). 10 ∷ t) e

split-not-nil : (text : Text) → split text ≢ []
unfolding split
split-not-nil [] e = ground (arith, e)
split-not-nil (c ∷ cs) e = elim (Bool-cases (c == 10)) [
  | inl b ↦ cc (rw b at e)
  | inr b ↦ first_line-not-nil c (split cs) (rw b at e)
]
  where
    first_line-not-nil : (c : ℕ) (ls : List Text) → first_line c ls ≡ [] → ⊥
    first_line-not-nil c [] e = cc e
    first_line-not-nil c (l ∷ ls) e = cc e

joined-split : (text : Text) → joined (split text) ≡ text
unfolding split
joined-split [] = refl
joined-split (c ∷ cs) = elim (Bool-cases (c == 10)) [
  | inl b ↦ rw b (
      joined-break (split cs) cs (joined-split cs) (split-not-nil cs)
      ∙ ap (λ (d : ℕ). d ∷ cs) (sym ((==_iff c 10).0 b)))
  | inr b ↦ rw b (joined-first_line c (split cs) ∙ ap (λ (t : Text). c ∷ t) (joined-split cs))
]

module _ (q : Rects) where
  open q use {Rect, top, height}

  -- Every rectangle begins at least 12 below the end of those before it.
  abbrev pub AllApart : List (Rect × Text) → Type 0
  AllApart [] = Unit {0}
  AllApart (d ∷ ds) = All (λ e. top d.0 +ℤ height d.0 +ℤ pos 12 ≤ℤ top e.0) ds × AllApart ds

module _ (q : Rects) (f : Floats) (g : QLines f) (bounding : ℤ → ℤ → ℤ → Text → q.Rect)
    (top-bounding : (x y w : ℤ) (line : Text) → q.top (bounding x y w line) ≡ y)
    (height_nonneg : (x y w : ℤ) (line : Text) → pos 0 ≤ℤ q.height (bounding x y w line)) where
  open q use {Rect, top, height}

  below :
      (x y w v : ℤ) (lines : List Text)
      → v ≤ℤ y
      → All (λ d. v ≤ℤ top d.0) (draw_lines q f g bounding x y w lines)
  unfolding draw_lines
  below x y w v [] h = tt
  below x y w v (l ∷ ls) h = (
    rw (top-bounding x y w l) h,
    below x (y +ℤ height (bounding x y w l) +ℤ pos 12) w v ls
        (further v y (height (bounding x y w l)) h (height_nonneg x y w l)),
  )
    where
      further : (v y h : ℤ) → v ≤ℤ y → pos 0 ≤ℤ h → v ≤ℤ y +ℤ h +ℤ pos 12
      further v y h a b = omega int_laws

  draw_lines-AllApart :
      (x y w : ℤ) (lines : List Text) → AllApart q (draw_lines q f g bounding x y w lines)
  unfolding draw_lines
  draw_lines-AllApart x y w [] = tt
  draw_lines-AllApart x y w (l ∷ ls) =
      let b = bounding x y w l in
      let y' = y +ℤ height b +ℤ pos 12 in
      (rw (top-bounding x y w l) (below x y' w y' ls (omega arith)), draw_lines-AllApart x y' w ls)

  texts-draw_lines :
      (x y w : ℤ) (lines : List Text)
      → map (λ d. d.1) (draw_lines q f g bounding x y w lines) ≡ lines
  unfolding draw_lines
  texts-draw_lines x y w [] = refl
  texts-draw_lines x y w (l ∷ ls) =
      ap (λ (ms : List Text). l ∷ ms)
        (texts-draw_lines x (y +ℤ height (bounding x y w l) +ℤ pos 12) w ls)

  -- A text is painted line by line, and nothing of it is lost but its line breaks; each line begins
  -- at least 12 below the end of every line before it, so that no two overlap, whatever their
  -- heights are.
  pub text_lines_apart :
      (text : Text) (rt : Rect)
      → let drawn = draw_text q f g bounding text rt in
        (joined (map (λ d. d.1) drawn) ≡ text)
        × AllApart q drawn
        × (draw_to_painter q f g bounding (item_text text rt)
            ≡ map (λ d. painted_text d.0 d.1) drawn)
  unfolding draw_text draw_to_painter
  text_lines_apart text rt = (
    ap joined (texts-draw_lines (q.left rt) (top rt) (q.width rt) (split text)) ∙ joined-split text,
    draw_lines-AllApart (q.left rt) (top rt) (q.width rt) (split text),
    refl,
  )
