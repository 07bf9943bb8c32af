-- ===== src/PdfWriter/Pages.antt =====
-- The pages of one file of cpp/qt/pdfwriter.
use code_study_example.PdfWriter.{Writer, draw_image, append_page}
use code_study_example.Shared.{
  suc, ◌≤◌, ◌≡◌, refl, sym, ap, ◌∙◌, ltb, List, [], ◌∷◌, ◌++◌, true, length, length-append, arith,
  if◌then◌else◌, lt→ltb,
}

module _ (Image : Type 0) where
  -- One page for each image.
  abbrev pub one_each : List Image → List (List Image)
  one_each [] = []
  one_each (img ∷ imgs) = (img ∷ []) ∷ one_each imgs

  pub one_each-append : (xs ys : List Image) → one_each (xs ++ ys) ≡ one_each xs ++ one_each ys
  one_each-append [] ys = refl
  one_each-append (x ∷ xs) ys =
      ap (λ (ps : List (List Image)). (x ∷ []) ∷ ps) (one_each-append xs ys)

  -- The writer has drawn these images, and at least one.
  pub record Drawn (imgs : List Image) (w : Writer Image) : Type 0 where
    pub opened : w.is_open ≡ true
    pub counted : w.append_count ≡ length imgs
    pub some_drawn : 1 ≤ length imgs
    pub on_pages : w.pages ≡ one_each imgs

  draw-blank :
      (img : Image) (ps : List (List Image))
      → draw_image Image img (ps ++ [] ∷ []) ≡ ps ++ (img ∷ []) ∷ []
  unfolding draw_image
  draw-blank img [] = refl
  draw-blank img (p ∷ []) = refl
  draw-blank img (p ∷ r ∷ ps) = ap (λ (x : List (List Image)). p ∷ x) (draw-blank img (r ∷ ps))

  appended :
      (img : Image) (w : Writer Image)
      → w.is_open ≡ true
      → append_page Image img w ≡ record w {
        append_count = suc w.append_count;
        pages =
            draw_image Image img
              (if ltb 1 (suc w.append_count) then w.pages ++ [] ∷ [] else w.pages);
      }
  unfolding append_page
  appended img w o = rw o refl

  pub append-Drawn :
      (imgs : List Image) (img : Image) (w : Writer Image)
      → Drawn imgs w
      → Drawn (imgs ++ img ∷ []) (append_page Image img w)
  append-Drawn imgs img w d =
      let later : ltb 1 (suc w.append_count) ≡ true =
        lt→ltb 1 (suc w.append_count) (omega (arith, d.counted, d.some_drawn)) in
      rw (appended img w d.opened, later, draw-blank img w.pages)
        (record {
          opened = d.opened;
          counted = omega (arith, d.counted, length-append imgs (img ∷ []));
          some_drawn = omega (arith, length-append imgs (img ∷ []));
          on_pages =
              ap (λ (ps : List (List Image)). ps ++ (img ∷ []) ∷ []) d.on_pages
              ∙ sym (one_each-append imgs (img ∷ []));
        })

  -- The first image of a file.
  pub first-Drawn :
      (img : Image) (w : Writer Image)
      → w.is_open ≡ true
      → w.append_count ≡ 0
      → w.pages ≡ [] ∷ []
      → Drawn (img ∷ []) (append_page Image img w)
  unfolding draw_image
  first-Drawn img w o c p = rw (appended img w o) (record {
    opened = o;
    counted = rw c refl;
    some_drawn = omega arith;
    on_pages = rw (c, p) refl;
  })
