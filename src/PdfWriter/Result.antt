-- ===== src/PdfWriter/Result.antt =====
-- The result of cpp/qt/pdfwriter/main.cpp.
use code_study_example.PdfWriter.{merged, Qpdf, contents_of}
use code_study_example.PdfWriter.Pages.{one_each}
use code_study_example.Shared.{ℕ, ◌≡◌, List, [], ◌∷◌, Bool, if◌then◌else◌}

module _ (Image : Type 0) where
  -- What the documentation of qpdf says: the pages of the inputs in the order of the arguments.
  abbrev pub Merges : Qpdf Image → Type 0
  Merges qpdf =
      (files : ℕ → List (List Image)) (ns : List ℕ)
      → qpdf (contents_of Image files ns) ≡ merged Image files ns

  -- What the pages of the result should be: one for each image, and one blank page for none.
  abbrev pub pages_of : List Image → List (List Image)
  pages_of [] = [] ∷ []
  pages_of (img ∷ imgs) = one_each Image (img ∷ imgs)

  module _ {Name : Type 0} (is_png : Name → Bool) (load : Name → Image) where
    -- The images of the names that end in png.
    abbrev pub pngs : List Name → List Image
    pngs [] = []
    pngs (name ∷ names) = if is_png name then load name ∷ pngs names else pngs names
