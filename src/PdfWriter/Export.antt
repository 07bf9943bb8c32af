-- ===== src/PdfWriter/Export.antt =====
-- The whole export of cpp/qt/pdfwriter/main.cpp.
use code_study_example.PdfWriter.{
  Writer, PdfUtil, init, append_page, new_writer, new_pathname, delete_writer, stored, merged,
  next_file,
}
use code_study_example.PdfWriter.Pages.{one_each, one_each-append, Drawn, append-Drawn, first-Drawn}
use code_study_example.Shared.{
  ℕ, suc, ◌<◌, ◌≡◌, refl, sym, ap, ◌∙◌, ◌==◌, List, [], ◌∷◌, ◌++◌, Bool, true, false, Option, some,
  arith, All, append_assoc, append-nil,
}

module _ (Image : Type 0) where
  -- The files that are closed, and the images in them; `u` is numbered up to the open file.
  pub record Closed (done : List ℕ) (imgs : List Image) (w : Writer Image) (u : PdfUtil Image)
      : Type 0 where
    pub current : w.pdf_file ≡ u.file_index
    pub listed : u.inputs ≡ done ++ w.pdf_file ∷ []
    pub earlier : All (λ n. n < u.file_index) done
    pub contents : merged Image u.files done ≡ one_each Image imgs

  not_stored :
      (k n : ℕ) (pages : List (List Image)) (files : ℕ → List (List Image))
      → n < k
      → stored Image k pages files n ≡ files n
  not_stored k n pages files h = let other : (n == k) ≡ false = ground arith in rw other refl

  pub just_stored :
      (k : ℕ) (pages : List (List Image)) (files : ℕ → List (List Image))
      → stored Image k pages files k ≡ pages
  just_stored k pages files = let same : (k == k) ≡ true = ground arith in rw same refl

  merged-stored :
      (k : ℕ) (pages : List (List Image)) (files : ℕ → List (List Image)) (ns : List ℕ)
      → All (λ n. n < k) ns
      → merged Image (stored Image k pages files) ns ≡ merged Image files ns
  unfolding merged
  merged-stored k pages files [] h = refl
  merged-stored k pages files (n ∷ ns) h =
      ap (λ (x : List (List Image)). x ++ merged Image (stored Image k pages files) ns)
        (not_stored k n pages files h.0)
      ∙ ap (λ (x : List (List Image)). files n ++ x) (merged-stored k pages files ns h.1)

  pub merged-last :
      (files : ℕ → List (List Image)) (ns : List ℕ) (k : ℕ)
      → merged Image files (ns ++ k ∷ []) ≡ merged Image files ns ++ files k
  unfolding merged
  merged-last files [] k = append-nil (files k)
  merged-last files (n ∷ ns) k =
      ap (λ (x : List (List Image)). files n ++ x) (merged-last files ns k)
      ∙ sym (append_assoc (files n) (merged Image files ns) (files k))

  All-widen : (k : ℕ) (ns : List ℕ) → All (λ n. n < k) ns → All (λ n. n < suc k) ns
  All-widen k [] h = h
  All-widen k (n ∷ ns) h = (omega (arith, h.0), All-widen k ns h.1)

  All-last : (k : ℕ) (ns : List ℕ) → All (λ n. n < k) ns → All (λ n. n < suc k) (ns ++ k ∷ [])
  All-last k [] h = (omega arith, tt)
  All-last k (n ∷ ns) h = (omega (arith, h.0), All-last k ns h.1)

  -- The disk after the open file is closed.
  abbrev pub disk_after : Writer Image → PdfUtil Image → PdfUtil Image
  disk_after w u = record u { files = stored Image w.pdf_file w.pages u.files }

  pub close_lem :
      (w : Writer Image) (u : PdfUtil Image)
      → w.is_open ≡ true
      → delete_writer Image w u ≡ some (disk_after w u)
  unfolding delete_writer
  close_lem w u o = rw o refl

  pub contents_after :
      (done : List ℕ) (imgs cur : List Image) (w : Writer Image) (u : PdfUtil Image)
      → Closed done imgs w u
      → Drawn Image cur w
      → merged Image (disk_after w u).files (done ++ w.pdf_file ∷ []) ≡ one_each Image (imgs ++ cur)
  contents_after done imgs cur w u c d =
      merged-last (disk_after w u).files done w.pdf_file
      ∙ ap (λ (x : List (List Image)). x ++ stored Image w.pdf_file w.pages u.files w.pdf_file)
          (merged-stored w.pdf_file w.pages u.files done (rw c.current c.earlier) ∙ c.contents)
      ∙ ap (λ (x : List (List Image)). one_each Image imgs ++ x)
          (just_stored w.pdf_file w.pages u.files ∙ d.on_pages)
      ∙ sym (one_each-append Image imgs cur)

  new-Closed :
      (opens : ℕ → Bool) (done : List ℕ) (imgs cur : List Image) (w : Writer Image)
      (u : PdfUtil Image)
      → Closed done imgs w u
      → Drawn Image cur w
      → Closed
          (done ++ w.pdf_file ∷ [])
          (imgs ++ cur)
          (new_writer Image opens (disk_after w u)).0
          (new_writer Image opens (disk_after w u)).1
  unfolding new_writer new_pathname
  new-Closed opens done imgs cur w u c d = record {
    current = refl;
    listed = ap (λ (x : List ℕ). x ++ suc u.file_index ∷ []) c.listed;
    earlier = rw c.current (All-last u.file_index done c.earlier);
    contents = contents_after done imgs cur w u c d;
  }

  pub data Exported (imgs : List Image) (w : Writer Image) (u : PdfUtil Image) : Type 0 where
    nothing_yet :
        imgs ≡ []
        → w.is_open ≡ true
        → w.append_count ≡ 0
        → w.pages ≡ [] ∷ []
        → Closed [] [] w u
        → Exported imgs w u
    some_pages :
        (done : List ℕ) (earlier cur : List Image)
        → imgs ≡ earlier ++ cur
        → Drawn Image cur w
        → Closed done earlier w u
        → Exported imgs w u

  pub start-Exported :
      (opens : ℕ → Bool) (disk : ℕ → List (List Image))
      → ((n : ℕ) → opens n ≡ true)
      → Exported []
          (new_writer Image opens (init Image disk)).0
          (new_writer Image opens (init Image disk)).1
  unfolding new_writer new_pathname init merged
  start-Exported opens disk o =
      nothing_yet refl (o 1) refl refl
        (record { current = refl; listed = refl; earlier = tt; contents = refl })

  append_page-file :
      (img : Image) (w : Writer Image) → (append_page Image img w).pdf_file ≡ w.pdf_file
  unfolding append_page
  append_page-file img w = ground arith

  append_page-Closed :
      (done : List ℕ) (imgs : List Image) (img : Image) (w : Writer Image) (u : PdfUtil Image)
      → Closed done imgs w u
      → Closed done imgs (append_page Image img w) u
  append_page-Closed done imgs img w u c = record {
    current = append_page-file img w ∙ c.current;
    listed = c.listed ∙ ap (λ n. done ++ n ∷ []) (sym (append_page-file img w));
    earlier = c.earlier;
    contents = c.contents;
  }

  pub append-Exported :
      (imgs : List Image) (img : Image) (w : Writer Image) (u : PdfUtil Image)
      → Exported imgs w u
      → Exported (imgs ++ img ∷ []) (append_page Image img w) u
  append-Exported imgs img w u (nothing_yet e o n p c) =
      some_pages [] [] (img ∷ []) (ap (λ (x : List Image). x ++ img ∷ []) e)
        (first-Drawn Image img w o n p) (append_page-Closed [] [] img w u c)
  append-Exported imgs img w u (some_pages done earlier cur e d c) =
      some_pages done earlier (cur ++ img ∷ [])
        (ap (λ (x : List Image). x ++ img ∷ []) e ∙ append_assoc earlier cur (img ∷ []))
        (append-Drawn Image cur img w d) (append_page-Closed done earlier img w u c)

  new_writer-blank :
      (opens : ℕ → Bool) (u : PdfUtil Image)
      → ((n : ℕ) → opens n ≡ true)
      → ((new_writer Image opens u).0.is_open ≡ true)
        × ((new_writer Image opens u).0.append_count ≡ 0)
        × ((new_writer Image opens u).0.pages ≡ [] ∷ [])
  unfolding new_writer new_pathname
  new_writer-blank opens u o = (o (suc u.file_index), refl, refl)

  -- A run from one state of the loop to the next.
  abbrev pub Turned : Option (Writer Image × PdfUtil Image) → List Image → Type 0
  Turned result imgs =
      (w : Writer Image) × (u : PdfUtil Image) × (result ≡ some (w, u)) × Exported imgs w u

  pub next_file-Turned :
      (opens : ℕ → Bool) (imgs : List Image) (img : Image) (w : Writer Image) (u : PdfUtil Image)
      → ((n : ℕ) → opens n ≡ true)
      → w.append_count ≡ 10
      → Exported imgs w u
      → Turned (next_file Image opens img (w, u)) (imgs ++ img ∷ [])
  unfolding next_file
  next_file-Turned opens imgs img w u o ten (nothing_yet e op n p c) = absurd (ground arith)
  next_file-Turned opens imgs img w u o ten (some_pages done earlier cur e d c) =
      let (a, b, f) = new_writer-blank opens (disk_after w u) o in
      (
        append_page Image img (new_writer Image opens (disk_after w u)).0,
        (new_writer Image opens (disk_after w u)).1,
        rw (close_lem w u d.opened) refl,
        some_pages (done ++ w.pdf_file ∷ []) (earlier ++ cur) (img ∷ [])
            (ap (λ (x : List Image). x ++ img ∷ []) e) (first-Drawn Image img _ a b f)
            (append_page-Closed _ _ img _ _ (new-Closed opens done earlier cur w u c d)),
      )
