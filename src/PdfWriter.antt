-- ===== src/PdfWriter.antt =====
-- The export of images to a PDF file: cpp/qt/pdfwriter.
pub mod Pages
pub mod Export
pub mod Result
pub mod Examples
use code_study_example.Shared.{
  ◌>>=◌, ℕ, zero, suc, ◌+◌, ◌≡◌, ltb, ◌==◌, List, [], ◌∷◌, ◌++◌, Bool, true, false, Option, none,
  some, if◌then◌else◌,
}

-- A page is the images that are drawn on it. `exporting` is the file that a `pdfwriter` writes.
module _ (Image : Type 0) where
  pub record Writer : Type 0 where
    pub pdf_file : ℕ
    pub is_open : Bool
    pub pages : List (List Image)
    pub append_count : ℕ

  -- `pdf_util`, with the temporary files and the result on disk. The name of a temporary file is
  -- made of the number of the file, which stands for it.
  pub record PdfUtil : Type 0 where
    pub file_index : ℕ
    pub inputs : List ℕ
    pub files : ℕ → List (List Image)
    pub output : Option (List (List Image))

  -- `init`, on a disk with these files.
  unfoldable pub init : (ℕ → List (List Image)) → PdfUtil
  init disk = record { file_index = 0; inputs = []; files = disk; output = none }

  unfoldable pub new_pathname : PdfUtil → ℕ × PdfUtil
  new_pathname u = (
    suc u.file_index,
    record u { file_index = suc u.file_index; inputs = u.inputs ++ suc u.file_index ∷ [] },
  )

  -- The constructor. `opens` is whether a file can be opened; a QPdfWriter begins with one page.
  unfoldable pub new_writer : (ℕ → Bool) → PdfUtil → Writer × PdfUtil
  new_writer opens u =
      let (name, u') = new_pathname u in
      (record { pdf_file = name; is_open = opens name; pages = [] ∷ []; append_count = 0 }, u')

  -- `drawImage` on the current page, which is the last.
  unfoldable pub draw_image : Image → List (List Image) → List (List Image)
  draw_image img [] = []
  draw_image img (p ∷ []) = (p ++ img ∷ []) ∷ []
  draw_image img (p ∷ r ∷ ps) = p ∷ draw_image img (r ∷ ps)

  unfoldable pub append_page : Image → Writer → Writer
  append_page img w =
      if w.is_open
      then (let count = suc w.append_count in
          let pages = if ltb 1 count then w.pages ++ [] ∷ [] else w.pages in
          record w { append_count = count; pages = draw_image img pages })
      else w

  -- A file on disk is replaced.
  abbrev pub stored : ℕ → List (List Image) → (ℕ → List (List Image)) → ℕ → List (List Image)
  stored n pages files m = if m == n then pages else files m

  -- The destructor. Where the file could not be opened it deletes pointers that were never set
  -- (`none`).
  unfoldable pub delete_writer : Writer → PdfUtil → Option PdfUtil
  delete_writer w u =
      if w.is_open then some (record u { files = stored w.pdf_file w.pages u.files }) else none

  -- The pages of the files with these numbers, one file after the other.
  pub merged : (ℕ → List (List Image)) → List ℕ → List (List Image)
  merged files [] = []
  merged files (n ∷ ns) = files n ++ merged files ns

  abbrev pub contents_of : (ℕ → List (List Image)) → List ℕ → List (List (List Image))
  contents_of files [] = []
  contents_of files (n ∷ ns) = files n ∷ contents_of files ns

  -- The program that makes one file of several.
  abbrev pub Qpdf : Type 0
  Qpdf = List (List (List Image)) → List (List Image)

  abbrev remove_all : List ℕ → (ℕ → List (List Image)) → ℕ → List (List Image)
  remove_all [] files = files
  remove_all (n ∷ ns) files = remove_all ns (stored n [] files)

  -- The branches of `merge_pdf`; `inputs.first()` of an empty list is `none`.
  unfoldable pub merge_inputs : Qpdf → List ℕ → PdfUtil → Option PdfUtil
  merge_inputs qpdf [] u = none
  merge_inputs qpdf (n ∷ []) u =
      some (record u { output = some (u.files n); files = remove_all u.inputs u.files })
  merge_inputs qpdf (n ∷ m ∷ ns) u = some (record u {
    output = some (qpdf (contents_of u.files (n ∷ m ∷ ns)));
    files = remove_all u.inputs u.files;
  })

  unfoldable pub merge_pdf : Qpdf → PdfUtil → Option PdfUtil
  merge_pdf qpdf u = merge_inputs qpdf u.inputs u

  -- The writer is deleted and the image goes to a new one.
  unfoldable pub next_file : (ℕ → Bool) → Image → Writer × PdfUtil → Option (Writer × PdfUtil)
  next_file opens img (w, u) = do
    u' ← delete_writer w u
    some (append_page img (new_writer opens u').0, (new_writer opens u').1)

  module _ {Name : Type 0} (is_png : Name → Bool) (load : Name → Image) where
    -- One turn of the loop of `main`.
    unfoldable pub export_image : (ℕ → Bool) → Name → Writer × PdfUtil → Option (Writer × PdfUtil)
    export_image opens name (w, u) =
        if is_png name
        then (if w.append_count == 10
            then next_file opens (load name) (w, u)
            else some (append_page (load name) w, u))
        else some (w, u)

    pub export_images : (ℕ → Bool) → List Name → Writer × PdfUtil → Option (Writer × PdfUtil)
    export_images opens [] s = some s
    export_images opens (name ∷ names) s = do
      s' ← export_image opens name s
      export_images opens names s'

    -- `main`.
    unfoldable pub export_pdf :
        Qpdf → (ℕ → Bool) → (ℕ → List (List Image)) → List Name → Option PdfUtil
    export_pdf qpdf opens disk names = do
      (w, u) ← export_images opens names (new_writer opens (init disk))
      u' ← delete_writer w u
      merge_pdf qpdf u'
