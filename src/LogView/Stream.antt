-- ===== src/LogView/Stream.antt =====
-- What stands in the log file of cpp/ftxui/demo.cpp.
use code_study_example.LogView.{LogFileStream, insert, write_to_file}
use code_study_example.Shared.{
  ℕ, ◌≡◌, refl, sym, ap, ◌∙◌, List, [], ◌∷◌, ◌++◌, Bool, true, false, append_assoc, append-nil,
}

-- Values that are inserted in turn, each with whether logs.txt could be opened then.
abbrev pub insert_all : List (Bool × List ℕ) → LogFileStream → LogFileStream
insert_all [] s = s
insert_all ((is_open, value) ∷ vs) s = insert_all vs (insert is_open value s)

abbrev pub texts : List (Bool × List ℕ) → List ℕ
texts [] = []
texts ((_, value) ∷ vs) = value ++ texts vs

insert-text :
    (is_open : Bool) (value : List ℕ) (s : LogFileStream)
    → (insert is_open value s).file ++ (insert is_open value s).oss ≡ (s.file ++ s.oss) ++ value
unfolding insert write_to_file
insert-text true value s = append-nil _ ∙ sym (append_assoc s.file s.oss value)
insert-text false value s = sym (append_assoc s.file s.oss value)

-- Nothing that is inserted is lost or written twice, and the order is kept, also where the file
-- cannot be opened at times: file and buffer together hold what they held, then the values.
pub all_text_kept :
    (vs : List (Bool × List ℕ)) (s : LogFileStream)
    → (insert_all vs s).file ++ (insert_all vs s).oss ≡ (s.file ++ s.oss) ++ texts vs
all_text_kept [] s = sym (append-nil (s.file ++ s.oss))
all_text_kept ((is_open, value) ∷ vs) s =
    all_text_kept vs (insert is_open value s)
    ∙ ap (λ (x : List ℕ). x ++ texts vs) (insert-text is_open value s)
    ∙ append_assoc (s.file ++ s.oss) value (texts vs)

-- As soon as the file can be opened again, one insertion brings it up to date: it then holds what
-- the file and the buffer held, then all values, and the buffer is empty.
pub written_once_open :
    (vs : List (Bool × List ℕ)) (value : List ℕ) (s : LogFileStream)
    → ((insert true value (insert_all vs s)).file ≡ ((s.file ++ s.oss) ++ texts vs) ++ value)
      × ((insert true value (insert_all vs s)).oss ≡ [])
unfolding insert write_to_file
written_once_open vs value s = (
  sym (append_assoc (insert_all vs s).file (insert_all vs s).oss value)
      ∙ ap (λ (x : List ℕ). x ++ value) (all_text_kept vs s),
  refl,
)
