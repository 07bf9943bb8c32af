-- ===== src/LogView.antt =====
-- The log view of cpp/ftxui/demo.cpp: which lines are shown, and the log file.
pub mod Window
pub mod Stream
pub mod App
pub mod Follows
pub mod Examples
use code_study_example.Shared.{
  ℕ, ◌+◌, ◌-◌, leb, List, [], ◌∷◌, ◌++◌, ◌&&◌, Bool, true, false, Option, none, some, if◌then◌else◌,
  length, take, drop,
}
use code_study_example.Shared.Int.{ℤ, pos, negsuc, ◌+ℤ◌, ◌-ℤ◌, ltb_ℤ, pos_part}

abbrev pub log_height : ℕ
log_height = 18

abbrev pub max_log_lines : ℕ
max_log_lines = log_height - 3

abbrev pub max_int : ℤ → ℤ → ℤ
max_int a b = if ltb_ℤ a b then b else a

abbrev pub min_int : ℤ → ℤ → ℤ
min_int a b = if ltb_ℤ b a then b else a

-- The first line of the window that ends with line `end`.
abbrev pub window_start : ℤ → ℤ
window_start end = max_int (pos 0) (end -ℤ pos max_log_lines +ℤ pos 1)

-- `start` and `end` of `updateShowIndex`. `scaled` is the slider's value times the argument,
-- divided by 100.0 and cut to an int.
unfoldable pub update_show_index : (ℕ → ℤ → ℤ) → Bool → ℕ → ℕ → ℤ × ℤ
update_show_index scaled log_show_real log_size slider_value =
    if leb log_size max_log_lines
    then (pos 0, pos log_size -ℤ pos 1)
    else (if log_show_real
        then (window_start (pos log_size -ℤ pos 1), pos log_size -ℤ pos 1)
        else (let end =
              min_int (scaled slider_value (pos log_size -ℤ pos 1)) (pos log_size -ℤ pos 1) in
            (window_start end, end)))

module _ {A : Type 0} where
  -- The elements from `begin() + start` up to `begin() + stop`; `none` where that is no range of
  -- the deque.
  unfoldable pub range : ℤ → ℤ → List A → Option (List A)
  range (pos start) (pos stop) xs =
      if leb start stop && leb stop (length xs)
      then some (take (stop - start) (drop start xs))
      else none
  range _ _ xs = none

  -- The lines that the renderer takes out of a copy of the log.
  unfoldable pub visible_logs : (ℕ → ℤ → ℤ) → Bool → ℕ → List A → Option (List A)
  visible_logs scaled log_show_real slider_value logs =
      let (start, end) = update_show_index scaled log_show_real (length logs) slider_value in
      range start (end +ℤ pos 1) logs

-- `log_file_stream`: `oss_`, and what stands in logs.txt.
pub record LogFileStream : Type 0 where
  pub oss : List ℕ
  pub file : List ℕ

-- `is_open` is whether the file could be opened.
unfoldable pub write_to_file : Bool → LogFileStream → LogFileStream
write_to_file is_open s = if is_open then record { oss = []; file = s.file ++ s.oss } else s

unfoldable pub insert : Bool → List ℕ → LogFileStream → LogFileStream
insert is_open value s = write_to_file is_open (record s { oss = s.oss ++ value })
