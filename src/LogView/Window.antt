-- ===== src/LogView/Window.antt =====
-- The lines that cpp/ftxui/demo.cpp shows.
use code_study_example.LogView.{
  max_log_lines, min_int, window_start, update_show_index, range, visible_logs,
}
use code_study_example.Shared.{
  zero, suc, ℕ, ◌+◌, ◌-◌, ◌≤◌, ◌≡◌, refl, leb, List, [], ◌∷◌, ◌++◌, Bool, true, false, some, length,
  take, drop, arith, min, Bool-cases, inl, inr, ap, ◌∙◌, length-drop, take-append-drop, length-take,
  suc,
}
use code_study_example.Shared.Int.{ℤ, pos, negsuc, ◌+ℤ◌, ◌-ℤ◌, ◌≤ℤ◌, int_laws}

window_start-pos : (n : ℕ) → window_start (pos n) ≡ pos (n - 14)
unfolding ◌+ℤ◌ ◌-ℤ◌
window_start-pos n = ground arith

pos_suc : (n : ℕ) → pos n +ℤ pos 1 ≡ pos (n + 1)
unfolding ◌+ℤ◌
pos_suc n = ground arith

pos_pred : (n : ℕ) → 1 ≤ n → pos n -ℤ pos 1 ≡ pos (n - 1)
unfolding ◌-ℤ◌
pos_pred n h = ground arith

sub_add : (n : ℕ) → pos n -ℤ pos 1 +ℤ pos 1 ≡ pos n
sub_add n = omega int_laws

min_nonneg : (a : ℤ) (n : ℕ) → pos 0 ≤ℤ a → (m : ℕ) × (min_int a (pos n) ≡ pos m) × (m ≤ n)
min_nonneg (pos a) n h = (min a n, ground arith, ground arith)
min_nonneg (negsuc a) n h = absurd (ground arith)

-- The indices `a` up to and without `b` are those of a log of this size, and at most 15.
abbrev pub InLog : ℕ → ℤ × ℤ → Type 0
InLog size (start, end) =
    (a : ℕ) × (b : ℕ) × (start ≡ pos a)
    × (end +ℤ pos 1 ≡ pos b)
    × (a ≤ b)
    × (b ≤ size)
    × (b ≤ a + 15)

window-InLog : (size n : ℕ) → n + 1 ≤ size → InLog size (window_start (pos n), pos n)
window-InLog size n h = (n - 14, n + 1, window_start-pos n, pos_suc n, omega arith, h, omega arith)

slider-InLog :
    (size : ℕ) (x : ℤ)
    → 1 ≤ size
    → pos 0 ≤ℤ x
    → InLog size (window_start (min_int x (pos size -ℤ pos 1)), min_int x (pos size -ℤ pos 1))
slider-InLog size x l h =
    let (m, e, k) = min_nonneg x (size - 1) h in
    rw (pos_pred size l, e) (window-InLog size m (omega arith))

long-InLog :
    (scaled : ℕ → ℤ → ℤ) (log_show_real : Bool) (log_size slider_value : ℕ)
    → ((n : ℕ) → pos 0 ≤ℤ scaled slider_value (pos n))
    → leb log_size max_log_lines ≡ false
    → InLog log_size (update_show_index scaled log_show_real log_size slider_value)
unfolding update_show_index
long-InLog scaled true size v h more =
    rw (more, pos_pred size (ground arith)) (window-InLog size (size - 1) (ground arith))
long-InLog scaled false size v h more = rw more (
    slider-InLog size (scaled v (pos size -ℤ pos 1)) (ground arith)
      (rw (pos_pred size (ground arith)) (h (size - 1))))

update_show_index-InLog :
    (scaled : ℕ → ℤ → ℤ) (log_show_real : Bool) (log_size slider_value : ℕ)
    → ((n : ℕ) → pos 0 ≤ℤ scaled slider_value (pos n))
    → InLog log_size (update_show_index scaled log_show_real log_size slider_value)
unfolding update_show_index
update_show_index-InLog scaled real size v h = elim (Bool-cases (leb size max_log_lines)) [
  | inl fits ↦ rw fits (0, size, refl, sub_add size, ground arith, ground arith, ground arith)
  | inr more ↦ long-InLog scaled real size v h more
]

latest_range :
    (scaled : ℕ → ℤ → ℤ) (slider_value size : ℕ)
    → ((update_show_index scaled true size slider_value).0 ≡ pos (size - 15))
      × ((update_show_index scaled true size slider_value).1 +ℤ pos 1 ≡ pos size)
unfolding update_show_index
latest_range scaled v size = elim (Bool-cases (leb size max_log_lines)) [
  | inl fits ↦ rw fits (ap pos (ground arith), sub_add size)
  | inr more ↦
      rw (more, pos_pred size (ground arith), window_start-pos (size - 1), pos_suc (size - 1))
        (ap pos (ground arith), ap pos (ground arith))
]

module _ {A : Type 0} where
  range-inside :
      (a b : ℕ) (xs : List A)
      → a ≤ b
      → b ≤ length xs
      → range (pos a) (pos b) xs ≡ some (take (b - a) (drop a xs))
  unfolding range
  range-inside a b xs h k = ground arith

  -- With a slider value whose share of a size is never negative, the view takes out of every log,
  -- whatever the mode, a part that is really there, of at most 15 lines.
  pub visible_part :
      (scaled : ℕ → ℤ → ℤ) (log_show_real : Bool) (slider_value : ℕ) (logs : List A)
      → ((n : ℕ) → pos 0 ≤ℤ scaled slider_value (pos n))
      → (before : List A) × (part : List A) × (after : List A) × (visible_logs scaled log_show_real
            slider_value logs
          ≡ some part)
        × (before ++ (part ++ after) ≡ logs)
        × (length part ≤ 15)
  unfolding visible_logs
  visible_part scaled real v logs h =
      let (a, b, from, to, ab, bs, few) = update_show_index-InLog scaled real (length logs) v h in
      (
        take a logs,
        take (b - a) (drop a logs),
        drop (b - a) (drop a logs),
        rw (from, to) (range-inside a b logs ab bs),
        ap (λ (x : List A). take a logs ++ x) (take-append-drop (b - a) (drop a logs))
            ∙ take-append-drop a logs,
        omega (arith, length-take (b - a) (drop a logs)),
      )

  take_all : (n : ℕ) (xs : List A) → length xs ≤ n → take n xs ≡ xs
  take_all zero [] h = refl
  take_all zero (x ∷ xs) h = absurd (omega arith)
  take_all (suc n) [] h = refl
  take_all (suc n) (x ∷ xs) h = ap (λ (ys : List A). x ∷ ys) (take_all n xs (omega arith))

  -- In the mode that follows the log the view shows its last 15 lines, or all where there are
  -- fewer.
  pub visible_latest :
      (scaled : ℕ → ℤ → ℤ) (slider_value : ℕ) (logs : List A)
      → visible_logs scaled true slider_value logs ≡ some (drop (length logs - 15) logs)
  unfolding visible_logs
  visible_latest scaled v logs =
      let (from, to) = latest_range scaled v (length logs) in
      rw (from, to)
        (range-inside (length logs - 15) (length logs) logs (omega arith) (omega arith)
          ∙ ap some (
              take_all (length logs - (length logs - 15)) (drop (length logs - 15) logs)
                (omega (arith, length-drop (length logs - 15) logs))))
