-- ===== src/Screenshot/Window/History.antt =====
-- What the events of cpp/qt/ScreenShot/screenshots.cpp do to the items that were drawn.
use code_study_example.Screenshot.Rect.{Point, Rects}
use code_study_example.Screenshot.Window.{
  ScreenShots, Text, Key, OperateType, select_area, draw_text, draw_rect, draw_line_arrow, DrawItem,
  item_text, item_rect, item_line_arrow, is_empty, is_draw_text, commit_text, press_event,
  release_event, drag_event, move_event, input_method_event, key_press_event, key_command, type_key,
  save_and_exit, choose, paint_event, show_buttons,
}
use code_study_example.Shared.{
  arith, Bool-cases, inl, inr, ◌≡◌, refl, sym, ap, ◌∙◌, ◌++◌, Bool, true, List, [], ◌∷◌,
  append_assoc, append-nil,
}
use code_study_example.Shared.Int.{ℤ}

module _ (q : Rects) where
  -- The events of the window but for the back button.
  pub data Event : Type 0 where
    presses : Point → Event
    moves : Point → Event
    releases : Event
    commits_ime : Text → Event
    types : Key → Bool → Text → Event
    chooses : OperateType → Event
    paints : Event
    saves : Event

  abbrev pub on_event : ℤ → Event → ScreenShots q → ScreenShots q
  on_event h (presses p) s = press_event q p s
  on_event h (moves p) s = move_event q h p s
  on_event h releases s = release_event q s
  on_event h (commits_ime t) s = input_method_event q t s
  on_event h (types k c t) s = key_press_event q k c t s
  on_event h (chooses t) s = choose q t s
  on_event h paints s = paint_event q s
  on_event h saves s = save_and_exit q s

  abbrev pub on_events : ℤ → List Event → ScreenShots q → ScreenShots q
  on_events h [] s = s
  on_events h (e ∷ es) s = on_events h es (on_event h e s)

  abbrev Grows : List (DrawItem q) → List (DrawItem q) → Type 0
  Grows xs ys = (added : List (DrawItem q)) × (ys ≡ xs ++ added)

  none_added : (xs ys : List (DrawItem q)) → ys ≡ xs → Grows xs ys
  none_added xs ys e = ([], e ∙ sym (append-nil xs))

  one_added : (xs ys : List (DrawItem q)) (x : DrawItem q) → ys ≡ xs ++ x ∷ [] → Grows xs ys
  one_added xs ys x e = (x ∷ [], e)

  via : (xs : List (DrawItem q)) {ys zs : List (DrawItem q)} → zs ≡ ys → Grows xs ys → Grows xs zs
  via xs e (added, g) = (added, e ∙ g)

  commit-Grows : (s : ScreenShots q) → Grows s.items (commit_text q s).items
  unfolding commit_text
  commit-Grows s = elim (Bool-cases (is_empty s.input_text)) [
    | inl e ↦ none_added s.items _ (rw e refl)
    | inr e ↦ one_added s.items _ (item_text s.input_text s.item_rt) (rw e refl)
  ]

  press-Grows :
      (t : OperateType) (p : Point) (s : ScreenShots q)
      → s.operate_type ≡ t
      → Grows s.items (press_event q p s).items
  unfolding press_event
  press-Grows select_area p s e = none_added s.items _ (rw e refl)
  press-Grows draw_text p s e =
      via s.items (rw e refl) (commit-Grows (record s { is_press = true; press_pos = p }))
  press-Grows draw_rect p s e =
      via s.items (rw e refl) (commit-Grows (record s { is_press = true; press_pos = p }))
  press-Grows draw_line_arrow p s e =
      via s.items (rw e refl) (commit-Grows (record s { is_press = true; press_pos = p }))

  release-Grows :
      (t : OperateType) (s : ScreenShots q)
      → s.operate_type ≡ t
      → Grows s.items (release_event q s).items
  unfolding release_event
  release-Grows select_area s e = none_added s.items _ (rw e refl)
  release-Grows draw_text s e = none_added s.items _ (rw e refl)
  release-Grows draw_rect s e = one_added s.items _ (item_rect s.item_rt) (rw e refl)
  release-Grows draw_line_arrow s e =
      one_added s.items _ (item_line_arrow s.press_pos s.end_pos) (rw e refl)

  drag_keeps :
      (t : OperateType) (h : ℤ) (p : Point) (s : ScreenShots q)
      → s.operate_type ≡ t
      → (drag_event q h p s).items ≡ s.items
  unfolding drag_event show_buttons
  drag_keeps select_area h p s e = rw e refl
  drag_keeps draw_text h p s e = rw e refl
  drag_keeps draw_rect h p s e = rw e refl
  drag_keeps draw_line_arrow h p s e = rw e refl

  move_keeps : (h : ℤ) (p : Point) (s : ScreenShots q) → (move_event q h p s).items ≡ s.items
  unfolding move_event
  move_keeps h p s = elim (Bool-cases s.is_press) [
    | inl e ↦ rw e (drag_keeps s.operate_type h p (record s { is_press = true }) refl)
    | inr e ↦ rw e refl
  ]

  command_keeps : (k : Key) (c : Bool) (s : ScreenShots q) → (key_command q k c s).items ≡ s.items
  unfolding key_command save_and_exit
  command_keeps k c s = ground arith

  type_keeps : (k : Key) (t : Text) (s : ScreenShots q) → (type_key q k t s).items ≡ s.items
  unfolding type_key
  type_keeps k t s = ground arith

  key_keeps :
      (k : Key) (c : Bool) (t : Text) (s : ScreenShots q)
      → (key_press_event q k c t s).items ≡ s.items
  unfolding key_press_event
  key_keeps k c t s = elim (Bool-cases (is_draw_text q (key_command q k c s).operate_type)) [
    | inl e ↦ rw e (type_keeps k t (key_command q k c s) ∙ command_keeps k c s)
    | inr e ↦ rw e (command_keeps k c s)
  ]

  choose-Grows : (t : OperateType) (s : ScreenShots q) → Grows s.items (choose q t s).items
  unfolding choose
  choose-Grows t s = elim (Bool-cases (is_draw_text q s.operate_type)) [
    | inl e ↦ rw e (commit-Grows s)
    | inr e ↦ rw e (none_added s.items s.items refl)
  ]

  paint_keeps : (s : ScreenShots q) → (paint_event q s).items ≡ s.items
  unfolding paint_event
  paint_keeps s = ground arith

  save_keeps : (s : ScreenShots q) → (save_and_exit q s).items ≡ s.items
  unfolding save_and_exit
  save_keeps s = refl

  ime_keeps : (t : Text) (s : ScreenShots q) → (input_method_event q t s).items ≡ s.items
  unfolding input_method_event
  ime_keeps t s = refl

  event-Grows : (h : ℤ) (e : Event) (s : ScreenShots q) → Grows s.items (on_event h e s).items
  event-Grows h (presses p) s = press-Grows s.operate_type p s refl
  event-Grows h (moves p) s = none_added s.items _ (move_keeps h p s)
  event-Grows h releases s = release-Grows s.operate_type s refl
  event-Grows h (commits_ime t) s = none_added s.items _ (ime_keeps t s)
  event-Grows h (types k c t) s = none_added s.items _ (key_keeps k c t s)
  event-Grows h (chooses t) s = choose-Grows t s
  event-Grows h paints s = none_added s.items _ (paint_keeps s)
  event-Grows h saves s = none_added s.items _ (save_keeps s)

  -- No event but the back button takes an item away or changes one: after any events the items are
  -- those from before, in the same order, and perhaps more behind them.
  pub items_only_grow :
      (h : ℤ) (es : List Event) (s : ScreenShots q)
      → (added : List (DrawItem q)) × ((on_events h es s).items ≡ s.items ++ added)
  items_only_grow h [] s = none_added s.items s.items refl
  items_only_grow h (e ∷ es) s =
      let (first, g) = event-Grows h e s in
      let (later, k) = items_only_grow h es (on_event h e s) in
      (
        first ++ later,
        k ∙ ap (λ (xs : List (DrawItem q)). xs ++ later) g ∙ append_assoc s.items first later,
      )
