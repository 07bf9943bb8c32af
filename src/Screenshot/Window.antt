-- ===== src/Screenshot/Window.antt =====
-- The window of the screenshot tool: cpp/qt/ScreenShot/screenshots.h, screenshots.cpp and the items
-- of drawcontent.h.
pub mod Drawing
pub mod Text
pub mod History
pub mod Buttons
use code_study_example.Screenshot.Rect.{Point, origin, Rects}
use code_study_example.Screenshot.Area.{
  SelectShotArea, new_area, Border, border_none, left_border, right_border, top_border,
  bottom_border, judge_border, is_in_area, rt, spanned, mouse_pressed, mouse_release, mouse_move,
}
use code_study_example.Shared.{
  ℕ, ◌≡◌, ◌==◌, ◌&&◌, ◌||◌, ◌++◌, Bool, true, false, not, Option, none, some, List, [], ◌∷◌,
  if◌then◌else◌,
}
use code_study_example.Shared.Int.{ℤ, pos, ◌+ℤ◌, ◌-ℤ◌, ltb_ℤ}

pub data OperateType : Type 0 where
  select_area : OperateType
  draw_text : OperateType
  draw_rect : OperateType
  draw_line_arrow : OperateType

-- The characters of a QString.
abbrev pub Text : Type 0
Text = List ℕ

abbrev pub is_empty : Text → Bool
is_empty [] = true
is_empty _ = false

-- The keys that the code tells apart.
pub data Key : Type 0 where
  key_escape : Key
  key_s : Key
  key_enter : Key
  key_return : Key
  key_backspace : Key
  key_other : Key

pub data Cursor : Type 0 where
  size_hor_cursor : Cursor
  size_ver_cursor : Cursor
  size_all_cursor : Cursor
  arrow_cursor : Cursor

-- `inputText.remove(inputText.length() - 1, 1)`
pub remove_last : Text → Text
remove_last [] = []
remove_last (c ∷ []) = []
remove_last (c ∷ d ∷ cs) = c ∷ remove_last (d ∷ cs)

-- `items.pop_back()`
pub pop_back {ℓ} : {A : Type ℓ} → List A → List A
pop_back [] = []
pop_back (x ∷ []) = []
pop_back (x ∷ y ∷ xs) = x ∷ pop_back (y ∷ xs)

module _ (q : Rects) where
  open q use {Rect, rect, left, top, right, bottom, width, height}

  pub data DrawItem : Type 0 where
    item_text : Text → Rect → DrawItem
    item_rect : Rect → DrawItem
    item_line_arrow : Point → Point → DrawItem

  -- `shown` is what the last `paintEvent` painted over the background of the selected area,
  -- `saved` the areas that went to a file, `quitting` whether `quit` was called.
  pub record ScreenShots : Type 0 where
    pub sa : SelectShotArea
    pub operate_type : OperateType
    pub input_text : Text
    pub press_pos : Point
    pub end_pos : Point
    pub item_rt : Rect
    pub items : List DrawItem
    pub is_press : Bool
    pub buttons : Option Point
    pub shown : List DrawItem
    pub saved : List Rect
    pub quitting : Bool

  -- `if (inputText != "")` append the text as an item and clear it.
  unfoldable pub commit_text : ScreenShots → ScreenShots
  commit_text s =
      if is_empty s.input_text
      then s
      else record s { items = s.items ++ item_text s.input_text s.item_rt ∷ []; input_text = [] }

  unfoldable pub press_event : Point → ScreenShots → ScreenShots
  press_event p s = elim s.operate_type [
    | select_area ↦ record s { is_press = true; sa = mouse_pressed q p s.sa }
    | _ ↦ record (commit_text (record s { is_press = true; press_pos = p })) {
      item_rt = rect p.x p.y (pos 200) (pos 150);
    }
  ]

  unfoldable pub release_event : ScreenShots → ScreenShots
  release_event s = elim s.operate_type [
    | select_area ↦ record s { is_press = false; sa = mouse_release s.sa }
    | draw_rect ↦ record s { is_press = false; items = s.items ++ item_rect s.item_rt ∷ [] }
    | draw_line_arrow ↦ record s {
      is_press = false;
      items = s.items ++ item_line_arrow s.press_pos s.end_pos ∷ [];
    }
    | draw_text ↦ record s { is_press = false }
  ]

  abbrev pub buttons_width : ℤ
  buttons_width = pos 500

  abbrev pub buttons_height : ℤ
  buttons_height = pos 40

  abbrev pub spacing : ℤ
  spacing = pos 20

  -- `showButtons`, on a screen of this height.
  unfoldable pub buttons_pos : ℤ → Rect → Point
  buttons_pos screen_h r =
      let x = right r -ℤ buttons_width in
      let show_in_area = ltb_ℤ screen_h (bottom r +ℤ spacing +ℤ buttons_height) in
      record {
        x = if ltb_ℤ (pos 0) x then x else pos 0;
        y = if show_in_area then bottom r -ℤ spacing -ℤ buttons_height else bottom r +ℤ spacing;
      }

  unfoldable pub show_buttons : ℤ → Rect → ScreenShots → ScreenShots
  show_buttons screen_h r s = record s { buttons = some (buttons_pos screen_h r) }

  -- What a move does while a button is down.
  unfoldable pub drag_event : ℤ → Point → ScreenShots → ScreenShots
  drag_event screen_h p s = elim s.operate_type [
    | select_area ↦
        show_buttons screen_h (rt q (mouse_move q p s.sa)) (record s { sa = mouse_move q p s.sa })
    | _ ↦ record s { item_rt = spanned q s.press_pos p; end_pos = p }
  ]

  -- Otherwise a move changes only the cursor, as `update_mouse_shape` says.
  unfoldable pub move_event : ℤ → Point → ScreenShots → ScreenShots
  move_event screen_h p s = if s.is_press then drag_event screen_h p s else s

  -- The cursor that `updateMouseShape` sets in the mode of selecting, at a border or not, in the
  -- area or not; `none` where it leaves the cursor.
  unfoldable pub select_cursor : Border → Bool → Option Cursor
  select_cursor left_border _ = some size_hor_cursor
  select_cursor right_border _ = some size_hor_cursor
  select_cursor top_border _ = some size_ver_cursor
  select_cursor bottom_border _ = some size_ver_cursor
  select_cursor border_none true = some size_all_cursor
  select_cursor border_none false = none

  unfoldable pub update_mouse_shape : Point → ScreenShots → Option Cursor
  update_mouse_shape p s = elim s.operate_type [
    | select_area ↦ select_cursor (judge_border q s.sa p) (is_in_area q s.sa p)
    | _ ↦ some arrow_cursor
  ]

  unfoldable pub input_method_event : Text → ScreenShots → ScreenShots
  input_method_event txt s = record s { input_text = s.input_text ++ txt }

  pub save_and_exit : ScreenShots → ScreenShots
  save_and_exit s = record s { saved = s.saved ++ rt q s.sa ∷ []; quitting = true }

  pub key_command : Key → Bool → ScreenShots → ScreenShots
  key_command key_escape control s = record s { quitting = true }
  key_command key_s control s = if control then save_and_exit s else s
  key_command _ control s = s

  unfoldable pub type_key : Key → Text → ScreenShots → ScreenShots
  type_key key_enter text s = record s { input_text = s.input_text ++ 10 ∷ [] }
  type_key key_return text s = record s { input_text = s.input_text ++ 10 ∷ [] }
  type_key key_backspace text s = record s { input_text = remove_last s.input_text }
  type_key _ text s = record s { input_text = s.input_text ++ text }

  abbrev pub is_draw_text : OperateType → Bool
  is_draw_text draw_text = true
  is_draw_text _ = false

  unfoldable pub key_press_event : Key → Bool → Text → ScreenShots → ScreenShots
  key_press_event key control text s =
      let s' = key_command key control s in
      if is_draw_text s'.operate_type then type_key key text s' else s'

  -- The button that takes the last item, or the text that is being typed, back.
  unfoldable pub draw_back : ScreenShots → ScreenShots
  draw_back s =
      if is_draw_text s.operate_type && not (is_empty s.input_text)
      then record s { input_text = [] }
      else record s { items = pop_back s.items }

  -- A button that chooses an operation.
  unfoldable pub choose : OperateType → ScreenShots → ScreenShots
  choose t s =
      let s' = if is_draw_text s.operate_type then commit_text s else s in
      record s' { operate_type = t }

  -- The item that is being drawn.
  pub current_item : ScreenShots → List DrawItem
  current_item s = elim s.operate_type [
    | select_area ↦ []
    | draw_rect ↦ item_rect s.item_rt ∷ []
    | draw_text ↦ item_text s.input_text s.item_rt ∷ []
    | draw_line_arrow ↦ item_line_arrow s.press_pos s.end_pos ∷ []
  ]

  abbrev pub is_zero : ℤ → Bool
  is_zero (pos n) = n == 0
  is_zero _ = false

  -- Nothing is drawn while the area has no size.
  pub paint_event : ScreenShots → ScreenShots
  paint_event s =
      let r = rt q s.sa in
      if is_zero (width r) || is_zero (height r)
      then record s { shown = [] }
      else record s { shown = s.items ++ current_item s }
