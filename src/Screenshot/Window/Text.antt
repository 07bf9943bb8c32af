-- ===== src/Screenshot/Window/Text.antt =====
-- Typing text in cpp/qt/ScreenShot/screenshots.cpp.
use code_study_example.Screenshot.Rect.{Point, Rects}
use code_study_example.Screenshot.Window.Drawing.{press_draws}
use code_study_example.Screenshot.Window.{
  ScreenShots, Text, key_other, OperateType, draw_text, draw_rect, item_text, commit_text,
  press_event, key_press_event, key_command, type_key, input_method_event, choose, is_draw_text,
  is_empty,
}
use code_study_example.Shared.{
  ◌≡◌, ◌≢◌, refl, sym, ap, ◌∙◌, ◌++◌, true, false, List, [], ◌∷◌, append_assoc, append-nil, arith,
}
use code_study_example.Shared.Int.{pos}

module _ (q : Rects) where
  open q use {Rect, rect}

  -- Keys that only give text, without a modifier.
  abbrev pub type_texts : List Text → ScreenShots q → ScreenShots q
  type_texts [] s = s
  type_texts (t ∷ ts) s = type_texts ts (key_press_event q key_other false t s)

  abbrev pub joined : List Text → Text
  joined [] = []
  joined (t ∷ ts) = t ++ joined ts

  key_types :
      (t : Text) (s : ScreenShots q)
      → s.operate_type ≡ draw_text
      → key_press_event q key_other false t s ≡ record s { input_text = s.input_text ++ t }
  unfolding key_press_event key_command type_key
  key_types t s e = rw e refl

  keys_type :
      (ts : List Text) (s : ScreenShots q)
      → s.operate_type ≡ draw_text
      → type_texts ts s ≡ record s { input_text = s.input_text ++ joined ts }
  keys_type [] s e = ap (λ x. record s { input_text = x }) (sym (append-nil s.input_text))
  keys_type (t ∷ ts) s e = rw (key_types t s e) (
      keys_type ts (record s { input_text = s.input_text ++ t }) e
      ∙ ap (λ x. record s { input_text = x }) (append_assoc s.input_text t (joined ts)))

  not_empty : (t : Text) → t ≢ [] → is_empty t ≡ false
  not_empty [] n = absurd (n refl)
  not_empty (c ∷ cs) n = refl

  commits :
      (s : ScreenShots q)
      → s.input_text ≢ []
      → commit_text q s
        ≡ record s { items = s.items ++ item_text s.input_text s.item_rt ∷ []; input_text = [] }
  unfolding commit_text
  commits s n = rw (not_empty s.input_text n) refl

  choose_commits :
      (t : OperateType) (s : ScreenShots q)
      → s.operate_type ≡ draw_text
      → choose q t s ≡ record (commit_text q s) { operate_type = t }
  unfolding choose
  choose_commits t s e = rw (ap (is_draw_text q) e) refl

  -- In text mode, with no text entered: what is typed after a press becomes one item, in a
  -- rectangle of 200 by 150 at the place of the press, when a mode is chosen, and the text is
  -- cleared.
  pub typed_text_kept :
      (s : ScreenShots q) (p : Point) (ts : List Text) (t : OperateType)
      → s.operate_type ≡ draw_text
      → s.input_text ≡ []
      → joined ts ≢ []
      → let s' = choose q t (type_texts ts (press_event q p s)) in
        (s'.items ≡ s.items ++ item_text (joined ts) (rect p.x p.y (pos 200) (pos 150)) ∷ [])
        × (s'.input_text ≡ [])
        × (s'.operate_type ≡ t)
  typed_text_kept s p ts t e i n =
      let s1 : ScreenShots q = record s {
        is_press = true;
        press_pos = p;
        item_rt = rect p.x p.y (pos 200) (pos 150);
        input_text = [];
      } in
      let s2 : ScreenShots q = record s1 { input_text = joined ts } in
      let pressed : press_event q p s ≡ s1 =
        press_draws q s.operate_type p s refl (λ h. ground (arith, h)) i
        ∙ ap (λ x. record s1 { input_text = x }) i in
      let typed : choose q t (type_texts ts (press_event q p s)) ≡ record s2 {
        items = s2.items ++ item_text (joined ts) s2.item_rt ∷ [];
        input_text = [];
        operate_type = t;
      } =
        rw (pressed, keys_type ts s1 e, choose_commits t s2 e, commits s2 n) refl in
      rw typed (refl, refl, refl)

  press_commits :
      (s : ScreenShots q) (p : Point)
      → s.operate_type ≡ draw_rect
      → (press_event q p s).items
        ≡ (commit_text q (record s { is_press = true; press_pos = p })).items
  unfolding press_event
  press_commits s p e = rw e refl

  -- Text that an input method commits in the mode for rectangles, where nothing shows it, is kept
  -- and becomes an item at the next press.
  pub ime_text_leaks :
      (s : ScreenShots q) (p : Point) (txt : Text)
      → s.operate_type ≡ draw_rect
      → s.input_text ≡ []
      → txt ≢ []
      → (press_event q p (input_method_event q txt s)).items
        ≡ s.items ++ item_text txt s.item_rt ∷ []
  unfolding input_method_event
  ime_text_leaks s p txt e i n =
      let s1 : ScreenShots q = record s { input_text = txt; is_press = true; press_pos = p } in
      press_commits (record s { input_text = s.input_text ++ txt }) p e
      ∙ ap (λ (x : Text). (commit_text q (record s1 { input_text = x ++ txt })).items) i
      ∙ ap (λ (x : ScreenShots q). x.items) (commits s1 n)
