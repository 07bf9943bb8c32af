-- ===== src/SqlModel/Edits.antt =====
-- The edits of the table of cpp/qt/sqlmodel/widget.cpp.
use code_study_example.SqlModel.{
  names, Person, Widget, Outside, any_name, select_all, inserted, add_row, id_of, record_at,
  delete_where, remove_row, updated, update_where, on_update_data, on_search, add_rows, init,
}
use code_study_example.SqlModel.Rows.{
  Ascending, Given, delete_none, delete_one, update_one, unused-Other,
}
use code_study_example.Shared.Int.{ℤ}
use code_study_example.Shared.Texts.{Text}
use code_study_example.Shared.{
  ℕ, zero, suc, ◌-◌, ◌%◌, ◌<◌, ◌≡◌, refl, sym, ap, ◌∙◌, max, List, [], ◌∷◌, ◌++◌, true, Option,
  none, some, ◌>>=◌, if_true, length, get_elem?, arith, All, length-append, append-nil,
  append_assoc, Bool-cases, inl, inr, subst,
}

pub record Consistent (w : Widget) : Type 0 where
  pub ascending : Ascending w.person
  pub given : All (Given w.sequence) w.person

elem_in : {A : Type 0} (xs : List A) (n : ℕ) → n < length xs → (x : A) × (get_elem? xs n ≡ some x)
elem_in [] n h = absurd (omega (arith, h))
elem_in (x ∷ xs) zero h = (x, refl)
elem_in (x ∷ xs) (suc n) h = elem_in xs n (omega (arith, h))

long_enough : (n : ℕ) → n < 10 → n < length names
unfolding names
long_enough n h = omega (arith, h)

-- The choice of a name stays within the list.
name_found : (rand : ℕ) → (name : Text) × (any_name rand ≡ some name)
unfolding any_name
name_found rand = elem_in names (rand % 10) (long_enough (rand % 10) (omega arith))

-- What the user does, and what comes of it.
pub data Event : Type 0 where
  adds : Outside → Event
  removes : ℤ → Outside → Event
  updates : ℤ → Outside → Event
  searches : Text → Event

module _ (select : Text → List Person → List Person) where
  abbrev pub after : Event → Widget → Option Widget
  after (adds o) w = add_row o w
  after (removes row o) w = some (remove_row row o w)
  after (updates row o) w = on_update_data row o w
  after (searches text) w = some (on_search select text w)

  abbrev pub after_all : List Event → Widget → Option Widget
  after_all [] w = some w
  after_all (e ∷ es) w = after e w >>= after_all es

  -- Whether the view shows the table.
  abbrev pub Shows : Event → Widget → Type 0
  Shows (searches text) w = Unit
  Shows e w = w.model ≡ w.person

  abbrev Stepped : Event → Option Widget → Type 0
  Stepped e r = (w : Widget) × (r ≡ some w) × Consistent w × Shows e w

-- The delete button, carried out by the database, removes the row that is selected in the view, also
-- in a view that shows the rows of a search, and no other, and the view shows the table then.
pub remove_row_lem :
    (row : ℤ) (o : Outside) (w : Widget) (before : List Person) (p : Person) (after : List Person)
    → Consistent w
    → o.exec ≡ true
    → record_at row w.model ≡ some p
    → w.person ≡ before ++ p ∷ after
    → ((remove_row row o w).person ≡ before ++ after)
      × ((remove_row row o w).model ≡ before ++ after)
unfolding remove_row id_of select_all
remove_row_lem row o w before p after c x selected e =
    let removed : delete_where p.id w.person ≡ before ++ after =
      ap (delete_where p.id) e ∙ delete_one before p after (subst Ascending e c.ascending) in
    rw (x, selected) (removed, removed)

-- Where no row of the view is selected, the delete button changes nothing in the table.
pub remove_row_nowhere :
    (row : ℤ) (o : Outside) (w : Widget)
    → Consistent w
    → record_at row w.model ≡ none
    → (remove_row row o w).person ≡ w.person
unfolding remove_row id_of select_all
remove_row_nowhere row o w c nowhere = elim (Bool-cases o.exec) [
  | inr h ↦ rw h refl
  | inl h ↦ rw (h, nowhere) (delete_none 0 w.person (unused-Other w.sequence w.person c.given))
]

-- The update button, carried out by the database, replaces the row that is selected in the view by
-- one with the same id, some name of the list and the new values, and no other row.
pub update_row_lem :
    (row : ℤ) (o : Outside) (w : Widget) (before : List Person) (p : Person) (after : List Person)
    → Consistent w
    → o.exec ≡ true
    → record_at row w.model ≡ some p
    → w.person ≡ before ++ p ∷ after
    → (w' : Widget) × (name : Text) × (on_update_data row o w ≡ some w')
      × (any_name o.rand_name ≡ some name)
      × (w'.person ≡ before ++ updated name o p ∷ after)
      × (w'.model ≡ w'.person)
unfolding on_update_data id_of select_all
update_row_lem row o w before p after c x selected e =
    let (name, n) = name_found o.rand_name in
    let changed : update_where p.id name o w.person ≡ before ++ updated name o p ∷ after =
      ap (update_where p.id name o) e
      ∙ update_one name o before p after (subst Ascending e c.ascending) in
    let w' = record w { person = update_where p.id name o w.person } in
    (
      select_all w',
      name,
      rw (n, selected) (ap (λ v. some (select_all v)) (if_true o.exec w' w x)),
      n,
      changed,
      refl,
    )

add_row_lem :
    (o : Outside) (w : Widget)
    → o.exec ≡ true
    → (w' : Widget) × (p : Person) × (add_row o w ≡ some w') × (w'.person ≡ w.person ++ p ∷ [])
unfolding add_row inserted select_all
add_row_lem o w x =
    let (name, n) = name_found o.rand_name in
    let p : Person = record {
      id = suc w.sequence;
      name = name;
      age = o.rand_age % 55;
      date = o.now;
      image = o.image;
    } in
    let w' = record w { person = w.person ++ p ∷ []; sequence = suc w.sequence } in
    (select_all w', p, rw n (ap (λ v. some (select_all v)) (if_true o.exec w' w x)), refl)

add_rows_lem :
    (n : ℕ) (o : ℕ → Outside) (w : Widget)
    → ((k : ℕ) → (o k).exec ≡ true)
    → (w' : Widget) × (more : List Person) × (add_rows n o w ≡ some w')
      × (w'.person ≡ w.person ++ more)
      × (length more ≡ n)
unfolding add_rows
add_rows_lem zero o w x = (w, [], refl, sym (append-nil w.person), refl)
add_rows_lem (suc n) o w x =
    let (w', p, r, e) = add_row_lem (o n) w (x n) in
    let (w'', more, r', e', l) = add_rows_lem n o w' x in
    (
      w'',
      p ∷ more,
      rw r r',
      e' ∙ ap (λ (rows : List Person). rows ++ more) e ∙ append_assoc w.person (p ∷ []) more,
      omega (arith, l),
    )

-- Where the database carries the insertions out, the program starts with the rows that it finds,
-- in their places, and with at least five, the missing ones added behind them.
pub init_fills_up :
    (o : ℕ → Outside) (w : Widget)
    → ((k : ℕ) → (o k).exec ≡ true)
    → (w' : Widget) × (more : List Person) × (init o w ≡ some w')
      × (w'.person ≡ w.person ++ more)
      × (length w'.person ≡ max 5 (length w.person))
unfolding init select_all
init_fills_up o w x =
    let (w', more, r, e, l) =
      add_rows_lem (5 - length w.person) o (record w { model = w.person }) x in
    (w', more, r, e, omega (arith, ap length e, length-append w.person more, l))
