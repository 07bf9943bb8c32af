-- ===== src/SqlModel.antt =====
-- The table of persons of cpp/qt/sqlmodel/widget.cpp.
pub mod Rows
pub mod Edits
pub mod Examples
use code_study_example.Shared.Int.{ℤ, pos, negsuc}
use code_study_example.Shared.Texts.{Text, codes}
use code_study_example.Shared.{
  ◌>>=◌, ℕ, zero, suc, ◌+◌, ◌-◌, ◌%◌, ◌==◌, List, [], ◌∷◌, ◌++◌, Bool, true, false, Option, none,
  some, if◌then◌else◌, length, get_elem?, map,
}

unfoldable pub names : List Text
names =
    codes "大嘴"
    ∷ codes "葵花"
    ∷ codes "Tony"
    ∷ codes "Sony"
    ∷ codes "Joy"
    ∷ codes "爱丽丝"
    ∷ codes "晴律师"
    ∷ codes "喜马拉雅"
    ∷ codes "刘快乐"
    ∷ codes "百里"
    ∷ codes "里斯"
    ∷ codes "李昂"
    ∷ codes "小郭"
    ∷ codes "我在"
    ∷ []

-- A row of `person`; dates are numbers, images the bytes of their files.
pub record Person : Type 0 where
  pub id : ℕ
  pub name : Text
  pub age : ℕ
  pub date : ℕ
  pub image : List ℕ

-- The table, the number that AUTOINCREMENT gave last, and the rows that `model` holds.
pub record Widget : Type 0 where
  pub person : List Person
  pub sequence : ℕ
  pub model : List Person

-- What an edit takes from outside: two results of `qrand`, the time, the image that is read, and
-- whether the database carries the statement out.
pub record Outside : Type 0 where
  pub rand_name : ℕ
  pub rand_age : ℕ
  pub now : ℕ
  pub image : List ℕ
  pub exec : Bool

-- `names[qrand() % 10]`; beyond the list it is `none`.
unfoldable pub any_name : ℕ → Option Text
any_name rand = get_elem? names (rand % 10)

-- `model.setQuery("SELECT * FROM person")`.
unfoldable pub select_all : Widget → Widget
select_all w = record w { model = w.person }

unfoldable pub inserted : Text → Outside → Widget → Widget
inserted name o w =
    if o.exec
    then (record w {
      person =
          w.person
          ++ record {
            id = suc w.sequence;
            name = name;
            age = o.rand_age % 55;
            date = o.now;
            image = o.image;
          }
            ∷ [];
      sequence = suc w.sequence;
    })
    else w

unfoldable pub add_row : Outside → Widget → Option Widget
add_row o w = do name ← any_name o.rand_name; some (select_all (inserted name o w))

-- `model.record(row).value("id").toInt()`: a row that is not there has null values, which are 0.
unfoldable pub id_of : Option Person → ℕ
id_of none = 0
id_of (some p) = p.id

unfoldable pub record_at : ℤ → List Person → Option Person
record_at (pos n) rows = get_elem? rows n
record_at (negsuc n) rows = none

-- `delete from person where ID = :ID`.
unfoldable pub delete_where : ℕ → List Person → List Person
delete_where id [] = []
delete_where id (p ∷ rows) = if p.id == id then delete_where id rows else p ∷ delete_where id rows

-- `row` is the view's current row, -1 for none. The guard on `isEmpty` never holds, since a record of
-- this model has fields.
unfoldable pub remove_row : ℤ → Outside → Widget → Widget
remove_row row o w =
    let id = id_of (record_at row w.model) in
    select_all (if o.exec then record w { person = delete_where id w.person } else w)

abbrev pub updated : Text → Outside → Person → Person
updated name o p = record {
  id = p.id;
  name = name;
  age = o.rand_age % 55;
  date = o.now;
  image = o.image;
}

-- `update person set … where ID = :id`.
unfoldable pub update_where : ℕ → Text → Outside → List Person → List Person
update_where id name o [] = []
update_where id name o (p ∷ rows) =
    (if p.id == id then updated name o p else p) ∷ update_where id name o rows

unfoldable pub on_update_data : ℤ → Outside → Widget → Option Widget
on_update_data row o w = do
  name ← any_name o.rand_name
  let id = id_of (record_at row w.model)
  some (select_all (if o.exec then record w { person = update_where id name o w.person } else w))

-- The statement of `onSearch`, and what the database selects with it.
unfoldable pub search_sql : Text → Text
search_sql text =
    codes "select * from person Where id Like '%"
    ++ text
    ++ codes "%' OR name Like '%"
    ++ text
    ++ codes "%'"

unfoldable pub on_search : (Text → List Person → List Person) → Text → Widget → Widget
on_search select [] w = select_all w
on_search select (c ∷ text) w = record w { model = select (search_sql (c ∷ text)) w.person }

-- A click on a row of the view: what the icon shows, as the bytes of a picture. A row that is there
-- has a value for the image, be it empty.
unfoldable pub clicked : ℤ → Widget → List ℕ → List ℕ
clicked row w icon = elim (record_at row w.model) [ none ↦ icon | some p ↦ p.image ]

-- `while (init_count-- > 0 && true) addRow()`.
unfoldable pub add_rows : ℕ → (ℕ → Outside) → Widget → Option Widget
add_rows zero o w = some w
add_rows (suc n) o w = do w' ← add_row (o n) w; add_rows n o w'

-- What the constructor does to the table that it finds.
unfoldable pub init : (ℕ → Outside) → Widget → Option Widget
init o w = add_rows (5 - length (select_all w).model) o (select_all w)
