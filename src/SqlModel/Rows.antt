-- ===== src/SqlModel/Rows.antt =====
-- The rows of the table of cpp/qt/sqlmodel/widget.cpp under single statements.
use code_study_example.SqlModel.{Person, Outside, delete_where, update_where, updated}
use code_study_example.Shared.Texts.{Text}
use code_study_example.Shared.{
  ℕ, ◌≤◌, ◌<◌, ◌≡◌, refl, ap, ◌==◌, List, [], ◌∷◌, ◌++◌, true, false, arith, All, All-append,
  Bool-cases, inl, inr,
}

-- Ids ascend from 1 to the last that was given.
abbrev pub Ascending : List Person → Type 0
Ascending [] = Unit
Ascending (p ∷ rows) = All (λ q. p.id < q.id) rows × Ascending rows

abbrev pub Given : ℕ → Person → Type 0
Given n p = (1 ≤ p.id) × (p.id ≤ n)

-- Rows that an id is not the id of.
abbrev Other : ℕ → List Person → Type 0
Other id rows = All (λ p. (p.id == id) ≡ false) rows

pub delete_none : (id : ℕ) (rows : List Person) → Other id rows → delete_where id rows ≡ rows
unfolding delete_where
delete_none id [] a = refl
delete_none id (p ∷ rows) a = rw a.0 (ap (◌∷◌ p) (delete_none id rows a.1))

pub update_none :
    (id : ℕ) (name : Text) (o : Outside) (rows : List Person)
    → Other id rows
    → update_where id name o rows ≡ rows
unfolding update_where
update_none id name o [] a = refl
update_none id name o (p ∷ rows) a = rw a.0 (ap (◌∷◌ p) (update_none id name o rows a.1))

above-Other : (id : ℕ) (rows : List Person) → All (λ q. id < q.id) rows → Other id rows
above-Other id [] a = tt
above-Other id (p ∷ rows) a = let above = a.0 in (ground (arith, above), above-Other id rows a.1)

-- The other rows of a table in which a row stands.
pub All-end :
    (P : Person → Type 0) (before : List Person) (p : Person) (after : List Person)
    → All P (before ++ p ∷ after)
    → P p
All-end P [] p after a = a.0
All-end P (q ∷ before) p after a = All-end P before p after a.1

pub delete_one :
    (before : List Person) (p : Person) (after : List Person)
    → Ascending (before ++ p ∷ after)
    → delete_where p.id (before ++ p ∷ after) ≡ before ++ after
unfolding delete_where
delete_one [] p after a =
    let same : (p.id == p.id) ≡ true = ground arith in
    rw same (delete_none p.id after (above-Other p.id after a.0))
delete_one (q ∷ before) p after a =
    let below : q.id < p.id = All-end (λ r. q.id < r.id) before p after a.0 in
    let other : (q.id == p.id) ≡ false = ground (arith, below) in
    rw other (ap (◌∷◌ q) (delete_one before p after a.1))

pub update_one :
    (name : Text) (o : Outside) (before : List Person) (p : Person) (after : List Person)
    → Ascending (before ++ p ∷ after)
    → update_where p.id name o (before ++ p ∷ after) ≡ before ++ updated name o p ∷ after
unfolding update_where
update_one name o [] p after a =
    let same : (p.id == p.id) ≡ true = ground arith in
    rw same
      (ap (◌∷◌ (updated name o p)) (update_none p.id name o after (above-Other p.id after a.0)))
update_one name o (q ∷ before) p after a =
    let below : q.id < p.id = All-end (λ r. q.id < r.id) before p after a.0 in
    let other : (q.id == p.id) ≡ false = ground (arith, below) in
    rw other (ap (◌∷◌ q) (update_one name o before p after a.1))

-- An id that was never given.
pub unused-Other :
    (n : ℕ) (rows : List Person) → All (Given n) rows → All (λ p. (p.id == 0) ≡ false) rows
unused-Other n [] a = tt
unused-Other n (p ∷ rows) a = let given = a.0.0 in (ground (arith, given), unused-Other n rows a.1)

pub delete-All :
    (P : Person → Type 0) (id : ℕ) (rows : List Person) → All P rows → All P (delete_where id rows)
unfolding delete_where
delete-All P id [] a = tt
delete-All P id (p ∷ rows) a = elim (Bool-cases (p.id == id)) [
  | inl h ↦ rw h (delete-All P id rows a.1)
  | inr h ↦ rw h (a.0, delete-All P id rows a.1)
]

pub delete-Ascending :
    (id : ℕ) (rows : List Person) → Ascending rows → Ascending (delete_where id rows)
unfolding delete_where
delete-Ascending id [] a = tt
delete-Ascending id (p ∷ rows) a = elim (Bool-cases (p.id == id)) [
  | inl h ↦ rw h (delete-Ascending id rows a.1)
  | inr h ↦ rw h (delete-All (λ q. p.id < q.id) id rows a.0, delete-Ascending id rows a.1)
]

-- An update keeps the ids.
update-All :
    (P : ℕ → Type 0) (id : ℕ) (name : Text) (o : Outside) (rows : List Person)
    → All (λ p. P p.id) rows
    → All (λ p. P p.id) (update_where id name o rows)
unfolding update_where
update-All P id name o [] a = tt
update-All P id name o (p ∷ rows) a = elim (Bool-cases (p.id == id)) [
  | inl h ↦ rw h (a.0, update-All P id name o rows a.1)
  | inr h ↦ rw h (a.0, update-All P id name o rows a.1)
]

pub update-Given :
    (n id : ℕ) (name : Text) (o : Outside) (rows : List Person)
    → All (Given n) rows
    → All (Given n) (update_where id name o rows)
update-Given n id name o rows a = update-All (λ k. (1 ≤ k) × (k ≤ n)) id name o rows a

pub update-Ascending :
    (id : ℕ) (name : Text) (o : Outside) (rows : List Person)
    → Ascending rows
    → Ascending (update_where id name o rows)
unfolding update_where
update-Ascending id name o [] a = tt
update-Ascending id name o (p ∷ rows) a = elim (Bool-cases (p.id == id)) [
  | inl h ↦
      rw h (update-All (λ k. p.id < k) id name o rows a.0, update-Ascending id name o rows a.1)
  | inr h ↦
      rw h (update-All (λ k. p.id < k) id name o rows a.0, update-Ascending id name o rows a.1)
]

pub append-Ascending :
    (rows : List Person) (p : Person)
    → All (λ q. q.id < p.id) rows
    → Ascending rows
    → Ascending (rows ++ p ∷ [])
append-Ascending [] p a s = (tt, tt)
append-Ascending (q ∷ rows) p a s =
    (All-append (λ r. q.id < r.id) rows (p ∷ []) s.0 (a.0, tt), append-Ascending rows p a.1 s.1)
