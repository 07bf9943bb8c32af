-- ===== src/Warehouse.antt =====
-- The warehouse of cpp/jsonrpc/json-rpc-cxx/examples/main: types.h and server.hpp.
pub mod Store
pub mod Refines
pub mod Json
pub mod Client
pub mod Calls
pub mod Examples
use code_study_example.Shared.Int.{ℤ, pos, negsuc, ◌+ℤ◌, ltb_ℤ}
use code_study_example.Shared.Texts.{Text, codes, same_text, less_text}
use code_study_example.Shared.{
  ℕ, suc, ◌+◌, ◌-◌, ◌^◌, ltb, ◌==◌, List, [], ◌∷◌, ◌++◌, ◌&&◌, ◌||◌, Bool, true, false, Option,
  none, some, ◌>>=◌, if◌then◌else◌,
}

pub data Category : Type 0 where
  order : Category
  cash_carry : Category

-- A price is a double, of which nothing is asked.
pub record Product (Double : Type 0) : Type 0 where
  pub id : Text
  pub price : Double
  pub name : Text
  pub cat : Category

-- `std::map` with texts as keys, in the order of its iterators.
module _ {V : Type 0} where
  unfoldable pub find : Text → List (Text × V) → Option V
  find key [] = none
  find key ((k, v) ∷ entries) = if same_text key k then some v else find key entries

  -- `entries[key] = v`.
  unfoldable pub assign : Text → V → List (Text × V) → List (Text × V)
  assign key v [] = (key, v) ∷ []
  assign key v ((k, w) ∷ entries) =
      if same_text key k
      then (k, v) ∷ entries
      else (if less_text key k then (key, v) ∷ (k, w) ∷ entries else (k, w) ∷ assign key v entries)

  abbrev pub second : Text × V → V
  second entry = entry.1

  abbrev pub values : List (Text × V) → List V
  values [] = []
  values (entry ∷ entries) = second entry ∷ values entries

module _ (Double : Type 0) where
  -- `ServerHandle`; `AppServer` is a parameter of `register_event_listener`.
  pub record ServerHandle : Type 0 where
    pub products : List (Text × Product Double)

  unfoldable pub new_server : ServerHandle
  new_server = record { products = [] }

  abbrev add_where : Product Double → Option (Product Double) → ServerHandle → Bool × ServerHandle
  add_where p (some found) s = (false, s)
  add_where p none s = (true, record s { products = assign p.id p s.products })

  unfoldable pub add_product : Product Double → ServerHandle → Bool × ServerHandle
  add_product p s = add_where p (find p.id s.products) s

  -- `none` where the method returns a reference to a temporary, which is gone when the caller reads it.
  unfoldable pub get_product : Text → ServerHandle → Option (Product Double)
  get_product id s = find id s.products

  unfoldable pub all_products : ServerHandle → List (Product Double)
  all_products s = values s.products

-- The sum of two 32-bit `int`s, whose overflow is undefined.
unfoldable pub calc : ℤ → ℤ → Option ℤ
calc a b =
    let sum = a +ℤ b in
    if ltb_ℤ sum (pos (2 ^ 31))
    then (if ltb_ℤ sum (negsuc (2 ^ 31 - 1)) then none else some sum)
    else none

-- `g_msgid`, on its static counter.
unfoldable pub g_msgid : ℕ → ℕ × ℕ
g_msgid id = (suc id, suc id)
