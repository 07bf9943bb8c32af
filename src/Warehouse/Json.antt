-- ===== src/Warehouse/Json.antt =====
-- Products and listeners as JSON: cpp/jsonrpc/json-rpc-cxx/examples/main/types.h.
use code_study_example.Warehouse.{Category, order, cash_carry, Product, find}
use code_study_example.Shared.Texts.{Text, codes, same_text}
use code_study_example.Shared.{
  ◌≡◌, refl, ap, List, [], ◌∷◌, Option, none, some, ◌>>=◌, if◌then◌else◌, map,
}

-- What stands in a JSON object here. A conversion of a value of another kind throws (`none`).
pub data Value (Double : Type 0) : Type 0 where
  str : Text → Value Double
  num : Double → Value Double

abbrev pub Json : Type 0 → Type 0
Json Double = List (Text × Value Double)

-- `EventListener`; its handlers only print, wait and return 10 or nothing.
pub record EventListener : Type 0 where
  pub name : Text
  pub handle_name : Text

module _ {Double : Type 0} where
  -- The table of `NLOHMANN_JSON_SERIALIZE_ENUM`: what is not in it is read as its first entry.
  unfoldable pub category_to_json : Category → Value Double
  category_to_json order = str (codes "order")
  category_to_json cash_carry = str (codes "cc")

  unfoldable pub category_from_json : Value Double → Category
  category_from_json (str t) =
      if same_text t (codes "order")
      then order
      else (if same_text t (codes "cc") then cash_carry else order)
  category_from_json (num x) = order

  abbrev pub get_str : Value Double → Option Text
  get_str (str t) = some t
  get_str (num x) = none

  abbrev pub get_num : Value Double → Option Double
  get_num (str t) = none
  get_num (num x) = some x

  unfoldable pub product_to_json : Product Double → Json Double
  product_to_json p =
      (codes "id", str p.id)
      ∷ (codes "price", num p.price)
      ∷ (codes "name", str p.name)
      ∷ (codes "category", category_to_json p.cat)
      ∷ []

  -- `j.at(key)` throws where the key is missing.
  unfoldable pub product_from_json : Json Double → Option (Product Double)
  product_from_json j = do
    name_value ← find (codes "name") j
    name ← get_str name_value
    id_value ← find (codes "id") j
    id ← get_str id_value
    price_value ← find (codes "price") j
    price ← get_num price_value
    category ← find (codes "category") j
    some (record { id = id; price = price; name = name; cat = category_from_json category })

  unfoldable pub listener_to_json : EventListener → Json Double
  listener_to_json p = (codes "name", str p.name) ∷ (codes "handleName", str p.handle_name) ∷ []

  unfoldable pub listener_from_json : Json Double → Option EventListener
  listener_from_json j = do
    name_value ← find (codes "name") j
    name ← get_str name_value
    handle_value ← find (codes "handleName") j
    handle_name ← get_str handle_value
    some (record { name = name; handle_name = handle_name })

  -- A list of products, as an array of objects.
  abbrev pub products_from_json : List (Json Double) → Option (List (Product Double))
  products_from_json [] = some []
  products_from_json (j ∷ js) = do
    p ← product_from_json j
    ps ← products_from_json js
    some (p ∷ ps)

module _ (Double : Type 0) where
  category-round_trip :
      (c : Category) → category_from_json (category_to_json {Double = Double} c) ≡ c
  unfolding category_from_json category_to_json
  category-round_trip order = refl
  category-round_trip cash_carry = refl

  pub product-round_trip : (p : Product Double) → product_from_json (product_to_json p) ≡ some p
  unfolding product_from_json product_to_json find
  product-round_trip p =
      ap (λ c. some (record { id = p.id; price = p.price; name = p.name; cat = c }))
        (category-round_trip p.cat)

  pub listener-round_trip :
      (e : EventListener) → listener_from_json (listener_to_json {Double = Double} e) ≡ some e
  unfolding listener_from_json listener_to_json find
  listener-round_trip e = refl

  pub products-round_trip :
      (ps : List (Product Double)) → products_from_json (map product_to_json ps) ≡ some ps
  products-round_trip [] = refl
  products-round_trip (p ∷ ps) = rw (product-round_trip p, products-round_trip ps) refl
