-- ===== src/Warehouse/Calls.antt =====
-- What the client of cpp/jsonrpc/json-rpc-cxx/examples/main/client.hpp gets from the server.
use code_study_example.Warehouse.{
  Product, ServerHandle, add_product, get_product, all_products, g_msgid,
}
use code_study_example.Warehouse.Json.{product-round_trip, products-round_trip}
use code_study_example.Warehouse.Client.{
  World, print, numbered, rpc_add, with_server, c_add_product, c_get_product, c_all_products,
  regiser_cb, first_product, second_product, names_of, show_int, app_client_evt, add_line,
}
use code_study_example.Shared.Int.{pos}
use code_study_example.Shared.Texts.{Text, codes}
use code_study_example.Shared.{suc, ◌≡◌, refl, ◌++◌, some, ◌>>=◌, Option-cases, inl, inr}

module _ (Double : Type 0) where
  add_lem :
      (p : Product Double) (w : World Double)
      → c_add_product p w ≡ some (with_server (add_product Double p w.server) (numbered w))
  unfolding c_add_product
  add_lem p w = rw (product-round_trip Double p) refl

  all_lem : (w : World Double) → c_all_products w ≡ some (all_products Double w.server, numbered w)
  unfolding c_all_products
  all_lem w = rw (products-round_trip Double (all_products Double w.server)) refl

  get_lem :
      (id : Text) (w : World Double)
      → c_get_product id w ≡ (get_product Double id w.server >>= λ p. some (p, numbered w))
  unfolding c_get_product
  get_lem id w = elim (Option-cases (get_product Double id w.server)) [
    | inl h ↦ rw h refl
    | inr (p, h) ↦ rw (h, product-round_trip Double p) refl
  ]

  -- The way through JSON changes nothing: the calls of a client return what the methods of the
  -- server return on its products, and leave the products that these leave; each call takes a new
  -- message number.
  pub client_gets_answers :
      (p : Product Double) (id : Text) (w : World Double)
      → (c_add_product p w ≡ some (with_server (add_product Double p w.server) (numbered w)))
        × (c_get_product id w ≡ (get_product Double id w.server >>= λ q. some (q, numbered w)))
        × (c_all_products w ≡ some (all_products Double w.server, numbered w))
        × ((numbered w).msgid ≡ suc w.msgid)
  unfolding g_msgid
  client_gets_answers p id w = (add_lem p w, get_lem id w, all_lem w, refl)

  -- A product under its id after it was added, whether or not it was accepted.
  abbrev pub Offers : Text → ServerHandle Double → Type 0
  Offers id s = (p : Product Double) × (get_product Double id s ≡ some p)

  -- The worlds of the test after each of its parts.
  abbrev after_add : Product Double → Text → World Double → World Double
  after_add p t w = print t (with_server (add_product Double p w.server) (numbered w)).1

  abbrev after_calls : Double → World Double → World Double
  after_calls price w =
      let w1 = after_add (first_product price) (codes "Adding product: 0xff\n") w in
      let w2 = after_add (second_product price) (codes "Adding product: 0xff2\n") w1 in
      let w3 = print (names_of (all_products Double w2.server) ++ codes "\n") (numbered w2) in
      print (show_int (pos 11) ++ codes "\n") (numbered w3)

  abbrev after_names : Text → World Double → World Double
  after_names address w =
      let key = codes "onMousePressed" in
      let added1 = rpc_add key w in
      let added2 = rpc_add key (print (add_line address key added1.0) added1.1) in
      print (add_line address key added2.0) added2.1

  abbrev test_end : Double → Text → World Double → World Double
  test_end price address w = regiser_cb app_client_evt (
      print (codes "sever registerEventListener\n")
        (numbered (after_names address (after_calls price w))))
