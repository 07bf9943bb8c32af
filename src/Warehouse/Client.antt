-- ===== src/Warehouse/Client.antt =====
-- The client of the warehouse: cpp/jsonrpc/json-rpc-cxx/examples/main/client.hpp, and
-- `registerEventListener` of server.hpp.
use code_study_example.Warehouse.{
  cash_carry, Product, ServerHandle, add_product, get_product, all_products, calc, g_msgid,
}
use code_study_example.Warehouse.Json.{
  EventListener, product_to_json, product_from_json, products_from_json, listener_to_json,
  listener_from_json,
}
use code_study_example.Shared.Int.{ℤ, pos, negsuc}
use code_study_example.Shared.Texts.{Text, codes, same_text, decimal}
use code_study_example.Shared.{
  ℕ, suc, List, [], ◌∷◌, ◌++◌, ◌||◌, Bool, false, Option, some, ◌>>=◌, if◌then◌else◌, map, not,
}

-- A callback that a thread of the server is going to send: a call, or a notification.
pub data Callback : Type 0 where
  call_method : Text → List ℕ → Callback
  call_notification : Text → List ℕ → Callback

-- Client and server: the server's products and the callbacks that its threads are going to send,
-- the names that the client's JSON-RPC server knows, the counter of `g_msgid`, and what was printed.
pub record World (Double : Type 0) : Type 0 where
  pub server : ServerHandle Double
  pub pending : List Callback
  pub names : List Text
  pub msgid : ℕ
  pub out : Text

abbrev pub known : Text → List Text → Bool
known name [] = false
known name (n ∷ ns) = same_text name n || known name ns

-- `std::cout` of a bool after `std::boolalpha`, and of an int.
abbrev pub show_bool : Bool → Text
show_bool b = if b then codes "true" else codes "false"

abbrev pub show_int : ℤ → Text
show_int (pos n) = decimal n
show_int (negsuc n) = codes "-" ++ decimal (suc n)

unfoldable pub app_client_evt : EventListener
app_client_evt = record { name = codes "123"; handle_name = codes "EventListener" }

-- `add:  <key> <res><address>`.
abbrev pub add_line : Text → Text → Bool → Text
add_line address key res =
    codes "add:  " ++ key ++ codes " " ++ show_bool res ++ address ++ codes "\n"

module _ {Double : Type 0} where
  abbrev pub print : Text → World Double → World Double
  print t w = record w { out = w.out ++ t }

  -- Each call takes a new number.
  abbrev pub numbered : World Double → World Double
  numbered w = record w { msgid = (g_msgid w.msgid).1 }

  -- `Add` of a JSON-RPC server: a name that is known is not added again.
  abbrev pub rpc_add : Text → World Double → Bool × World Double
  rpc_add name w = (
    not (known name w.names),
    record w { names = if known name w.names then w.names else name ∷ w.names },
  )

  abbrev pub with_server : Bool × ServerHandle Double → World Double → Bool × World Double
  with_server (accepted, s) w = (accepted, record w { server = s })

  -- `CallMethod<…>(g_msgid(), …)`: the argument and the result go through JSON. `none` is an
  -- exception, or undefined behaviour of the server.
  unfoldable pub c_add_product : Product Double → World Double → Option (Bool × World Double)
  c_add_product p w = do
    q ← product_from_json (product_to_json p)
    some (with_server (add_product Double q w.server) (numbered w))

  unfoldable pub c_get_product : Text → World Double → Option (Product Double × World Double)
  c_get_product id w = do
    p ← get_product Double id w.server
    q ← product_from_json (product_to_json p)
    some (q, numbered w)

  unfoldable pub c_all_products : World Double → Option (List (Product Double) × World Double)
  c_all_products w = do
    ps ← products_from_json (map product_to_json (all_products Double w.server))
    some (ps, numbered w)

  unfoldable pub c_calc : ℤ → ℤ → World Double → Option (ℤ × World Double)
  c_calc a b w = do n ← calc a b; some (n, numbered w)

  -- `regiserCb`: two threads wait, 2 s and 2.5 s, and then send. The listener that is passed is not
  -- read.
  unfoldable pub regiser_cb : EventListener → World Double → World Double
  regiser_cb evt w = record w {
    pending =
        w.pending
        ++ call_method (codes "onMousePressed") (100 ∷ 100 ∷ [])
          ∷ call_notification (codes "onMouseRelease") (100 ∷ 99 ∷ [])
          ∷ [];
  }

  unfoldable pub register_event_listener : EventListener → World Double → Option (World Double)
  register_event_listener evt w = do
    e ← listener_from_json (listener_to_json {Double = Double} evt)
    some (regiser_cb e (print (codes "sever registerEventListener\n") (numbered w)))

  abbrev pub names_of : List (Product Double) → Text
  names_of [] = []
  names_of (p ∷ ps) = p.name ++ codes "\n" ++ names_of ps

  abbrev pub first_product : Double → Product Double
  first_product price = record {
    id = codes "0xff";
    price = price;
    name = codes "Product hello";
    cat = cash_carry;
  }

  abbrev pub second_product : Double → Product Double
  second_product price = record (first_product price) {
    id = codes "0xff2";
    name = codes "Product world";
  }

  -- `test`, on a price of 22.4. `address` is the address of the client's JSON-RPC server in
  -- decimals.
  unfoldable pub test : Double → Text → World Double → Option (World Double)
  test price address w0 = do
    (added1, w1) ← c_add_product (first_product price) w0
    (added2, w2) ← c_add_product (second_product price) (print (codes "Adding product: 0xff\n") w1)
    (all, w3) ← c_all_products (print (codes "Adding product: 0xff2\n") w2)
    (ret, w4) ← c_calc (pos 5) (pos 6) (print (names_of all ++ codes "\n") w3)
    let w5 = print (show_int ret ++ codes "\n") w4
    let key = codes "onMousePressed"
    let (res6, w6) = rpc_add key w5
    let (res7, w7) = rpc_add key (print (add_line address key res6) w6)
    register_event_listener app_client_evt (print (add_line address key res7) w7)
