-- ===== src/Warehouse/Examples.antt =====
-- The warehouse of cpp/jsonrpc/json-rpc-cxx/examples/main on concrete products.
use code_study_example.Warehouse.{Product, order, cash_carry, new_server}
use code_study_example.Warehouse.Client.{World}
use code_study_example.Warehouse.Refines.{
  Call, call_add, call_get, call_all, run, replay, AllAgree, warehouse_refines,
}
use code_study_example.Shared.Texts.{codes}
use code_study_example.Shared.{ℕ, List, [], ◌∷◌}

abbrev pen : Product ℕ
pen = record { id = codes "b"; price = 3; name = codes "pen"; cat = order }

abbrev ink : Product ℕ
ink = record { id = codes "a"; price = 5; name = codes "ink"; cat = cash_carry }

abbrev calls : List (Call ℕ)
calls = call_add pen ∷ call_add ink ∷ call_add pen ∷ call_get (codes "a") ∷ call_all ∷ []

warehouse_refines_example : AllAgree ℕ (run ℕ calls (new_server ℕ)) (replay ℕ calls [])
warehouse_refines_example = warehouse_refines ℕ calls

abbrev fresh : World ℕ
fresh = record { server = new_server ℕ; pending = []; names = []; msgid = 7; out = [] }
