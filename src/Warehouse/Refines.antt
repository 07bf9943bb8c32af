-- ===== src/Warehouse/Refines.antt =====
-- What the warehouse of cpp/jsonrpc/json-rpc-cxx/examples/main/server.hpp promises to its clients.
use mathlib.Core.List.{Perm}
use mathlib.Core.List.Perm
use code_study_example.Warehouse.{
  Product, find, assign, values, ServerHandle, new_server, add_product, get_product, all_products,
}
use code_study_example.Warehouse.Store.{Ascending, assign-Ascending, find-assign}
use code_study_example.Shared.Texts.{Text, less_text, same_text, same_text→≡}
use code_study_example.Shared.{
  ◌≡◌, refl, sym, ap, ◌∙◌, List, [], ◌∷◌, Bool, true, false, Option, none, some, if◌then◌else◌,
  arith, All, Bool-cases, Option-cases, inl, inr, subst,
}

module _ {V : Type 0} where
  find-other :
      (key k : Text) (w : V) (entries : List (Text × V))
      → same_text key k ≡ false
      → find key ((k, w) ∷ entries) ≡ find key entries
  unfolding find
  find-other key k w entries e = rw e refl

  pub values-assign :
      (key : Text) (v : V) (entries : List (Text × V))
      → find key entries ≡ none
      → Perm (values (assign key v entries)) (v ∷ values entries)
  unfolding find assign
  values-assign key v [] h = Perm.cons v (Perm.refl [])
  values-assign key v ((k, w) ∷ entries) h = elim (Bool-cases (same_text key k)) [
    | inl e ↦ absurd (ground (arith, e, h))
    | inr e ↦ elim (Bool-cases (less_text key k)) [
      | inl l ↦ rw (e, l) (Perm.refl _)
      | inr l ↦
          rw (e, l)
            (Perm.trans
              (Perm.cons w (values-assign key v entries (sym (find-other key k w entries e) ∙ h)))
              (Perm.swap _ _ _))
    ]
  ]

module _ (Double : Type 0) where
  pub data Call : Type 0 where
    call_add : Product Double → Call
    call_get : Text → Call
    call_all : Call

  pub data Answer : Type 0 where
    added : Bool → Answer
    got : Option (Product Double) → Answer
    listed : List (Product Double) → Answer

  -- The server on a sequence of calls.
  abbrev pub run : List Call → ServerHandle Double → List Answer
  run [] s = []
  run (call_add p ∷ calls) s =
      added (add_product Double p s).0 ∷ run calls (add_product Double p s).1
  run (call_get id ∷ calls) s = got (get_product Double id s) ∷ run calls s
  run (call_all ∷ calls) s = listed (all_products Double s) ∷ run calls s

  -- What a client thinks of: the products that were accepted, the newest first.
  abbrev pub offered : Text → List (Product Double) → Option (Product Double)
  offered id [] = none
  offered id (p ∷ ps) = if same_text id p.id then some p else offered id ps

  abbrev taken :
      Product Double
      → Option (Product Double)
      → List (Product Double)
      → Bool × List (Product Double)
  taken p (some found) ps = (false, ps)
  taken p none ps = (true, p ∷ ps)

  abbrev pub replay : List Call → List (Product Double) → List Answer
  replay [] ps = []
  replay (call_add p ∷ calls) ps =
      added (taken p (offered p.id ps) ps).0 ∷ replay calls (taken p (offered p.id ps) ps).1
  replay (call_get id ∷ calls) ps = got (offered id ps) ∷ replay calls ps
  replay (call_all ∷ calls) ps = listed ps ∷ replay calls ps

  -- The ids ascend.
  abbrev pub InOrder : List (Product Double) → Type 0
  InOrder [] = Unit
  InOrder (p ∷ ps) = All (λ q. less_text p.id q.id ≡ true) ps × InOrder ps

  -- The same answers; a list has the same products, by ascending ids.
  abbrev pub Agree : Answer → Answer → Type 0
  Agree (added b) (added c) = b ≡ c
  Agree (got p) (got q) = p ≡ q
  Agree (listed ps) (listed qs) = Perm ps qs × InOrder ps
  Agree _ _ = ⊥

  abbrev pub AllAgree : List Answer → List Answer → Type 0
  AllAgree [] [] = Unit
  AllAgree (a ∷ xs) (b ∷ ys) = Agree a b × AllAgree xs ys
  AllAgree _ _ = ⊥

  record Represents (s : ServerHandle Double) (ps : List (Product Double)) : Type 0 where
    looked_up : (id : Text) → find id s.products ≡ offered id ps
    ascending : Ascending s.products
    own_key : All (λ entry. entry.0 ≡ entry.1.id) s.products
    same_products : Perm (values s.products) ps

  All-ids :
      (key : Text) (entries : List (Text × Product Double))
      → All (λ entry. less_text key entry.0 ≡ true) entries
      → All (λ entry. entry.0 ≡ entry.1.id) entries
      → All (λ q. less_text key q.id ≡ true) (values entries)
  All-ids key [] a o = tt
  All-ids key ((k, p) ∷ entries) a o =
      (subst (λ t. less_text key t ≡ true) o.0 a.0, All-ids key entries a.1 o.1)

  values-InOrder :
      (entries : List (Text × Product Double))
      → Ascending entries
      → All (λ entry. entry.0 ≡ entry.1.id) entries
      → InOrder (values entries)
  values-InOrder [] a o = tt
  values-InOrder ((k, p) ∷ entries) a o = (
    subst (λ t. All (λ q. less_text t q.id ≡ true) (values entries)) o.0
        (All-ids k entries a.0 o.1),
    values-InOrder entries a.1 o.1,
  )

  own_key-assign :
      (p : Product Double) (entries : List (Text × Product Double))
      → All (λ entry. entry.0 ≡ entry.1.id) entries
      → All (λ entry. entry.0 ≡ entry.1.id) (assign p.id p entries)
  unfolding assign
  own_key-assign p [] o = (refl, tt)
  own_key-assign p ((k, q) ∷ entries) o = elim (Bool-cases (same_text p.id k)) [
    | inl h ↦ rw h (sym (same_text→≡ p.id k h), o.1)
    | inr h ↦ elim (Bool-cases (less_text p.id k)) [
      | inl l ↦ rw (h, l) (refl, o)
      | inr l ↦ rw (h, l) (o.0, own_key-assign p entries o.1)
    ]
  ]

  assign-Represents :
      (p : Product Double) (s : ServerHandle Double) (ps : List (Product Double))
      → find p.id s.products ≡ none
      → Represents s ps
      → Represents (record s { products = assign p.id p s.products }) (p ∷ ps)
  assign-Represents p s ps h r = record {
    looked_up = λ id.
        find-assign id p.id p s.products
        ∙ ap (λ o. if same_text id p.id then some p else o) (r.looked_up id);
    ascending = assign-Ascending p.id p s.products r.ascending;
    own_key = own_key-assign p s.products r.own_key;
    same_products = Perm.trans (values-assign p.id p s.products h) (Perm.cons p r.same_products);
  }

  run-replay :
      (calls : List Call) (s : ServerHandle Double) (ps : List (Product Double))
      → Represents s ps
      → AllAgree (run calls s) (replay calls ps)
  unfolding add_product get_product all_products
  run-replay [] s ps r = tt
  run-replay (call_get id ∷ calls) s ps r = (r.looked_up id, run-replay calls s ps r)
  run-replay (call_all ∷ calls) s ps r =
      ((r.same_products, values-InOrder s.products r.ascending r.own_key), run-replay calls s ps r)
  run-replay (call_add p ∷ calls) s ps r = elim (Option-cases (find p.id s.products)) [
    | inl h ↦
        rw (h, sym (r.looked_up p.id) ∙ h)
          (refl, run-replay calls _ (p ∷ ps) (assign-Represents p s ps h r))
    | inr (q, h) ↦ rw (h, sym (r.looked_up p.id) ∙ h) (refl, run-replay calls s ps r)
  ]

  -- The warehouse implements what a client thinks of: on any sequence of calls of a new server
  -- a product is accepted exactly where none with its id was, `GetProduct` gives the one that was
  -- accepted (or reads a reference to nothing where there is none), and `AllProducts` lists the
  -- accepted products, each once, by ascending ids.
  pub warehouse_refines :
      (calls : List Call) → AllAgree (run calls (new_server Double)) (replay calls [])
  unfolding new_server find
  warehouse_refines calls = run-replay calls (new_server Double) [] (record {
    looked_up = λ id. refl;
    ascending = tt;
    own_key = tt;
    same_products = Perm.refl [];
  })
