-- ===== src/Warehouse/Store.antt =====
-- The std::map of the warehouse of cpp/jsonrpc/json-rpc-cxx/examples/main/server.hpp.
use code_study_example.Warehouse.{find, assign}
use code_study_example.Shared.Texts.{Text, less_text, same_text, same_text_refl, same_text→≡}
use code_study_example.Shared.{
  ◌≡◌, refl, sym, ap, ◌∙◌, List, [], ◌∷◌, ◌&&◌, Bool, true, false, some, if◌then◌else◌, arith, All,
  Bool-cases, inl, inr,
}

pub less_text-trichotomy :
    (s t : Text) → same_text s t ≡ false → less_text s t ≡ false → less_text t s ≡ true
less_text-trichotomy [] [] h k = ground arith
less_text-trichotomy [] (d ∷ ds) h k = ground arith
less_text-trichotomy (c ∷ cs) [] h k = refl
less_text-trichotomy (c ∷ cs) (d ∷ ds) h k = ground (arith, less_text-trichotomy cs ds)

pub less_text_trans :
    (s t u : Text) → less_text s t ≡ true → less_text t u ≡ true → less_text s u ≡ true
less_text_trans [] [] u h k = k
less_text_trans [] (d ∷ ds) [] h k = k
less_text_trans [] (d ∷ ds) (e ∷ es) h k = refl
less_text_trans (c ∷ cs) [] u h k = ground arith
less_text_trans (c ∷ cs) (d ∷ ds) [] h k = k
less_text_trans (c ∷ cs) (d ∷ ds) (e ∷ es) h k = ground (arith, less_text_trans cs ds es)

pub same_text_false : (s t u : Text) → same_text s t ≡ true → same_text u s ≡ same_text u t
same_text_false s t u h = ap (same_text u) (same_text→≡ s t h)

if_absorb :
    {A : Type 0} (b : Bool) (x y z : A)
    → (if b then x else z) ≡ (if b then x else (if b then y else z))
if_absorb true x y z = refl
if_absorb false x y z = refl

if_swap :
    {A : Type 0} (a b : Bool) (x y z : A)
    → (a && b) ≡ false
    → (if a then x else (if b then y else z)) ≡ (if b then y else (if a then x else z))
if_swap true true x y z h = ground arith
if_swap true false x y z h = refl
if_swap false b x y z h = refl

-- One text is not two different keys.
one_key : (id key k : Text) → same_text key k ≡ false → (same_text id k && same_text id key) ≡ false
one_key id key k h = elim (Bool-cases (same_text id k)) [
  | inr a ↦ rw a refl
  | inl a ↦ elim (Bool-cases (same_text id key)) [
    | inr b ↦ rw (a, b) refl
    | inl b ↦
        let same : key ≡ k = sym (same_text→≡ id key b) ∙ same_text→≡ id k a in
        absurd (ground (arith, h, same_text_refl key, ap (same_text key) same))
  ]
]

module _ {V : Type 0} where
  -- The keys ascend, so that none occurs twice.
  abbrev pub Ascending : List (Text × V) → Type 0
  Ascending [] = Unit
  Ascending ((k, v) ∷ entries) =
      All (λ entry. less_text k entry.0 ≡ true) entries × Ascending entries

  pub All-assign :
      (P : Text → Type 0) (key : Text) (v : V) (entries : List (Text × V))
      → P key
      → All (λ entry. P entry.0) entries
      → All (λ entry. P entry.0) (assign key v entries)
  unfolding assign
  All-assign P key v [] p a = (p, tt)
  All-assign P key v ((k, w) ∷ entries) p a = elim (Bool-cases (same_text key k)) [
    | inl h ↦ rw h a
    | inr h ↦ elim (Bool-cases (less_text key k)) [
      | inl l ↦ rw (h, l) (p, a)
      | inr l ↦ rw (h, l) (a.0, All-assign P key v entries p a.1)
    ]
  ]

  below-All :
      (key k : Text) (entries : List (Text × V))
      → less_text key k ≡ true
      → All (λ entry. less_text k entry.0 ≡ true) entries
      → All (λ entry. less_text key entry.0 ≡ true) entries
  below-All key k [] l a = tt
  below-All key k ((j, w) ∷ entries) l a =
      (less_text_trans key k j l a.0, below-All key k entries l a.1)

  pub assign-Ascending :
      (key : Text) (v : V) (entries : List (Text × V))
      → Ascending entries
      → Ascending (assign key v entries)
  unfolding assign
  assign-Ascending key v [] a = (tt, tt)
  assign-Ascending key v ((k, w) ∷ entries) a = elim (Bool-cases (same_text key k)) [
    | inl h ↦ rw h a
    | inr h ↦ elim (Bool-cases (less_text key k)) [
      | inl l ↦ rw (h, l) ((l, below-All key k entries l a.0), a)
      | inr l ↦
          rw (h, l)
            (
              All-assign (λ j. less_text k j ≡ true) key v entries (less_text-trichotomy key k h l)
                  a.0,
              assign-Ascending key v entries a.1,
            )
    ]
  ]

  pub find-assign :
      (id key : Text) (v : V) (entries : List (Text × V))
      → find id (assign key v entries) ≡ (if same_text id key then some v else find id entries)
  unfolding find assign
  find-assign id key v [] = refl
  find-assign id key v ((k, w) ∷ entries) = elim (Bool-cases (same_text key k)) [
    | inl h ↦
        rw (h, same_text_false key k id h)
          (if_absorb (same_text id k) (some v) (some w) (find id entries))
    | inr h ↦ elim (Bool-cases (less_text key k)) [
      | inl l ↦ rw (h, l) refl
      | inr l ↦
          rw (h, l, find-assign id key v entries)
            (if_swap (same_text id k) (same_text id key) (some w) (some v) (find id entries)
              (one_key id key k h))
    ]
  ]
