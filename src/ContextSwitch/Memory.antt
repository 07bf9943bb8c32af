-- ===== src/ContextSwitch/Memory.antt =====
-- Memory in 64-bit words, each under the address of its first byte, for cpp/cppcoro/context_switch.h.
use code_study_example.Shared.{
  ℕ, zero, suc, ◌+◌, ◌*◌, ◌≤◌, ◌<◌, ◌≡◌, refl, ◌⊎◌, List, [], ◌∷◌, arith, ◌==◌, if◌then◌else◌,
  length,
}

abbrev pub Memory : Type 0
Memory = ℕ → ℕ

unfoldable pub store : ℕ → ℕ → Memory → Memory
store a v m p = if p == a then v else m p

-- The words `vs` one after the other from `base + off` on.
unfoldable pub store_words : ℕ → ℕ → List ℕ → Memory → Memory
unfolding store
store_words base off [] m = m
store_words base off (v ∷ vs) m = store_words base (off + 8) vs (store (base + off) v m)

unfoldable pub load_words : ℕ → ℕ → ℕ → Memory → List ℕ
load_words zero base off m = []
load_words (suc n) base off m = m (base + off) ∷ load_words n base (off + 8) m

store_words_outside :
    (base off : ℕ) (vs : List ℕ) (m : Memory) (p : ℕ)
    → (p < base + off) ⊎ (base + off + 8 * length vs ≤ p)
    → store_words base off vs m p ≡ m p
unfolding store_words
store_words_outside base off [] m p h = refl
store_words_outside base off (v ∷ vs) m p h =
    ground (arith, store_words_outside base (off + 8) vs (store (base + off) v m) p)

-- What was stored is what is loaded.
pub load-store_words :
    (base off : ℕ) (vs : List ℕ) (m : Memory)
    → load_words (length vs) base off (store_words base off vs m) ≡ vs
unfolding store_words load_words
load-store_words base off [] m = refl
load-store_words base off (v ∷ vs) m = ground (
  arith,
  load-store_words base (off + 8) vs (store (base + off) v m),
  store_words_outside base (off + 8) vs (store (base + off) v m) (base + off),
)

-- A load from `b` on sees nothing of a store of `vs` at `a` if the two ranges do not meet.
pub load-store_disjoint :
    (a b n off : ℕ) (vs : List ℕ) (m : Memory)
    → (a + 8 * length vs ≤ b + off) ⊎ (b + off + 8 * n ≤ a)
    → load_words n b off (store_words a 0 vs m) ≡ load_words n b off m
unfolding load_words
load-store_disjoint a b zero off vs m h = refl
load-store_disjoint a b (suc n) off vs m h =
    ground (arith, store_words_outside a 0 vs m (b + off), load-store_disjoint a b n (off + 8) vs m)

-- Two memories with the same words at a range give the same load.
pub load_words_cong :
    (b n off : ℕ) (m m' : Memory)
    → ((p : ℕ) → b + off ≤ p → p < b + off + 8 * n → m p ≡ m' p)
    → load_words n b off m ≡ load_words n b off m'
unfolding load_words
load_words_cong b zero off m m' h = refl
load_words_cong b (suc n) off m m' h = ground (
  arith,
  h (b + off),
  load_words_cong b n (off + 8) m m' (λ p l u. h p (omega arith) (omega arith)),
)
