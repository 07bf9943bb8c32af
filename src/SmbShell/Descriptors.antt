-- ===== src/SmbShell/Descriptors.antt =====
-- The local descriptors that `push` of cpp/samba/client/OpenSmbC/examples/smb2-ex.cpp leaves open.
use code_study_example.SmbShell.{
  Smb2Context, Machine, wronly_creat, Shell, Outcome, returns, exits, undefined_behaviour,
  out_of_fuel, ◌then◌,
}
use code_study_example.SmbShell.Files.{
  push_chunks, push_opened, push_local, push, close_both, smb2_status_success,
}
use code_study_example.Shared.Texts.{Text}
use code_study_example.Shared.{
  ℕ, suc, ◌+◌, ◌^◌, ◌≡◌, refl, ltb, ◌==◌, List, [], ◌∷◌, ◌&&◌, not, Bool, true, false, Option, none,
  some, if◌then◌else◌, length, arith, Option-cases, inl, inr, Bool-cases, subst,
}

abbrev pub is_some : {A : Type 0} → Option A → Bool
is_some none = false
is_some (some a) = true

module _ {S H : Type 0} (lib : Smb2Context S H) (machine : Machine) where
  -- Where a function returns, this many descriptors are open.
  abbrev pub LeavesOpen : ℕ → Outcome S → Type 0
  LeavesOpen n (returns s) = s.open_fds ≡ n
  LeavesOpen n o = Unit

  push_chunks-LeavesOpen :
      (fh : H) (offset : ℕ) (chunks : List (List ℕ)) (s : Shell S)
      → LeavesOpen s.open_fds (push_chunks lib machine fh offset chunks s)
  unfolding push_chunks
  push_chunks-LeavesOpen fh offset [] s = refl
  push_chunks-LeavesOpen fh offset (chunk ∷ chunks) s =
      let next = record s { smb2 = (lib.smb2_pwrite fh chunk offset s.smb2).1 } in
      let rest = push_chunks-LeavesOpen fh (offset + length chunk) chunks next in
      elim (Bool-cases (length chunk == 0)) [
        | inl h ↦ rw h refl
        | inr h ↦
            elim (Bool-cases ((lib.smb2_pwrite fh chunk offset s.smb2).0 == smb2_status_success)) [
              | inr k ↦ rw (h, k) refl
              | inl k ↦ elim (Bool-cases (ltb (offset + length chunk) (2 ^ 31))) [
                | inl l ↦ rw (h, k, l) rest
                | inr l ↦ rw (h, k, l) tt
              ]
            ]
      ]

  close_both-LeavesOpen :
      (fh : H) (n : ℕ) (o : Outcome S)
      → LeavesOpen (suc n) o
      → LeavesOpen n (o then close_both lib machine fh)
  close_both-LeavesOpen fh n (returns s) h = omega (arith, h)
  close_both-LeavesOpen fh n (exits code s) h = tt
  close_both-LeavesOpen fh n undefined_behaviour h = tt
  close_both-LeavesOpen fh n out_of_fuel h = tt

  -- On every branch of `push` that returns, as many descriptors are open as before, and one more
  -- exactly where the local file could be opened and the remote one could not.
  pub push_descriptors :
      (from to : Text) (s : Shell S)
      → LeavesOpen
          (s.open_fds
            + (if is_some (machine.open_local from)
                  && not (is_some (lib.smb2_open to wronly_creat s.smb2).0)
                then 1
                else 0))
          (push lib machine from to s)
  unfolding push push_local push_opened
  push_descriptors from to s =
      let opened = record s {
        smb2 = (lib.smb2_open to wronly_creat s.smb2).1;
        open_fds = suc s.open_fds;
      } in
      let one_more : suc s.open_fds ≡ suc (s.open_fds + 0) = omega arith in
      elim (Option-cases (machine.open_local from)) [
        | inl h ↦ rw h (omega arith)
        | inr (chunks, h) ↦ elim (Option-cases (lib.smb2_open to wronly_creat s.smb2).0) [
          | inl k ↦ rw (h, k) (omega arith)
          | inr (fh, k) ↦
              rw (h, k)
                (close_both-LeavesOpen fh (s.open_fds + 0)
                  (push_chunks lib machine fh 0 chunks opened)
                  (subst (λ n. LeavesOpen n (push_chunks lib machine fh 0 chunks opened)) one_more
                    (push_chunks-LeavesOpen fh 0 chunks opened)))
        ]
      ]
