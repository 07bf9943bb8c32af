-- ===== src/SmbShell/Copy.antt =====
-- What `push` of cpp/samba/client/OpenSmbC/examples/smb2-ex.cpp leaves on the server.
use code_study_example.SmbShell.{Smb2Context, Machine, wronly_creat, Shell, returns, ◌then◌}
use code_study_example.SmbShell.Files.{
  push_chunks, push_opened, push_local, push, close_both, smb2_status_success,
}
use code_study_example.SmbShell.Words.{concat}
use code_study_example.Shared.Texts.{Text}
use code_study_example.Shared.{
  ℕ, suc, ◌+◌, ◌-◌, ◌^◌, ◌<◌, ◌≤◌, ◌≡◌, refl, sym, ap, ◌∙◌, ltb, ◌==◌, List, [], ◌∷◌, ◌++◌, true,
  false, some, if◌then◌else◌, length, take, drop, arith, All, append_assoc, append-nil,
  length-append, take-append, drop-append, drop-drop, lt→ltb,
}

-- The bytes from `offset` on are replaced, or follow where there were none.
abbrev pub overwritten : ℕ → List ℕ → List ℕ → List ℕ
overwritten offset bytes content =
    take offset content ++ bytes ++ drop (offset + length bytes) content

module _ {S H : Type 0} (lib : Smb2Context S H) (machine : Machine) where
  -- A server that does as the protocol says with an open file, whose content in a state is `remote`.
  pub record Stores (fh : H) (remote : S → List ℕ) : Type 0 where
    pub succeeds :
        (bytes : List ℕ) (offset : ℕ) (s : S)
        → (lib.smb2_pwrite fh bytes offset s).0 ≡ smb2_status_success
    pub writes :
        (bytes : List ℕ) (offset : ℕ) (s : S)
        → remote (lib.smb2_pwrite fh bytes offset s).1 ≡ overwritten offset bytes (remote s)
    pub closes : (s : S) → remote (lib.smb2_close fh s) ≡ remote s

  -- What is common to the state before and after.
  abbrev pub SameRest : Shell S → Shell S → Type 0
  SameRest s s' =
      (s'.out ≡ s.out)
      × (s'.err_out ≡ s.err_out)
      × (s'.written ≡ s.written)
      × (s'.open_fds ≡ s.open_fds)

  overwritten-prefix :
      (done bytes old : List ℕ)
      → overwritten (length done) bytes (done ++ drop (length done) old)
        ≡ (done ++ bytes) ++ drop (length (done ++ bytes)) old
  overwritten-prefix done bytes old =
      ap
        (λ (x : List ℕ).
          x ++ bytes ++ drop (length done + length bytes) (done ++ drop (length done) old))
        (take-append done (drop (length done) old))
      ∙ ap (λ (x : List ℕ). done ++ bytes ++ x)
          (sym (drop-drop (length done) (length bytes) (done ++ drop (length done) old))
            ∙ ap (drop (length bytes)) (drop-append done (drop (length done) old))
            ∙ drop-drop (length done) (length bytes) old
            ∙ ap (λ n. drop n old) (sym (length-append done bytes)))

  push_chunks-step :
      (fh : H) (offset : ℕ) (chunk : List ℕ) (chunks : List (List ℕ)) (s : Shell S)
      → 1 ≤ length chunk
      → (lib.smb2_pwrite fh chunk offset s.smb2).0 ≡ smb2_status_success
      → offset + length chunk < 2 ^ 31
      → push_chunks lib machine fh offset (chunk ∷ chunks) s
        ≡ push_chunks lib machine fh
            (offset + length chunk)
            chunks
            (record s { smb2 = (lib.smb2_pwrite fh chunk offset s.smb2).1 })
  unfolding push_chunks
  push_chunks-step fh offset chunk chunks s some_bytes ok small =
      let not_empty : (length chunk == 0) ≡ false = ground arith in
      let in_range : ltb (offset + length chunk) (2 ^ 31) ≡ true = lt→ltb _ _ small in
      rw (not_empty, ok, in_range) refl

  push_chunks-Stores :
      (fh : H) (remote : S → List ℕ) (done old : List ℕ) (chunks : List (List ℕ)) (s : Shell S)
      → Stores fh remote
      → All (λ chunk. 1 ≤ length chunk) chunks
      → length done + length (concat chunks) < 2 ^ 31
      → remote s.smb2 ≡ done ++ drop (length done) old
      → (s' : Shell S) × (push_chunks lib machine fh (length done) chunks s ≡ returns s')
        × (remote s'.smb2 ≡ (done ++ concat chunks) ++ drop (length (done ++ concat chunks)) old)
        × SameRest s s'
  unfolding push_chunks
  push_chunks-Stores fh remote done old [] s w a small e =
      (s, refl, rw (append-nil done) e, (refl, refl, refl, refl))
  push_chunks-Stores fh remote done old (chunk ∷ chunks) s w a small e =
      let next = record s { smb2 = (lib.smb2_pwrite fh chunk (length done) s.smb2).1 } in
      let (s', r, content, same) =
        push_chunks-Stores fh remote (done ++ chunk) old chunks next w a.1
          (omega (arith, small, length-append done chunk, length-append chunk (concat chunks)))
          (w.writes chunk (length done) s.smb2
            ∙ ap (overwritten (length done) chunk) e
            ∙ overwritten-prefix done chunk old) in
      (
        s',
        push_chunks-step fh (length done) chunk chunks s a.0 (w.succeeds chunk (length done) s.smb2)
              (omega (arith, small, length-append chunk (concat chunks)))
            ∙ ap (λ n. push_chunks lib machine fh n chunks next) (sym (length-append done chunk))
            ∙ r,
        content
            ∙ ap (λ (x : List ℕ). x ++ drop (length x) old)
                (append_assoc done chunk (concat chunks)),
        same,
      )

  -- Where the local file can be read in chunks of some bytes each, fewer than 2 ^ 31 bytes in all,
  -- and the server opens the remote file and does as the protocol says, `push` returns, has printed
  -- nothing and has closed its descriptor. The remote file then begins with the bytes of
  -- the local file; what it held beyond that length stays in it.
  pub push_overwrites :
      (from to : Text) (s : Shell S) (chunks : List (List ℕ)) (fh : H) (remote : S → List ℕ)
      → machine.open_local from ≡ some chunks
      → (lib.smb2_open to wronly_creat s.smb2).0 ≡ some fh
      → remote (lib.smb2_open to wronly_creat s.smb2).1 ≡ remote s.smb2
      → Stores fh remote
      → All (λ chunk. 1 ≤ length chunk) chunks
      → length (concat chunks) < 2 ^ 31
      → (s' : Shell S) × (push lib machine from to s ≡ returns s')
        × (remote s'.smb2 ≡ concat chunks ++ drop (length (concat chunks)) (remote s.smb2))
        × SameRest s s'
  unfolding push push_local push_opened
  push_overwrites from to s chunks fh remote l o kept w a small =
      let opened = record s {
        smb2 = (lib.smb2_open to wronly_creat s.smb2).1;
        open_fds = suc s.open_fds;
      } in
      let (s', r, content, same) =
        push_chunks-Stores fh remote [] (remote s.smb2) chunks opened w a (omega (arith, small))
          kept in
      (
        record s' { smb2 = lib.smb2_close fh s'.smb2; open_fds = s'.open_fds - 1 },
        rw (l, o) (ap (λ x. x then close_both lib machine fh) r),
        w.closes s'.smb2 ∙ content,
        (same.0, same.1, same.2, omega (arith, same.3)),
      )
