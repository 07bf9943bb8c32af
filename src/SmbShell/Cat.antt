-- ===== src/SmbShell/Cat.antt =====
-- What `prinf_file` of cpp/samba/client/OpenSmbC/examples/smb2-ex.cpp writes.
use code_study_example.SmbShell.{
  Pread, Smb2Context, Machine, rdonly, Shell, Outcome, returns, out_of_fuel, write_0,
}
use code_study_example.SmbShell.Files.{
  print_chunks, opened_file, prinf_file, smb2_status_end_of_file,
}
use code_study_example.Shared.Texts.{Text}
use code_study_example.Shared.{
  ℕ, zero, suc, ◌+◌, ◌-◌, ◌^◌, ◌%◌, ◌<◌, ◌≤◌, ◌≡◌, refl, sym, ap, ◌∙◌, ◌==◌, List, ◌++◌, true,
  false, some, length, drop, arith, append_assoc, length-drop, length-append, drop-drop,
  drop-append,
}

module _ {S H : Type 0} (lib : Smb2Context S H) (machine : Machine) where
  -- What a read at `pos` may give of a file: some bytes from there on with another status than the
  -- end of the file, or all that is left, possibly nothing, with that status.
  pub data ReadAt (content : List ℕ) (pos : ℕ) (r : Pread) : Type 0 where
    more :
        (rest : List ℕ)
        → 1 ≤ length r.bytes
        → (r.status == smb2_status_end_of_file) ≡ false
        → drop pos content ≡ r.bytes ++ rest
        → ReadAt content pos r
    last :
        (r.status == smb2_status_end_of_file) ≡ true
        → drop pos content ≡ r.bytes
        → ReadAt content pos r

  -- A server that does as the protocol says with an open file of this content, in the states
  -- `Serving`.
  pub record Reads (fh : H) (content : List ℕ) (Serving : S → Type 0) : Type 0 where
    pub gives :
        (pos : ℕ) (s : S)
        → Serving s
        → pos ≤ length content
        → ReadAt content pos (lib.smb2_pread fh 1024 pos s).0
    pub goes_on : (pos : ℕ) (s : S) → Serving s → Serving (lib.smb2_pread fh 1024 pos s).1

  -- The state after one read.
  abbrev after_read : H → ℕ → Shell S → Shell S
  after_read fh pos s =
      write_0 (lib.smb2_pread fh 1024 pos s.smb2).0.bytes
        (record s { smb2 = (lib.smb2_pread fh 1024 pos s.smb2).1 })

  print_chunks-more :
      (fuel : ℕ) (fh : H) (pos : ℕ) (s : Shell S)
      → ((lib.smb2_pread fh 1024 pos s.smb2).0.status == smb2_status_end_of_file) ≡ false
      → print_chunks lib machine (suc fuel) fh pos s
        ≡ print_chunks lib machine fuel fh
            ((pos + length (lib.smb2_pread fh 1024 pos s.smb2).0.bytes) % 2 ^ 32)
            (after_read fh pos s)
  unfolding print_chunks
  print_chunks-more fuel fh pos s h = rw h refl

  print_chunks-last :
      (fuel : ℕ) (fh : H) (pos : ℕ) (s : Shell S)
      → ((lib.smb2_pread fh 1024 pos s.smb2).0.status == smb2_status_end_of_file) ≡ true
      → print_chunks lib machine (suc fuel) fh pos s
        ≡ returns
            (record (after_read fh pos s) { smb2 = lib.smb2_close fh (after_read fh pos s).smb2 })
  unfolding print_chunks
  print_chunks-last fuel fh pos s h = rw h refl

  -- What a run has written, and what it has left alone.
  abbrev pub Wrote : List ℕ → Shell S → Outcome S → Type 0
  Wrote bytes s o =
      (s' : Shell S) × (o ≡ returns s') × (s'.written ≡ s.written ++ bytes) × (s'.out ≡ s.out)

  in_32_bits : (n m : ℕ) → n ≤ m → m < 2 ^ 32 → n % 2 ^ 32 ≡ n
  in_32_bits n m h k = omega arith

  print_chunks-Wrote :
      (fuel : ℕ) (fh : H) (content : List ℕ) (Serving : S → Type 0) (pos : ℕ) (s : Shell S)
      → Reads fh content Serving
      → Serving s.smb2
      → pos ≤ length content
      → length content < 2 ^ 32
      → length content - pos < fuel
      → Wrote (drop pos content) s (print_chunks lib machine fuel fh pos s)
  print_chunks-Wrote zero fh content Serving pos s r v p small f = absurd (omega (arith, f))
  print_chunks-Wrote (suc fuel) fh content Serving pos s r v p small f =
      elim (r.gives pos s.smb2 v p) [
        | last e d ↦ (
          _,
          print_chunks-last fuel fh pos s e,
          ap (λ (x : List ℕ). s.written ++ x) (sym d),
          refl,
        )
        | more rest b e d ↦
            let bytes = (lib.smb2_pread fh 1024 pos s.smb2).0.bytes in
            let fits : pos + length bytes ≤ length content =
              omega (arith, length-drop pos content, ap length d, length-append bytes rest) in
            let next = pos + length bytes in
            let rest_is : drop next content ≡ rest =
              sym (drop-drop pos (length bytes) content)
              ∙ ap (drop (length bytes)) d
              ∙ drop-append bytes rest in
            let (s', k, w, o) =
              print_chunks-Wrote fuel fh content Serving next (after_read fh pos s) r
                (r.goes_on pos s.smb2 v) fits small (omega (arith, f, b, fits)) in
            (
              s',
              print_chunks-more fuel fh pos s e
                  ∙ ap (λ n. print_chunks lib machine fuel fh n (after_read fh pos s))
                      (in_32_bits next (length content) fits small)
                  ∙ k,
              w
                  ∙ append_assoc s.written bytes (drop next content)
                  ∙ ap (λ (x : List ℕ). s.written ++ x)
                      (ap (λ (x : List ℕ). bytes ++ x) rest_is ∙ sym d),
              o,
            )
      ]

  -- A file of fewer than 2 ^ 32 bytes that the server opens and reads as the protocol says, in
  -- pieces of any sizes, is written to descriptor 0 whole and once, and nothing is printed
  -- elsewhere; one turn more than the file has bytes is enough.
  pub cat_writes_file :
      (fuel : ℕ) (path : Text) (s : Shell S) (fh : H) (content : List ℕ) (Serving : S → Type 0)
      → (lib.smb2_open path rdonly s.smb2).0 ≡ some fh
      → Serving (lib.smb2_open path rdonly s.smb2).1
      → Reads fh content Serving
      → length content < 2 ^ 32
      → length content < fuel
      → (s' : Shell S) × (prinf_file lib machine fuel path s ≡ returns s')
        × (s'.written ≡ s.written ++ content)
        × (s'.out ≡ s.out)
  unfolding prinf_file opened_file
  cat_writes_file fuel path s fh content Serving o v r small f = rw o (
      print_chunks-Wrote fuel fh content Serving 0
        (record s { smb2 = (lib.smb2_open path rdonly s.smb2).1 }) r v (omega arith) small
        (omega (arith, f)))

  print_chunks_endless :
      (fuel : ℕ) (fh : H) (Broken : S → Type 0) (pos : ℕ) (s : Shell S)
      → ((pos : ℕ) (s : S)
          → Broken s
          → (((lib.smb2_pread fh 1024 pos s).0.status == smb2_status_end_of_file) ≡ false)
            × Broken (lib.smb2_pread fh 1024 pos s).1)
      → Broken s.smb2
      → print_chunks lib machine fuel fh pos s ≡ out_of_fuel
  unfolding print_chunks
  print_chunks_endless zero fh Broken pos s f b = refl
  print_chunks_endless (suc fuel) fh Broken pos s f b =
      print_chunks-more fuel fh pos s (f pos s.smb2 b).0
      ∙ print_chunks_endless fuel fh Broken _ (after_read fh pos s) f (f pos s.smb2 b).1

  -- Where the reads of an open file fail for good, so that none of them meets the end of the file,
  -- `prinf_file` does not come to an end, whatever the fuel.
  pub cat_endless_on_error :
      (path : Text) (s : Shell S) (fh : H) (Broken : S → Type 0)
      → (lib.smb2_open path rdonly s.smb2).0 ≡ some fh
      → Broken (lib.smb2_open path rdonly s.smb2).1
      → ((pos : ℕ) (s : S)
          → Broken s
          → (((lib.smb2_pread fh 1024 pos s).0.status == smb2_status_end_of_file) ≡ false)
            × Broken (lib.smb2_pread fh 1024 pos s).1)
      → (fuel : ℕ) → prinf_file lib machine fuel path s ≡ out_of_fuel
  unfolding prinf_file opened_file
  cat_endless_on_error path s fh Broken o b f fuel =
      rw o (print_chunks_endless fuel fh Broken 0 _ f b)
