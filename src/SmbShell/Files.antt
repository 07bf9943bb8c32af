-- ===== src/SmbShell/Files.antt =====
-- `prinf_file`, `push` and `get_security` of cpp/samba/client/OpenSmbC/examples/smb2-ex.cpp.
use code_study_example.SmbShell.{
  Smb2Context, Machine, rdonly, wronly_creat, Shell, Outcome, returns, out_of_fuel,
  undefined_behaviour, ◌then◌, printf, eprintf, write_0,
}
use code_study_example.Shared.Texts.{Text, codes, decimal}
use code_study_example.Shared.{
  ℕ, zero, suc, ◌+◌, ◌-◌, ◌^◌, ◌%◌, ltb, ◌==◌, List, [], ◌∷◌, ◌++◌, Option, none, some,
  if◌then◌else◌, length,
}

abbrev pub smb2_status_success : ℕ
smb2_status_success = 0

-- 0xC0000011.
abbrev pub smb2_status_end_of_file : ℕ
smb2_status_end_of_file = 3221225489

module _ {S H : Type 0} (lib : Smb2Context S H) (machine : Machine) where
  -- The loop, on fuel, with `pos` of 32 bits. It writes `byte_count` bytes after each read, also
  -- after the one that meets the end.
  unfoldable pub print_chunks : ℕ → H → ℕ → Shell S → Outcome S
  print_chunks zero fh pos s = out_of_fuel
  print_chunks (suc fuel) fh pos s =
      let (chunk, smb2) = lib.smb2_pread fh 1024 pos s.smb2 in
      let s' = write_0 chunk.bytes (record s { smb2 = smb2 }) in
      let rest = print_chunks fuel fh ((pos + length chunk.bytes) % 2 ^ 32) s' in
      if chunk.status == smb2_status_end_of_file
      then returns (record s' { smb2 = lib.smb2_close fh s'.smb2 })
      else rest

  unfoldable pub opened_file : ℕ → Option H → Shell S → Outcome S
  opened_file fuel none s =
      returns (printf (codes "smb2_open failed. " ++ lib.err s.smb2 ++ codes "\n") s)
  opened_file fuel (some fh) s = print_chunks fuel fh 0 s

  unfoldable pub prinf_file : ℕ → Text → Shell S → Outcome S
  prinf_file fuel path s =
      let (fh, smb2) = lib.smb2_open path rdonly s.smb2 in
      opened_file fuel fh (record s { smb2 = smb2 })

  -- What `push` prints where a write fails. The offset is printed as an unsigned number, too.
  unfoldable pub pwrite_failed : ℕ → S → Text
  pwrite_failed offset smb2 =
      codes "smb2_pwrite failed at offset "
      ++ decimal offset
      ++ codes " ("
      ++ decimal offset
      ++ codes " bytes written so far): "
      ++ (if length (lib.err smb2) == 0 then codes "Unknown error" else lib.err smb2)
      ++ codes "\n"

  -- The loop of `push` over the chunks that `read` gives, up to the first of no bytes. `offset` is an
  -- `int`, whose overflow is undefined.
  unfoldable pub push_chunks : H → ℕ → List (List ℕ) → Shell S → Outcome S
  push_chunks fh offset [] s = returns s
  push_chunks fh offset (chunk ∷ chunks) s =
      let (status, smb2) = lib.smb2_pwrite fh chunk offset s.smb2 in
      let s' = record s { smb2 = smb2 } in
      let rest = push_chunks fh (offset + length chunk) chunks s' in
      if length chunk == 0
      then returns s
      else (if status == smb2_status_success
          then (if ltb (offset + length chunk) (2 ^ 31) then rest else undefined_behaviour)
          else returns (eprintf (pwrite_failed offset smb2) s'))

  -- `close(fd)` and `smb2_close`.
  abbrev pub close_both : H → Shell S → Outcome S
  close_both fh s =
      returns (record s { smb2 = lib.smb2_close fh s.smb2; open_fds = s.open_fds - 1 })

  unfoldable pub push_opened : List (List ℕ) → Option H → Shell S → Outcome S
  push_opened chunks none s =
      returns (printf (codes "smb2_open failed. " ++ lib.err s.smb2 ++ codes "\n") s)
  push_opened chunks (some fh) s = push_chunks fh 0 chunks s then close_both fh

  unfoldable pub push_local : Text → Text → Option (List (List ℕ)) → Shell S → Outcome S
  push_local from to none s = returns (
      printf
        (codes "Failed to open local file "
          ++ from
          ++ codes " ("
          ++ machine.strerror from
          ++ codes ")\n")
        s)
  push_local from to (some chunks) s =
      let (fh, smb2) = lib.smb2_open to wronly_creat s.smb2 in
      push_opened chunks fh (record s { smb2 = smb2; open_fds = suc s.open_fds })

  unfoldable pub push : Text → Text → Shell S → Outcome S
  push from to s = push_local from to (machine.open_local from) s

  unfoldable pub get_security : Text → Shell S → Outcome S
  get_security pathname s =
      let (status, descriptor, smb2) = lib.smb2_get_security pathname s.smb2 in
      let s' = record s { smb2 = smb2 } in
      if status == 0
      then returns (printf (lib.security_descriptor descriptor) s')
      else returns
          (printf (codes "Failed to get security descriptor - " ++ lib.err smb2 ++ codes "\n") s')
