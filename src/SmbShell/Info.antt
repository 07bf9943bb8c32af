-- ===== src/SmbShell/Info.antt =====
-- `show_info` of cpp/samba/client/OpenSmbC/examples/smb2-ex.cpp.
use code_study_example.SmbShell.{
  Smb2Stat, Smb2FileInfoAll, Smb2Statvfs, Smb2Context, Machine, Shell, Outcome, returns, exits,
  undefined_behaviour, ◌then◌, printf,
}
use code_study_example.SmbShell.Listing.{type_name, epoch}
use code_study_example.Shared.Texts.{Text, codes, decimal, hexadecimal, right_justified}
use code_study_example.Shared.{
  ℕ, ◌+◌, ◌-◌, ◌/◌, ◌%◌, ◌^◌, ltb, ◌==◌, List, [], ◌∷◌, ◌++◌, Bool, Option, none, some,
  if◌then◌else◌,
}

-- `SMBTimeToUTime`, on 64 bits.
unfoldable pub smb_time_to_utime : ℕ → ℕ
smb_time_to_utime smb_time = (smb_time + (2 ^ 64 - epoch)) % 2 ^ 64 / 10000000

-- `flags & flag`, for a flag that is a power of two.
unfoldable pub has_flag : ℕ → ℕ → Bool
has_flag flags flag = flags / flag % 2 == 1

-- The flags in the order in which they are tested, each with the text that is printed for it.
unfoldable pub attribute_names : List (ℕ × Text)
attribute_names =
    (1, codes "READONLY ")
    ∷ (2, codes "HIDDEN ")
    ∷ (4, codes "SYSTEM ")
    ∷ (16, codes "DIRECTORY ")
    ∷ (32, codes "ARCHIVE ")
    ∷ (128, codes "NORMAL ")
    ∷ (256, codes "TMP ")
    ∷ (512, codes "SPARSE ")
    ∷ (1024, codes "REPARSE ")
    ∷ (2048, codes "COMPRESSED ")
    ∷ (4096, codes "OFFLINE ")
    ∷ (8192, codes "NOT_CONTENT_INDEXED ")
    ∷ (16384, codes "ENCRYPTED ")
    ∷ (32768, codes "INTEGRITY_STREAM ")
    ∷ (131072, codes "NO_SCRUB_DATA ")
    ∷ []

unfoldable pub directory_access_names : List (ℕ × Text)
directory_access_names =
    (1, codes "LIST_DIRECTORY ")
    ∷ (2, codes "ADD_FILE ")
    ∷ (4, codes "ADD_SUBDIRECTORY ")
    ∷ (32, codes "TRAVERSE ")
    ∷ []

unfoldable pub file_access_names : List (ℕ × Text)
file_access_names =
    (1, codes "READ_DATA ")
    ∷ (2, codes "WRITE_DATA ")
    ∷ (4, codes "APPEND_DATA ")
    ∷ (32, codes "FILE_EXECUTE ")
    ∷ []

unfoldable pub access_names : List (ℕ × Text)
access_names =
    (8, codes "READ_EA ")
    ∷ (16, codes "WRITE_EA ")
    ∷ (128, codes "READ_ATTRIBUTES ")
    ∷ (256, codes "WRITE_ATTRIBUTES ")
    ∷ (64, codes "DELETE_CHILD ")
    ∷ (65536, codes "DELETE ")
    ∷ (131072, codes "READ_CONTROL ")
    ∷ (262144, codes "WRITE_DACL ")
    ∷ (524288, codes "WRITE_OWNER ")
    ∷ (1048576, codes "SYNCHRONIZE ")
    ∷ (16777216, codes "ACCESS_SYSTEM_SECURITY ")
    ∷ (33554432, codes "MAXIMUM_ALLOWED ")
    ∷ (268435456, codes "GENERIC_ALL ")
    ∷ (536870912, codes "GENERIC_EXECUTE ")
    ∷ (1073741824, codes "GENERIC_WRITE ")
    ∷ (2147483648, codes "GENERIC_READ ")
    ∷ []

unfoldable pub mode_names : List (ℕ × Text)
mode_names =
    (2, codes "WRITE_THROUGH ")
    ∷ (4, codes "SEQUENTIAL_ONLY ")
    ∷ (8, codes "NO_INTERMEDIATE_BUFFERING ")
    ∷ (16, codes "SYNCHRONOUS_IO_ALERT ")
    ∷ (32, codes "SYNCHRONOUS_IO_NONALERT ")
    ∷ (4096, codes "DELETE_ON_CLOSE ")
    ∷ []

unfoldable pub flag_text : ℕ → List (ℕ × Text) → Text
flag_text flags [] = []
flag_text flags ((flag, name) ∷ names) =
    let rest = flag_text flags names in if has_flag flags flag then name ++ rest else rest

-- `%d` of a 32-bit number.
unfoldable pub decimal_int : ℕ → Text
decimal_int n = if ltb n (2 ^ 31) then decimal n else codes "-" ++ decimal (2 ^ 32 - n)

abbrev pub yes_no : Bool → Text
yes_no b = if b then codes "YES" else codes "NO"

module _ {S H : Type 0} (lib : Smb2Context S H) (machine : Machine) where
  unfoldable pub date_line : Text → ℕ → Text
  date_line title smb_time = title ++ machine.asctime (smb_time_to_utime smb_time)

  -- What is printed of a `smb2_file_info_all`.
  unfoldable pub info_all_text : Smb2FileInfoAll → Text
  info_all_text fs =
      codes "Attributes: "
      ++ flag_text fs.file_attributes attribute_names
      ++ codes "\n"
      ++ date_line (codes "Creation Time:    ") fs.smb2_crtime
      ++ date_line (codes "Last Access Time: ") fs.smb2_atime
      ++ date_line (codes "Last Write Time:  ") fs.smb2_mtime
      ++ date_line (codes "Change Time:      ") fs.smb2_ctime
      ++ codes "Allocation Size: "
      ++ decimal fs.allocation_size
      ++ codes "\nEnd Of File:     "
      ++ decimal fs.end_of_file
      ++ codes "\nNumber Of Links: "
      ++ decimal_int fs.smb2_nlink
      ++ codes "\nDelete Pending:  "
      ++ yes_no fs.delete_pending
      ++ codes "\nDirectory:       "
      ++ yes_no fs.directory
      ++ codes "\nInode Number: 0x"
      ++ right_justified 16 48 (hexadecimal fs.smb2_ino)
      ++ codes "\nEA Size : "
      ++ decimal_int fs.ea_size
      ++ codes "\nAccess Flags: "
      ++ (if fs.directory
          then flag_text fs.access_flags directory_access_names
          else flag_text fs.access_flags file_access_names)
      ++ flag_text fs.access_flags access_names
      ++ codes "\nMode: "
      ++ flag_text fs.access_flags mode_names
      ++ codes "\n"

  unfoldable pub stat_text : Smb2Stat → Text
  stat_text st =
      codes "Type:"
      ++ type_name st.smb2_type
      ++ codes "\nSize:"
      ++ decimal st.smb2_size
      ++ codes "\nInode:0x"
      ++ hexadecimal st.smb2_ino
      ++ codes "\nLinks:"
      ++ decimal st.smb2_nlink
      ++ codes "\n"
      ++ date_line (codes "Atime:") st.smb2_atime
      ++ date_line (codes "Mtime:") st.smb2_mtime
      ++ date_line (codes "Ctime:") st.smb2_ctime

  unfoldable pub statvfs_text : Smb2Statvfs → Text
  statvfs_text vfs =
      codes "Blocksize:"
      ++ decimal_int vfs.f_bsize
      ++ codes "\nBlocks:"
      ++ decimal vfs.f_blocks
      ++ codes "\nFree:"
      ++ decimal vfs.f_bfree
      ++ codes "\nAvail:"
      ++ decimal vfs.f_bavail
      ++ codes "\n"

  -- A structure on the stack is printed; where it was not filled in its fields are indeterminate.
  abbrev pub print_struct : {A : Type 0} → (A → Text) → Option A → Shell S → Outcome S
  print_struct text none s = undefined_behaviour
  print_struct text (some a) s = returns (printf (text a) s)

  unfoldable pub show_info_all : Text → Shell S → Outcome S
  show_info_all path s =
      let (status, fs, smb2) = lib.smb2_getinfo_all path s.smb2 in
      let s' = record (printf (codes "\n ---------- \n stat_all: \n") s) { smb2 = smb2 } in
      if status == 0
      then print_struct info_all_text fs s'
      else exits 10 (printf (codes "failed waiting for a reply. " ++ lib.err smb2 ++ codes "\n") s')

  -- The status of `smb2_stat` and of `smb2_statvfs` is a `uint32_t`, which the shell compares by
  -- `< 0`.
  unfoldable pub show_statvfs : Text → Shell S → Outcome S
  show_statvfs path s =
      let (status, vfs, smb2) = lib.smb2_statvfs path s.smb2 in
      let s' = record (printf (codes "\n ---------- \n vfs: \n") s) { smb2 = smb2 } in
      if ltb status 0
      then returns (printf (codes "smb2_statvfs failed. " ++ lib.err smb2 ++ codes "\n") s')
      else print_struct statvfs_text vfs s'

  unfoldable pub show_stat : Text → Shell S → Outcome S
  show_stat path s =
      let (status, st, smb2) = lib.smb2_stat path s.smb2 in
      let s' = record (printf (codes "\n ---------- \n stat: \n") s) { smb2 = smb2 } in
      if ltb status 0
      then returns (printf (codes "smb2_stat failed. " ++ lib.err smb2 ++ codes "\n") s')
      else (print_struct stat_text st s' then show_statvfs path)

  unfoldable pub show_info : Text → Shell S → Outcome S
  show_info path s = show_info_all path s then show_stat path
