-- ===== src/SmbShell/Listing.antt =====
-- `usage`, `show_dir` and `print_sharelist` of cpp/samba/client/OpenSmbC/examples/smb2-ex.cpp.
use code_study_example.SmbShell.{
  Smb2Dirent, Smb2Shareinfo, Smb2Context, Machine, Shell, Outcome, returns, exits, printf, eprintf,
}
use code_study_example.Shared.Texts.{
  Text, codes, same_text, decimal, hexadecimal, left_justified, right_justified,
}
use code_study_example.Shared.Int.{pos, ltb_ℤ}
use code_study_example.Shared.{
  ℕ, ◌-◌, ◌/◌, ltb, ◌==◌, List, [], ◌∷◌, ◌++◌, ◌||◌, Option, none, some, if◌then◌else◌,
}

unfoldable pub usage_text : Text
usage_text =
    codes "Usage:\n"
    ++ codes "    l [path]   show files in optional path (default is root)\n"
    ++ codes "    cat <pathname>   printf files\n"
    ++ codes "    push <from> <to>  push file to server\n"
    ++ codes "    info <pathname>   printf file infos\n"
    ++ codes "    rm <pathname> delete file or dir\n"
    ++ codes "    mkdir <path> \n"
    ++ codes "    sl         show remote shared list\n"
    ++ codes "    sec <pathname> get_security\n"
    ++ codes "    q          exit program\n"
    ++ codes "    h          print usage\n"
    ++ codes "\n"

abbrev pub smb2_type_file : ℕ
smb2_type_file = 0

abbrev pub smb2_type_directory : ℕ
smb2_type_directory = 1

unfoldable pub type_name : ℕ → Text
type_name smb2_type =
    if smb2_type == smb2_type_file
    then codes "FILE"
    else (if smb2_type == smb2_type_directory then codes "DIRECTORY" else codes "unknown")

-- The 100 ns ticks from 1601 to 1970.
abbrev pub epoch : ℕ
epoch = 116444736000000000

unfoldable pub dirent_time : ℕ → ℕ
dirent_time filetime = if ltb epoch filetime then (filetime - epoch) / 10000000 else 0

module _ {S H : Type 0} (lib : Smb2Context S H) (machine : Machine) where
  unfoldable pub usage : Shell S → Shell S
  usage s = eprintf usage_text s

  unfoldable pub dirent_line : Smb2Dirent → Text
  dirent_line ent =
      codes "    "
      ++ left_justified 20 ent.name
      ++ codes " "
      ++ left_justified 9 (type_name ent.st.smb2_type)
      ++ codes " "
      ++ right_justified 15 32 (decimal ent.st.smb2_size)
      ++ codes " "
      ++ machine.strftime (dirent_time ent.st.smb2_mtime)
      ++ codes "\n"

  unfoldable pub dirent_lines : List Smb2Dirent → Text
  dirent_lines [] = []
  dirent_lines (ent ∷ entries) =
      let rest = dirent_lines entries in
      if same_text ent.name (codes ".") || same_text ent.name (codes "..")
      then rest
      else dirent_line ent ++ rest

  unfoldable pub show_entries : Option (List Smb2Dirent) → Shell S → Outcome S
  show_entries none s =
      exits 10 (printf (codes "smb2_opendir failed. " ++ lib.err s.smb2 ++ codes "\n") s)
  show_entries (some entries) s = returns (printf (dirent_lines entries) s)

  unfoldable pub show_dir : Text → Shell S → Outcome S
  show_dir query_path s =
      let (dir, smb2) = lib.smb2_querydir query_path (codes "*") s.smb2 in
      show_entries dir
        (record (printf (codes "query: [" ++ query_path ++ codes "]\n") s) { smb2 = smb2 })

  unfoldable pub share_line : ℕ → Smb2Shareinfo → Text
  share_line share_info_type entry =
      if share_info_type == 1
      then codes "    [name]: "
        ++ left_justified 20 entry.name
        ++ codes " [type]: "
        ++ left_justified 11 (hexadecimal entry.share_type)
        ++ codes "\n"
      else (if share_info_type == 2
          then codes "    [name]: "
            ++ left_justified 20 entry.name
            ++ codes " [type]:"
            ++ left_justified 11 (hexadecimal entry.share_type)
            ++ codes " [path]:"
            ++ left_justified 100 entry.path
            ++ codes "\n"
          else [])

  unfoldable pub share_lines : ℕ → List Smb2Shareinfo → Text
  share_lines share_info_type [] = []
  share_lines share_info_type (entry ∷ entries) =
      share_line share_info_type entry ++ share_lines share_info_type entries

  -- `server` and `user` are those of `params`.
  unfoldable pub print_sharelist : Text → Text → Shell S → Outcome S
  print_sharelist server user s =
      let (result, shares, smb2) = lib.smb2_list_shares server user 2 s.smb2 in
      let s' = record s { smb2 = smb2 } in
      if ltb_ℤ result (pos 0)
      then returns
          (printf (codes "failed to get share list Error : " ++ lib.err smb2 ++ codes "\n") s')
      else returns (printf (share_lines shares.share_info_type shares.sharelist) s')
