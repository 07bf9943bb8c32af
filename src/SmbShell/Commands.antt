-- ===== src/SmbShell/Commands.antt =====
-- `main` of cpp/samba/client/OpenSmbC/examples/smb2-ex.cpp.
use code_study_example.SmbShell.{
  Smb2Context, Machine, Shell, Outcome, returns, exits, undefined_behaviour, out_of_fuel, ◌then◌,
  printf,
}
use code_study_example.SmbShell.Split.{split_by_space}
use code_study_example.SmbShell.Files.{prinf_file, push, get_security, smb2_status_success}
use code_study_example.SmbShell.Listing.{usage, show_dir, print_sharelist}
use code_study_example.SmbShell.Info.{show_info}
use code_study_example.Shared.Texts.{Text, codes, same_text}
use code_study_example.Shared.{ℕ, ◌==◌, List, [], ◌∷◌, ◌++◌, if◌then◌else◌}

pub record ExParams : Type 0 where
  pub domain : Text
  pub user : Text
  pub server : Text
  pub share : Text
  pub password : Text

unfoldable pub ex_params : ExParams
ex_params = record {
  domain = [];
  user = codes "wangbin";
  server = codes "172.27.93.12";
  share = codes "smb_shared";
  password = codes "1";
}

-- How the body of the loop ends: at its end, where the shell prints an empty line; by `continue`;
-- by `break`.
pub data Turn (S : Type 0) : Type 0 where
  ended : Outcome S → Turn S
  continues : Shell S → Turn S
  breaks : Shell S → Turn S

-- `fuel` bounds the reads of one `cat`.
module _ {S H : Type 0} (lib : Smb2Context S H) (machine : Machine) (fuel : ℕ) where
  -- `if (status != SMB2_STATUS_SUCCESS) std::cout << "failed " << err`.
  abbrev pub report : ℕ × S → Shell S → Outcome S
  report (status, smb2) s =
      let s' = record s { smb2 = smb2 } in
      if status == smb2_status_success
      then returns s'
      else returns (printf (codes "failed " ++ lib.err smb2 ++ codes "\n") s')

  abbrev pub missing : Text → Shell S → Turn S
  missing t s = continues (printf t s)

  -- The commands that need a path take the parameters after their name.
  unfoldable pub do_list : List Text → Shell S → Turn S
  do_list [] s = ended (show_dir lib machine [] s)
  do_list (path ∷ more) s = ended (show_dir lib machine path s)

  unfoldable pub do_push : List Text → Shell S → Turn S
  do_push [] s = missing (codes "failed, please input path or name\n") s
  do_push (from ∷ []) s = missing (codes "failed, please input path or name\n") s
  do_push (from ∷ to ∷ more) s = ended (push lib machine from to s)

  unfoldable pub do_info : List Text → Shell S → Turn S
  do_info [] s = missing (codes "failed, please input path or name\n") s
  do_info (path ∷ more) s = ended (show_info lib machine path s)

  unfoldable pub do_rm : List Text → Shell S → Turn S
  do_rm [] s = missing (codes "failed, param err\n") s
  do_rm (path ∷ more) s = ended (report (lib.smb2_unlink path s.smb2) s)

  unfoldable pub do_sec : List Text → Shell S → Turn S
  do_sec [] s = missing (codes "failed, param err\n") s
  do_sec (path ∷ more) s = ended (get_security lib machine path s)

  unfoldable pub do_mkdir : List Text → Shell S → Turn S
  do_mkdir [] s = missing (codes "failed, param err\n") s
  do_mkdir (path ∷ more) s = ended (report (lib.smb2_mkdir path s.smb2) s)

  unfoldable pub do_cat : List Text → Shell S → Turn S
  do_cat [] s = missing (codes "failed, please input filename\n") s
  do_cat (path ∷ more) s = ended (prinf_file lib machine fuel path s)

  -- The commands that are compared with the whole line.
  unfoldable pub do_whole : Text → Shell S → Turn S
  do_whole cmd s =
      if same_text cmd (codes "sl")
      then ended (
          print_sharelist lib machine ex_params.server ex_params.user
            (record s { smb2 = lib.smb2_disconnect_share s.smb2 }))
      else (if same_text cmd (codes "q")
          then breaks s
          else (if same_text cmd (codes "h")
              then ended (returns (usage lib machine s))
              else ended (returns (printf (codes "param failed, continue\n") s))))

  -- `name` is `cmd_params[0]`.
  unfoldable pub do_command : Text → Text → List Text → Shell S → Turn S
  do_command cmd name args s =
      if same_text name (codes "l")
      then do_list args s
      else (if same_text name (codes "push")
          then do_push args s
          else (if same_text name (codes "info")
              then do_info args s
              else (if same_text name (codes "rm")
                  then do_rm args s
                  else (if same_text name (codes "sec")
                      then do_sec args s
                      else (if same_text name (codes "mkdir")
                          then do_mkdir args s
                          else (if same_text name (codes "cat")
                              then do_cat args s
                              else do_whole cmd s))))))

  -- `cmd_params[0]` of no parameters is undefined.
  unfoldable pub do_line : Text → List Text → Shell S → Turn S
  do_line cmd [] s = ended undefined_behaviour
  do_line cmd (name ∷ args) s =
      do_command cmd name args (printf (codes "do:  " ++ cmd ++ codes "\n") s)

  abbrev pub after_loop : Shell S → Outcome S
  after_loop s = returns (record s { smb2 = lib.smb2_disconnect_share s.smb2 })

  abbrev pub next_turn : Turn S → (Shell S → Outcome S) → Outcome S
  next_turn (ended o) loop = o then λ s. loop (printf (codes "\n") s)
  next_turn (continues s) loop = loop s
  next_turn (breaks s) loop = after_loop s

  -- The loop over the lines of the input. At the end of the input `getline` leaves an empty line.
  unfoldable pub command_loop : List Text → Shell S → Outcome S
  command_loop [] s = next_turn (do_line [] (split_by_space []) s) (λ s'. out_of_fuel)
  command_loop (cmd ∷ lines) s =
      next_turn (do_line cmd (split_by_space cmd) s) (λ s'. command_loop lines s')

  -- `main`, on a context to which the setters were applied.
  unfoldable pub smb_main : List Text → Shell S → Outcome S
  smb_main lines s =
      let (status, smb2) =
        lib.smb2_connect_share ex_params.server ex_params.share ex_params.user s.smb2 in
      let s' = record s { smb2 = smb2 } in
      if status == 0
      then command_loop lines (usage lib machine s')
      else exits 10 (printf (codes "smb2_connect_share failed. " ++ lib.err smb2 ++ codes "\n") s')
