-- ===== src/SmbShell/Examples.antt =====
-- The shell of cpp/samba/client/OpenSmbC/examples/smb2-ex.cpp with a small server.
use code_study_example.SmbShell.{
  Smb2FileInfoAll, Smb2Context, Machine, Shell, Outcome, returns, ◌then◌, wronly_creat,
}
use code_study_example.SmbShell.Split.{
  is_space, split_by_space, read_tokens, extract, extract_at, skip_space, token,
}
use code_study_example.SmbShell.Words.{IsWord}
use code_study_example.SmbShell.Files.{push, smb2_status_end_of_file}
use code_study_example.SmbShell.Commands.{smb_main, command_loop, do_line, do_command, do_whole}
use code_study_example.SmbShell.Copy.{overwritten}
use code_study_example.SmbShell.Descriptors.{LeavesOpen, push_descriptors, is_some}
use code_study_example.SmbShell.Session.{has_quit, session_needs_quit}
use code_study_example.SmbShell.Requests.{Request, list_root, push_file, cat_file, help}
use code_study_example.Shared.Texts.{Text, codes, same_text}
use code_study_example.Shared.Int.{pos}
use code_study_example.Shared.{
  ℕ, ◌+◌, ◌≡◌, refl, leb, List, [], ◌∷◌, ◌&&◌, not, true, false, none, some, if◌then◌else◌, length,
  take, drop, All, arith,
}

abbrev no_stat : Smb2FileInfoAll
no_stat = record {
  smb2_crtime = 0;
  smb2_atime = 0;
  smb2_mtime = 0;
  smb2_ctime = 0;
  file_attributes = 0;
  allocation_size = 0;
  end_of_file = 0;
  smb2_nlink = 1;
  delete_pending = false;
  directory = false;
  smb2_ino = 0;
  ea_size = 0;
  access_flags = 0;
  mode = 0;
}

-- A server with one file, which it opens under any name; `smb2_stat` and `smb2_statvfs` fail.
abbrev one_file : Smb2Context (List ℕ) Unit
one_file = record {
  err = λ s. [];
  smb2_connect_share = λ a b c s. (0, s);
  smb2_disconnect_share = λ s. s;
  smb2_querydir = λ a b s. (some [], s);
  smb2_open = λ a b s. (some tt, s);
  smb2_pread = λ fh n offset s. (
    record {
      status = if leb (length s) offset then smb2_status_end_of_file else 0;
      bytes = take n (drop offset s);
    },
    s,
  );
  smb2_pwrite = λ fh bytes offset s. (0, overwritten offset bytes s);
  smb2_close = λ fh s. s;
  smb2_list_shares = λ a b c s. (pos 0, record { share_info_type = 2; sharelist = [] }, s);
  smb2_getinfo_all = λ a s. (0, some no_stat, s);
  smb2_stat = λ a s. (3221225524, none, s);
  smb2_statvfs = λ a s. (3221225524, none, s);
  smb2_unlink = λ a s. (0, []);
  smb2_mkdir = λ a s. (0, s);
  smb2_get_security = λ a s. (0, [], s);
  security_descriptor = λ bytes. [];
}

abbrev local_chunks : List (List ℕ)
local_chunks = (1 ∷ 2 ∷ []) ∷ (3 ∷ []) ∷ []

abbrev machine : Machine
machine = record {
  strftime = λ t. [];
  asctime = λ t. [];
  open_local = λ name. if same_text name (codes "a") then some local_chunks else none;
  strerror = λ name. codes "?";
}

abbrev start : Shell (List ℕ)
start = record { smb2 = 9 ∷ 9 ∷ 9 ∷ 7 ∷ []; out = []; written = []; err_out = []; open_fds = 3 }

abbrev tokens : List Text
tokens = codes "push" ∷ codes "a" ∷ []

tokens-IsWord : All IsWord tokens
unfolding is_space
tokens-IsWord = ((omega arith, (refl, (refl, (refl, (refl, tt))))), ((omega arith, (refl, tt)), tt))

-- A server whose connection is lost once a file is open.
abbrev lost : Smb2Context (List ℕ) Unit
lost = record one_file {
  smb2_pread = λ fh n offset s. (record { status = 3221226037; bytes = [] }, s);
}

-- A server that opens no file.
abbrev refusing : Smb2Context (List ℕ) Unit
refusing = record one_file { smb2_open = λ a b s. (none, s) }

push_descriptors_example :
    LeavesOpen refusing machine
      (start.open_fds
        + (if is_some (machine.open_local (codes "a"))
              && not (is_some (refusing.smb2_open (codes "b") wronly_creat start.smb2).0)
            then 1
            else 0))
      (push refusing machine (codes "a") (codes "b") start)
push_descriptors_example = push_descriptors refusing machine (codes "a") (codes "b") start

-- A session of two lines.
abbrev two_lines : List Text
two_lines = codes "x" ∷ codes "q" ∷ []

abbrev end_of : Outcome (List ℕ) → Shell (List ℕ)
end_of (returns s) = s
end_of o = start

two_lines_return :
    smb_main one_file machine 0 two_lines start
    ≡ returns (end_of (smb_main one_file machine 0 two_lines start))
unfolding smb_main command_loop do_line do_command do_whole split_by_space read_tokens extract
    extract_at skip_space token is_space
two_lines_return = refl

session_needs_quit_example : has_quit two_lines ≡ true
session_needs_quit_example =
    session_needs_quit one_file machine 0 two_lines start
      (end_of (smb_main one_file machine 0 two_lines start)) two_lines_return

abbrev script : List Request
script = help ∷ list_root ∷ push_file (codes "a") (codes "b") ∷ cat_file (codes "b") ∷ []
