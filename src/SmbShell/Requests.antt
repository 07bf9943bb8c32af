-- ===== src/SmbShell/Requests.antt =====
-- What a script for cpp/samba/client/OpenSmbC/examples/smb2-ex.cpp asks for, and that it is done.
use code_study_example.SmbShell.{Smb2Context, Machine, Shell, Outcome, returns, ◌then◌, printf}
use code_study_example.SmbShell.Split.{split_by_space}
use code_study_example.SmbShell.Words.{IsWord, spaced}
use code_study_example.SmbShell.Files.{prinf_file, push, get_security}
use code_study_example.SmbShell.Listing.{usage, show_dir, print_sharelist}
use code_study_example.SmbShell.Info.{show_info}
use code_study_example.SmbShell.Commands.{Turn, report, do_line, after_loop, ex_params}
use code_study_example.Shared.Texts.{Text, codes}
use code_study_example.Shared.{ℕ, List, [], ◌∷◌, ◌++◌}

-- The operations that the shell offers, as a client thinks of them.
pub data Request : Type 0 where
  list_root : Request
  list_dir : Text → Request
  push_file : Text → Text → Request
  file_info : Text → Request
  remove : Text → Request
  security : Text → Request
  make_dir : Text → Request
  cat_file : Text → Request
  shares : Request
  help : Request

abbrev pub IsRequest : Request → Type 0
IsRequest (list_dir path) = IsWord path
IsRequest (push_file from to) = IsWord from × IsWord to
IsRequest (file_info path) = IsWord path
IsRequest (remove path) = IsWord path
IsRequest (security path) = IsWord path
IsRequest (make_dir path) = IsWord path
IsRequest (cat_file path) = IsWord path
IsRequest r = Unit

-- The words of its line; `shares` and `help` are whole lines.
abbrev pub request_line : Request → Text
request_line list_root = spaced (codes "l" ∷ [])
request_line (list_dir path) = spaced (codes "l" ∷ path ∷ [])
request_line (push_file from to) = spaced (codes "push" ∷ from ∷ to ∷ [])
request_line (file_info path) = spaced (codes "info" ∷ path ∷ [])
request_line (remove path) = spaced (codes "rm" ∷ path ∷ [])
request_line (security path) = spaced (codes "sec" ∷ path ∷ [])
request_line (make_dir path) = spaced (codes "mkdir" ∷ path ∷ [])
request_line (cat_file path) = spaced (codes "cat" ∷ path ∷ [])
request_line shares = codes "sl"
request_line help = codes "h"

module _ {S H : Type 0} (lib : Smb2Context S H) (machine : Machine) (fuel : ℕ) where
  abbrev pub perform : Request → Shell S → Outcome S
  perform list_root s = show_dir lib machine [] s
  perform (list_dir path) s = show_dir lib machine path s
  perform (push_file from to) s = push lib machine from to s
  perform (file_info path) s = show_info lib machine path s
  perform (remove path) s = report lib machine fuel (lib.smb2_unlink path s.smb2) s
  perform (security path) s = get_security lib machine path s
  perform (make_dir path) s = report lib machine fuel (lib.smb2_mkdir path s.smb2) s
  perform (cat_file path) s = prinf_file lib machine fuel path s
  perform shares s =
      print_sharelist lib machine ex_params.server ex_params.user
        (record s { smb2 = lib.smb2_disconnect_share s.smb2 })
  perform help s = returns (usage lib machine s)

  abbrev pub echo : Text → Shell S → Shell S
  echo cmd s = printf (codes "do:  " ++ cmd ++ codes "\n") s

  -- The requests in turn, each echoed and followed by an empty line, then the end of the program.
  abbrev pub perform_all : List Request → Shell S → Outcome S
  perform_all [] s = after_loop lib machine fuel (echo (codes "q") s)
  perform_all (r ∷ rs) s =
      perform r (echo (request_line r) s) then λ s'. perform_all rs (printf (codes "\n") s')

  run_line : Text → Shell S → Turn S
  run_line cmd s = do_line lib machine fuel cmd (split_by_space cmd) s
