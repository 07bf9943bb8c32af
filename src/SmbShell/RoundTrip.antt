-- ===== src/SmbShell/RoundTrip.antt =====
-- A file that is pushed by cpp/samba/client/OpenSmbC/examples/smb2-ex.cpp and read back by it.
use code_study_example.SmbShell.{Smb2Context, Machine, rdonly, wronly_creat}
use code_study_example.SmbShell.Copy.{Stores}
use code_study_example.SmbShell.Cat.{Reads}
use code_study_example.Shared.Texts.{Text}
use code_study_example.Shared.{ℕ, ◌≡◌, List, some}

module _ {S H : Type 0} (lib : Smb2Context S H) (machine : Machine) where
  -- A server that does as the protocol says with the file `to`, whose content in a state is
  -- `remote`: it opens it for writing and for reading, and every read gives of what it holds.
  pub record Serves (to : Text) (remote : S → List ℕ) : Type 0 where
    pub write_handle : S → H
    pub read_handle : S → H
    pub opens_for_write : (s : S) → (lib.smb2_open to wronly_creat s).0 ≡ some (write_handle s)
    pub opens_for_read : (s : S) → (lib.smb2_open to rdonly s).0 ≡ some (read_handle s)
    pub write_open_keeps : (s : S) → remote (lib.smb2_open to wronly_creat s).1 ≡ remote s
    pub read_open_keeps : (s : S) → remote (lib.smb2_open to rdonly s).1 ≡ remote s
    pub stores : (s : S) → Stores lib machine (write_handle s) remote
    pub reads :
        (s : S) (content : List ℕ)
        → Reads lib machine (read_handle s) content (λ t. remote t ≡ content)
