-- ===== src/SmbShell.antt =====
-- The SMB shell of cpp/samba/client/OpenSmbC/examples/smb2-ex.cpp: what it calls of the SMB library,
-- and the state of the program.
pub mod Split
pub mod Words
pub mod Files
pub mod Listing
pub mod Info
pub mod Commands
pub mod Copy
pub mod Cat
pub mod Descriptors
pub mod Session
pub mod Requests
pub mod RoundTrip
pub mod Dates
pub mod Failures
pub mod Examples
use code_study_example.Shared.Int.{ℤ}
use code_study_example.Shared.Texts.{Text}
use code_study_example.Shared.{ℕ, ◌+◌, List, ◌++◌, Bool, Option}

-- What `smb2_pread` puts at the front of the buffer, `byte_count` of it, and its status.
pub record Pread : Type 0 where
  pub status : ℕ
  pub bytes : List ℕ

pub record Smb2Stat : Type 0 where
  pub smb2_type : ℕ
  pub smb2_nlink : ℕ
  pub smb2_ino : ℕ
  pub smb2_size : ℕ
  pub smb2_atime : ℕ
  pub smb2_mtime : ℕ
  pub smb2_ctime : ℕ

pub record Smb2Dirent : Type 0 where
  pub name : Text
  pub st : Smb2Stat

pub record Smb2FileInfoAll : Type 0 where
  pub smb2_crtime : ℕ
  pub smb2_atime : ℕ
  pub smb2_mtime : ℕ
  pub smb2_ctime : ℕ
  pub file_attributes : ℕ
  pub allocation_size : ℕ
  pub end_of_file : ℕ
  pub smb2_nlink : ℕ
  pub delete_pending : Bool
  pub directory : Bool
  pub smb2_ino : ℕ
  pub ea_size : ℕ
  pub access_flags : ℕ
  pub mode : ℕ

pub record Smb2Statvfs : Type 0 where
  pub f_bsize : ℕ
  pub f_blocks : ℕ
  pub f_bfree : ℕ
  pub f_bavail : ℕ

pub record Smb2Shareinfo : Type 0 where
  pub name : Text
  pub share_type : ℕ
  pub path : Text

pub record Smb2Shares : Type 0 where
  pub share_info_type : ℕ
  pub sharelist : List Smb2Shareinfo

pub data OpenMode : Type 0 where
  rdonly : OpenMode
  wronly_creat : OpenMode

-- The library: `S` is the state of its context, of the server behind it and of the string `err`,
-- which the shell passes to every call, and `H` an open file. A structure that a call fills in is
-- `none` where the call leaves it as it was.
pub record Smb2Context (S H : Type 0) : Type 0 where
  pub err : S → Text
  pub smb2_connect_share : Text → Text → Text → S → ℕ × S
  pub smb2_disconnect_share : S → S
  pub smb2_querydir : Text → Text → S → Option (List Smb2Dirent) × S
  pub smb2_open : Text → OpenMode → S → Option H × S
  pub smb2_pread : H → ℕ → ℕ → S → Pread × S
  pub smb2_pwrite : H → List ℕ → ℕ → S → ℕ × S
  pub smb2_close : H → S → S
  pub smb2_list_shares : Text → Text → ℕ → S → ℤ × Smb2Shares × S
  pub smb2_getinfo_all : Text → S → ℕ × Option Smb2FileInfoAll × S
  pub smb2_stat : Text → S → ℕ × Option Smb2Stat × S
  pub smb2_statvfs : Text → S → ℕ × Option Smb2Statvfs × S
  pub smb2_unlink : Text → S → ℕ × S
  pub smb2_mkdir : Text → S → ℕ × S
  -- The descriptor as the bytes that the library allocates, and what it prints of them.
  pub smb2_get_security : Text → S → ℕ × List ℕ × S
  pub security_descriptor : List ℕ → Text

-- The C library's dates, which depend on the time zone of the machine (`strftime` with the format of
-- the shell, and `asctime`), and the local files: the chunks that successive calls of `read` with
-- 1024 bytes give, or what `strerror` says where the file cannot be opened.
pub record Machine : Type 0 where
  pub strftime : ℕ → Text
  pub asctime : ℕ → Text
  pub open_local : Text → Option (List (List ℕ))
  pub strerror : Text → Text

-- The program: the library's state, what was printed, what was written to descriptor 0, what was
-- printed to stderr, and how many local descriptors are open.
pub record Shell (S : Type 0) : Type 0 where
  pub smb2 : S
  pub out : Text
  pub written : List ℕ
  pub err_out : Text
  pub open_fds : ℕ

-- How a function ends: it returns, it calls `exit`, its behaviour is undefined, or the fuel is used
-- up.
pub data Outcome (S : Type 0) : Type 0 where
  returns : Shell S → Outcome S
  exits : ℕ → Shell S → Outcome S
  undefined_behaviour : Outcome S
  out_of_fuel : Outcome S

module _ {S : Type 0} where
  infixl 5 ◌then◌
  abbrev pub ◌then◌ : Outcome S → (Shell S → Outcome S) → Outcome S
  (returns s) then f = f s
  (exits code s) then f = exits code s
  undefined_behaviour then f = undefined_behaviour
  out_of_fuel then f = out_of_fuel

  abbrev pub printf : Text → Shell S → Shell S
  printf t s = record s { out = s.out ++ t }

  abbrev pub eprintf : Text → Shell S → Shell S
  eprintf t s = record s { err_out = s.err_out ++ t }

  -- `write(0, …)`.
  abbrev pub write_0 : List ℕ → Shell S → Shell S
  write_0 bytes s = record s { written = s.written ++ bytes }
