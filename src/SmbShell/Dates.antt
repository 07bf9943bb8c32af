-- ===== src/SmbShell/Dates.antt =====
-- The times that cpp/samba/client/OpenSmbC/examples/smb2-ex.cpp prints.
use code_study_example.SmbShell.Listing.{epoch, dirent_time}
use code_study_example.SmbShell.Info.{smb_time_to_utime}
use code_study_example.Shared.{ℕ, ◌^◌, ◌<◌, ◌≤◌, ◌≡◌, arith, ◌↔◌}

-- The listing and the information on a file show the same time of it exactly where that is not
-- before 1970.
pub times_agree :
    (filetime : ℕ)
    → filetime < 2 ^ 64
    → (smb_time_to_utime filetime ≡ dirent_time filetime) ↔ (epoch ≤ filetime)
unfolding smb_time_to_utime dirent_time
times_agree filetime h = ground arith
