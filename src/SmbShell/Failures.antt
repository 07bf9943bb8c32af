-- ===== src/SmbShell/Failures.antt =====
-- The errors that `show_info` of cpp/samba/client/OpenSmbC/examples/smb2-ex.cpp meets.
use code_study_example.SmbShell.{Smb2FileInfoAll, Smb2Context, Machine, Shell, undefined_behaviour}
use code_study_example.SmbShell.Info.{show_info, show_info_all, show_stat}
use code_study_example.Shared.Texts.{Text}
use code_study_example.Shared.{◌≡◌, refl, ltb, false, none, some, arith}

module _ {S H : Type 0} (lib : Smb2Context S H) (machine : Machine) where
  show_stat_unfilled :
      (path : Text) (s : Shell S)
      → (lib.smb2_stat path s.smb2).1 ≡ none
      → show_stat lib machine path s ≡ undefined_behaviour
  unfolding show_stat
  show_stat_unfilled path s h =
      let not_negative : ltb (lib.smb2_stat path s.smb2).0 0 ≡ false = ground arith in
      rw (not_negative, h) refl

  -- Where the information on a file arrives and `smb2_stat` then leaves its structure as it was,
  -- `show_info` does not report the failure: its behaviour is undefined, whatever status the call
  -- returns, since it prints fields that were never set.
  pub stat_failure_unseen :
      (path : Text) (s : Shell S) (fs : Smb2FileInfoAll)
      → (lib.smb2_getinfo_all path s.smb2).0 ≡ 0
      → (lib.smb2_getinfo_all path s.smb2).1 ≡ some fs
      → (lib.smb2_stat path (lib.smb2_getinfo_all path s.smb2).2).1 ≡ none
      → show_info lib machine path s ≡ undefined_behaviour
  unfolding show_info show_info_all
  stat_failure_unseen path s fs ok filled unfilled =
      rw (ok, filled) (show_stat_unfilled path _ unfilled)
