-- ===== src/SmbShell/Session.antt =====
-- Whole sessions of cpp/samba/client/OpenSmbC/examples/smb2-ex.cpp.
use code_study_example.SmbShell.{
  Smb2Context, Machine, Shell, Outcome, returns, exits, undefined_behaviour, out_of_fuel, ◌then◌,
  printf,
}
use code_study_example.SmbShell.Split.{split_by_space}
use code_study_example.SmbShell.Commands.{
  Turn, ended, continues, breaks, do_list, do_push, do_info, do_rm, do_sec, do_mkdir, do_cat,
  do_whole, do_command, do_line, next_turn, command_loop, smb_main, ex_params,
}
use code_study_example.Shared.Texts.{Text, codes, same_text}
use code_study_example.Shared.{
  ℕ, ◌≡◌, refl, ◌==◌, List, [], ◌∷◌, ◌++◌, ◌||◌, Bool, true, false, if◌then◌else◌, Bool-cases, inl,
  inr, subst,
}

abbrev pub has_quit : List Text → Bool
has_quit [] = false
has_quit (cmd ∷ lines) = same_text cmd (codes "q") || has_quit lines

module _ {S H : Type 0} (lib : Smb2Context S H) (machine : Machine) (fuel : ℕ) where
  -- What holds where a turn breaks, and where a function returns.
  abbrev BreaksOnly : Type 0 → Turn S → Type 0
  BreaksOnly P (breaks s) = P
  BreaksOnly P t = Unit

  abbrev ReturnsOnly : Type 0 → Outcome S → Type 0
  ReturnsOnly P (returns s) = P
  ReturnsOnly P o = Unit

  if-BreaksOnly :
      (P : Type 0) (b : Bool) (t u : Turn S)
      → BreaksOnly P t
      → BreaksOnly P u
      → BreaksOnly P (if b then t else u)
  if-BreaksOnly P true t u h k = h
  if-BreaksOnly P false t u h k = k

  whole-BreaksOnly :
      (cmd : Text) (s : Shell S)
      → BreaksOnly (same_text cmd (codes "q") ≡ true) (do_whole lib machine fuel cmd s)
  unfolding do_whole
  whole-BreaksOnly cmd s =
      let P = same_text cmd (codes "q") ≡ true in
      if-BreaksOnly P (same_text cmd (codes "sl")) _ _ tt
        (elim (Bool-cases (same_text cmd (codes "q"))) [
          | inl h ↦ rw h refl
          | inr h ↦ rw h (if-BreaksOnly _ (same_text cmd (codes "h")) _ _ tt tt)
        ])

  args-BreaksOnly :
      (P : Type 0) (args : List Text) (s : Shell S)
      → BreaksOnly P (do_list lib machine fuel args s)
        × BreaksOnly P (do_push lib machine fuel args s)
        × BreaksOnly P (do_info lib machine fuel args s)
        × BreaksOnly P (do_rm lib machine fuel args s)
        × BreaksOnly P (do_sec lib machine fuel args s)
        × BreaksOnly P (do_mkdir lib machine fuel args s)
        × BreaksOnly P (do_cat lib machine fuel args s)
  unfolding do_list do_push do_info do_rm do_sec do_mkdir do_cat
  args-BreaksOnly P [] s = (tt, tt, tt, tt, tt, tt, tt)
  args-BreaksOnly P (a ∷ []) s = (tt, tt, tt, tt, tt, tt, tt)
  args-BreaksOnly P (a ∷ b ∷ args) s = (tt, tt, tt, tt, tt, tt, tt)

  line-BreaksOnly :
      (cmd : Text) (cmd_params : List Text) (s : Shell S)
      → BreaksOnly (same_text cmd (codes "q") ≡ true) (do_line lib machine fuel cmd cmd_params s)
  unfolding do_line do_command
  line-BreaksOnly cmd [] s = tt
  line-BreaksOnly cmd (name ∷ args) s =
      let P = same_text cmd (codes "q") ≡ true in
      let s' = printf (codes "do:  " ++ cmd ++ codes "\n") s in
      let (a, b, c, d, e, f, g) = args-BreaksOnly P args s' in
      let is = λ (t : Text). same_text name t in
      let u_7 = do_whole lib machine fuel cmd s' in
      let u_6 = if is (codes "cat") then do_cat lib machine fuel args s' else u_7 in
      let u_5 = if is (codes "mkdir") then do_mkdir lib machine fuel args s' else u_6 in
      let u_4 = if is (codes "sec") then do_sec lib machine fuel args s' else u_5 in
      let u_3 = if is (codes "rm") then do_rm lib machine fuel args s' else u_4 in
      let u_2 = if is (codes "info") then do_info lib machine fuel args s' else u_3 in
      let u_1 = if is (codes "push") then do_push lib machine fuel args s' else u_2 in
      if-BreaksOnly P (is (codes "l")) (do_list lib machine fuel args s') u_1 a (
        if-BreaksOnly P (is (codes "push")) (do_push lib machine fuel args s') u_2 b (
          if-BreaksOnly P (is (codes "info")) (do_info lib machine fuel args s') u_3 c (
            if-BreaksOnly P (is (codes "rm")) (do_rm lib machine fuel args s') u_4 d (
              if-BreaksOnly P (is (codes "sec")) (do_sec lib machine fuel args s') u_5 e (
                if-BreaksOnly P (is (codes "mkdir")) (do_mkdir lib machine fuel args s') u_6 f (
                  if-BreaksOnly P (is (codes "cat")) (do_cat lib machine fuel args s') u_7 g
                    (whole-BreaksOnly cmd s')))))))

  then-ReturnsOnly :
      (P : Type 0) (o : Outcome S) (f : Shell S → Outcome S)
      → ((s : Shell S) → ReturnsOnly P (f s))
      → ReturnsOnly P (o then f)
  then-ReturnsOnly P (returns s) f h = h s
  then-ReturnsOnly P (exits code s) f h = tt
  then-ReturnsOnly P undefined_behaviour f h = tt
  then-ReturnsOnly P out_of_fuel f h = tt

  next_turn-ReturnsOnly :
      (P : Type 0) (t : Turn S) (loop : Shell S → Outcome S)
      → BreaksOnly P t
      → ((s : Shell S) → ReturnsOnly P (loop s))
      → ReturnsOnly P (next_turn lib machine fuel t loop)
  next_turn-ReturnsOnly P (ended o) loop b h =
      then-ReturnsOnly P o _ (λ s. h (printf (codes "\n") s))
  next_turn-ReturnsOnly P (continues s) loop b h = h s
  next_turn-ReturnsOnly P (breaks s) loop b h = b

  weaker : (P Q : Type 0) (o : Outcome S) → (P → Q) → ReturnsOnly P o → ReturnsOnly Q o
  weaker P Q (returns s) f h = f h
  weaker P Q (exits code s) f h = tt
  weaker P Q undefined_behaviour f h = tt
  weaker P Q out_of_fuel f h = tt

  weaker_break : (P Q : Type 0) (t : Turn S) → (P → Q) → BreaksOnly P t → BreaksOnly Q t
  weaker_break P Q (ended o) f h = tt
  weaker_break P Q (continues s) f h = tt
  weaker_break P Q (breaks s) f h = f h

  quit_here : (b c : Bool) → b ≡ true → (b || c) ≡ true
  quit_here b c h = rw h refl

  quit_later : (b c : Bool) → c ≡ true → (b || c) ≡ true
  quit_later true c h = refl
  quit_later false c h = h

  loop-ReturnsOnly :
      (lines : List Text) (s : Shell S)
      → ReturnsOnly (has_quit lines ≡ true) (command_loop lib machine fuel lines s)
  unfolding command_loop
  loop-ReturnsOnly [] s =
      next_turn-ReturnsOnly _ (do_line lib machine fuel [] (split_by_space []) s) _
        (weaker_break _ _ (do_line lib machine fuel [] (split_by_space []) s)
          (λ (h : false ≡ true). h) (line-BreaksOnly [] (split_by_space []) s))
        (λ s'. tt)
  loop-ReturnsOnly (cmd ∷ lines) s =
      let turn = do_line lib machine fuel cmd (split_by_space cmd) s in
      next_turn-ReturnsOnly _ turn _
        (weaker_break _ _ turn (quit_here _ _) (line-BreaksOnly cmd (split_by_space cmd) s))
        (λ s'.
          weaker _ _ (command_loop lib machine fuel lines s') (quit_later _ _)
            (loop-ReturnsOnly lines s'))

  main-ReturnsOnly :
      (lines : List Text) (s : Shell S)
      → ReturnsOnly (has_quit lines ≡ true) (smb_main lib machine fuel lines s)
  unfolding smb_main
  main-ReturnsOnly lines s =
      let connected =
        (lib.smb2_connect_share ex_params.server ex_params.share ex_params.user s.smb2).0 in
      elim (Bool-cases (connected == 0)) [
        | inl h ↦ rw h (loop-ReturnsOnly lines _)
        | inr h ↦ rw h tt
      ]

  returned : (P : Type 0) (o : Outcome S) (s : Shell S) → o ≡ returns s → ReturnsOnly P o → P
  returned P o s e h = subst (ReturnsOnly P) e h

  -- The program returns from `main` only if one of the lines of its input is exactly "q". Input that
  -- ends before such a line makes it fail some other way.
  pub session_needs_quit :
      (lines : List Text) (s s' : Shell S)
      → smb_main lib machine fuel lines s ≡ returns s'
      → has_quit lines ≡ true
  session_needs_quit lines s s' e = returned _ _ s' e (main-ReturnsOnly lines s)
