-- ===== src/ResourceWatcher/Samples.antt =====
-- The files of the resource watcher: python/example/ResourceWatcher.
use code_study_example.ResourceWatcher.{
  Members, Files, string2js, read_json_from_file, save_josn_to_file, Sample, Watcher, sample, watch,
}
use code_study_example.Shared.Texts.{Text, codes, same_text, same_text_refl}
use code_study_example.Shared.{
  ◌+◌, ◌%◌, ◌≡◌, refl, ap, ◌∙◌, ◌==◌, List, [], ◌∷◌, ◌++◌, Bool, true, false, Option, some,
  if◌then◌else◌, length, arith, All, Bool-cases, inl, inr,
}

module _ (parse : Text → Option Members) (print : Members → Text) (opens : Text → Bool) where
  -- What is saved to a file that can be opened is read back from it, where the parser reads what the
  -- printer prints, and the other files are as they were.
  pub save-read :
      (filename other : Text) (js : Members) (files : Files)
      → ((ms : Members) → parse (print ms) ≡ some ms)
      → opens filename ≡ true
      → same_text other filename ≡ false
      → (read_json_from_file parse print opens filename
            (save_josn_to_file parse print opens filename js files).1
          ≡ js)
        × ((save_josn_to_file parse print opens filename js files).1 other ≡ files other)
  unfolding save_josn_to_file read_json_from_file
  save-read filename other js files p o d =
      (rw (o, same_text_refl filename, p js) refl, rw (o, d) refl)

  abbrev pub path : Sample parse print opens → Text
  path e = e.directory ++ codes "/" ++ e.file_name

  watch-append :
      (xs ys : List (Sample parse print opens)) (w : Watcher parse print opens)
      → watch parse print opens (xs ++ ys) w
        ≡ watch parse print opens ys (watch parse print opens xs w)
  unfolding watch
  watch-append [] ys w = refl
  watch-append (x ∷ xs) ys w = watch-append xs ys (sample parse print opens x w)

  watch-idx :
      (es : List (Sample parse print opens)) (w : Watcher parse print opens)
      → (watch parse print opens es w).idx ≡ w.idx + length es
  unfolding watch sample
  watch-idx [] w = omega arith
  watch-idx (e ∷ es) w = omega (arith, watch-idx es (sample parse print opens e w))

  -- The other files are as they were.
  abbrev Differs : Text → Sample parse print opens → Type 0
  Differs name e = same_text name (path e) ≡ false

  sample-other :
      (name : Text) (e : Sample parse print opens) (w : Watcher parse print opens)
      → Differs name e
      → (sample parse print opens e w).files name ≡ w.files name
  unfolding sample save_josn_to_file
  sample-other name e w d = elim (Bool-cases (w.idx % 10 == 1)) [
    | inr h ↦ rw h refl
    | inl h ↦ elim (Bool-cases (opens (path e))) [
      | inr k ↦ rw (h, k) refl
      | inl k ↦ rw (h, k, d) refl
    ]
  ]

  watch-other :
      (name : Text) (es : List (Sample parse print opens)) (w : Watcher parse print opens)
      → All (Differs name) es
      → (watch parse print opens es w).files name ≡ w.files name
  unfolding watch
  watch-other name [] w a = refl
  watch-other name (e ∷ es) w a =
      watch-other name es (sample parse print opens e w) a.1 ∙ sample-other name e w a.0

  sample-own :
      (e : Sample parse print opens) (w : Watcher parse print opens)
      → opens (path e) ≡ true
      → (sample parse print opens e w).files (path e) ≡ (
          if w.idx % 10 == 1
          then some (print (string2js parse print opens e.output))
          else w.files (path e))
  unfolding sample save_josn_to_file
  sample-own e w o = elim (Bool-cases (w.idx % 10 == 1)) [
    | inr h ↦ rw h refl
    | inl h ↦ rw (h, o, same_text_refl (path e)) refl
  ]

  -- Of the samples of a run exactly the second, the twelfth, the twenty-second and so on are on disk
  -- at its end: whatever is sampled before and after under other names, the file of a
  -- sample that can be opened holds what the process printed then, as JSON, if the number of samples
  -- before it leaves 1 when it is divided by 10, and else what it held before the run.
  pub samples_on_disk :
      (before after : List (Sample parse print opens)) (e : Sample parse print opens)
      (w : Watcher parse print opens)
      → w.idx ≡ 0
      → opens (path e) ≡ true
      → All (λ d. same_text (path e) (path d) ≡ false) before
      → All (λ d. same_text (path e) (path d) ≡ false) after
      → (watch parse print opens (before ++ e ∷ after) w).files (path e) ≡ (
          if length before % 10 == 1
          then some (print (string2js parse print opens e.output))
          else w.files (path e))
  unfolding watch
  samples_on_disk before after e w i o a b =
      let w' = watch parse print opens before w in
      let turn : w'.idx ≡ length before = omega (arith, watch-idx before w, i) in
      ap (λ (x : Watcher parse print opens). x.files (path e)) (watch-append before (e ∷ after) w)
      ∙ watch-other (path e) after (sample parse print opens e w') b
      ∙ sample-own e w' o
      ∙ ap
          (λ n.
            if n % 10 == 1
            then some (print (string2js parse print opens e.output))
            else w'.files (path e))
          turn
      ∙ ap
          (λ x.
            if length before % 10 == 1
            then some (print (string2js parse print opens e.output))
            else x)
          (watch-other (path e) before w a)
