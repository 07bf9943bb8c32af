-- ===== src/ResourceWatcher/Examples.antt =====
-- The resource watcher of python/example/ResourceWatcher on a few samples.
use code_study_example.ResourceWatcher.{Members, no_member, string2js, Sample, Watcher, watch}
use code_study_example.ResourceWatcher.Samples.{path, samples_on_disk}
use code_study_example.Shared.Texts.{Text, codes}
use code_study_example.Shared.{
  ◌≡◌, refl, ◌%◌, ◌==◌, [], ◌∷◌, ◌++◌, Bool, true, Option, none, some, if◌then◌else◌, length,
}

abbrev parse : Text → Option Members
parse t = some no_member

abbrev print : Members → Text
print ms = codes "{}"

abbrev opens : Text → Bool
opens t = true

abbrev at_time : Text → Sample parse print opens
at_time name = record { directory = codes "d"; file_name = name; output = []; is_checked = true }

abbrev new_watcher : Watcher parse print opens
new_watcher = record { files = λ name. none; idx = 0; emitted = [] }

samples_on_disk_example :
    (watch parse print opens
        ((at_time (codes "01-02") ∷ []) ++ at_time (codes "01-03") ∷ (at_time (codes "01-04") ∷ []))
        new_watcher).files
      (path parse print opens (at_time (codes "01-03")))
    ≡ (if length (at_time (codes "01-02") ∷ []) % 10 == 1
        then some (print (string2js parse print opens []))
        else none)
samples_on_disk_example =
    samples_on_disk parse print opens (at_time (codes "01-02") ∷ []) (at_time (codes "01-04") ∷ [])
      (at_time (codes "01-03")) new_watcher refl refl (refl, tt) (refl, tt)
