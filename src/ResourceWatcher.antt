-- ===== src/ResourceWatcher.antt =====
-- The resource watcher of python/example/ResourceWatcher: widget.cpp and tool.h.
pub mod Samples
pub mod Examples
use code_study_example.Shared.Texts.{Text, codes, same_text, less_text}
use code_study_example.Shared.{
  ◌>>=◌, ℕ, zero, suc, ◌+◌, ◌%◌, ◌==◌, List, [], ◌∷◌, ◌++◌, Bool, true, false, Option, none, some,
  if◌then◌else◌, map,
}

-- JSON, with the members of an object in the order of their keys.
mutual
  pub data Json : Type 0 where
    str : Text → Json
    object : Members → Json
    array : Elements → Json
    other : Json

  pub data Members : Type 0 where
    no_member : Members
    member : Text → Json → Members → Members

  pub data Elements : Type 0 where
    no_element : Elements
    element : Json → Elements → Elements

-- `value(key)`, and the conversions, which make something empty of another kind of value.
unfoldable pub value : Text → Members → Json
value key no_member = other
value key (member k j rest) = if same_text key k then j else value key rest

abbrev pub to_text : Json → Text
to_text (str t) = t
to_text j = []

abbrev pub to_object : Json → Members
to_object (object ms) = ms
to_object j = no_member

abbrev pub to_array : Json → Elements
to_array (array es) = es
to_array j = no_element

pub record Row : Type 0 where
  pub pid : Text
  pub name : Text
  pub memory : Text

-- The table, the title and the text of the window.
pub record View : Type 0 where
  pub title : Text
  pub table : List Row
  pub edit : Text

-- A new row is inserted before the others.
unfoldable pub load_rows : Members → List Row → List Row
load_rows no_member rows = rows
load_rows (member key e rest) rows = load_rows rest (
    record {
      pid = key;
      name = to_text (value (codes "name") (to_object e));
      memory = to_text (value (codes "memory_util") (to_object e));
    }
    ∷ rows)

-- `arg` is QString::arg, and `number` the number in a text, printed.
module _ (arg : Text → Text → Text) (number : Text → Text) where
  unfoldable pub gpu_processes : Elements → Text
  gpu_processes no_element = []
  gpu_processes (element e rest) =
      arg (arg (codes "%1: %2\n") (number (to_text (value (codes "pid") (to_object e)))))
        (to_text (value (codes " process_name") (to_object e)))
      ++ gpu_processes rest

  unfoldable pub gpu_text : Elements → Text
  gpu_text no_element = []
  gpu_text (element e rest) =
      arg
        (arg
          (arg (codes "温度: %1, 使用率：%2，内存：%3\n") (to_text (value (codes "gpu_temp") (to_object e))))
          (to_text (value (codes "gpu_utilization") (to_object e))))
        (to_text (value (codes "gpu_memory") (to_object e)))
      ++ gpu_processes (to_array (value (codes "process_use_gpu_nvidia") (to_object e)))
      ++ gpu_text rest

  unfoldable pub load : Members → View
  load json =
      let psutil =
        to_object (value (codes "psutil") (to_object (value (codes "utilization_rate") json))) in
      record {
        title = to_text (value (codes "time") json);
        table = load_rows (to_object (value (codes "process") json)) [];
        edit =
            arg (arg (codes "内存：%2\nCPU：%3\n") (to_text (value (codes "memory") psutil)))
              (to_text (value (codes "cpu") psutil))
            ++ codes "\nGPU:\n"
            ++ gpu_text (to_array (value (codes "gpu_info") json));
      }

-- The files by their names.
abbrev pub Files : Type 0
Files = Text → Option Text

abbrev pub stored : Text → Text → Files → Files
stored name content files n = if same_text n name then some content else files n

abbrev or_empty : Option Members → Members
or_empty none = no_member
or_empty (some ms) = ms

-- `parse` and `print` are QJsonDocument's; `opens` is whether a file can be opened for writing.
module _ (parse : Text → Option Members) (print : Members → Text) (opens : Text → Bool) where
  unfoldable pub string2js : Text → Members
  string2js text = or_empty (parse text)

  unfoldable pub read_json_from_file : Text → Files → Members
  read_json_from_file filename files = or_empty (files filename >>= parse)

  unfoldable pub save_josn_to_file : Text → Members → Files → Bool × Files
  save_josn_to_file filename js files =
      if opens filename then (true, stored filename (print js) files) else (false, files)

  -- What one turn of the thread takes from outside: the name of the file, in its directory, the text
  -- that the process has printed, without its line ends, and whether the box is checked.
  pub record Sample : Type 0 where
    pub directory : Text
    pub file_name : Text
    pub output : Text
    pub is_checked : Bool

  -- The files, the turn, and what was emitted, the latest first.
  pub record Watcher : Type 0 where
    pub files : Files
    pub idx : ℕ
    pub emitted : List Members

  -- `baseName`, up to the first dot, with colons for the dashes.
  unfoldable pub time_of : Text → Text
  time_of [] = []
  time_of (c ∷ cs) =
      let rest = time_of cs in if c == 46 then [] else (if c == 45 then 58 else c) ∷ rest

  unfoldable pub insert : Text → Json → Members → Members
  insert key j no_member = member key j no_member
  insert key j (member k i rest) =
      if same_text key k
      then member k j rest
      else (if less_text key k
          then member key j (member k i rest)
          else member k i (insert key j rest))

  unfoldable pub sample : Sample → Watcher → Watcher
  sample e w =
      let js = string2js e.output in
      let saved = save_josn_to_file (e.directory ++ codes "/" ++ e.file_name) js w.files in
      record {
        files = if w.idx % 10 == 1 then saved.1 else w.files;
        idx = suc w.idx;
        emitted =
            if e.is_checked
            then insert (codes "time") (str (time_of e.file_name)) js ∷ w.emitted
            else w.emitted;
      }

  -- The loop, until `stop_thread` is set.
  unfoldable pub watch : List Sample → Watcher → Watcher
  watch [] w = w
  watch (e ∷ es) w = watch es (sample e w)
