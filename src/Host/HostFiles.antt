-- ===== src/Host/HostFiles.antt =====
-- app/host/plugin_lock_io.go and plugin_host_render.go: the four files of a plugin host, reading and
-- writing the lock, and rendering the generated files. A disk says what each file holds. What the
-- operating system refuses, the YAML codec, the executed and formatted templates and the random
-- source are the fields of `Outside`; writeFileAtomic puts a whole new text in the file's place or
-- reports an error and leaves the file, which its `write_error` says.
pub mod Render
pub mod RoundTrip
use anybot.Base.{
  ℕ, zero, suc, ◌+◌, ◌-◌, ◌≤◌, ◌<◌, ◌≡◌, refl, sym, ap, ◌∙◌, subst, ◌≢◌, ◌↔◌, ◌⊎◌, inl, inr, Bool,
  true, false, not, ◌&&◌, ◌||◌, Option, none, some, List, [], ◌∷◌, ◌++◌, map, arith, Bool-cases,
  Option-cases, Text, codes, if◌then◌else◌, eqb,
}
use anybot.Base.{split_by, ◌==◌, is_space, trim_space, strip_prefix, is_some, is_empty}
use anybot.Host.PluginLock.{
  PluginInstall, PluginLock, LockError, ModuleRules, apply_defaults, default_plugin_lock,
  default_host_module, outside, not_generated,
}
use anybot.Host.PluginLock.Checks.{validate_lock}

pub data HostFile : Type 0 where
  lock_file plugins_file main_file module_file : HostFile

abbrev pub same_file : HostFile → HostFile → Bool
same_file lock_file lock_file = true
same_file plugins_file plugins_file = true
same_file main_file main_file = true
same_file module_file module_file = true
same_file _ _ = false

-- The names that an error shows.
abbrev pub file_name : HostFile → Text
file_name lock_file = codes "plugins.lock"
file_name plugins_file = codes "plugins.gen.go"
file_name main_file = codes "main.go"
file_name module_file = codes "go.mod"

abbrev pub Disk : Type 0
Disk = HostFile → Option Text

abbrev pub put_text : HostFile → Text → Disk → Disk
put_text f text disk = λ g. if same_file g f then some text else disk g

-- A plugin's line in the generated file: its alias, its id and its module.
pub record PluginImport : Type 0 where
  pub alias : Text
  pub id : Text
  pub go_module : Text

pub record Outside : Type 0 where
  -- os.ReadFile and os.Stat, but for ErrNotExist
  pub read_error : HostFile → Option Text
  pub stat_error : HostFile → Option Text
  -- os.MkdirAll and writeFileAtomic
  pub write_error : HostFile → Option Text
  pub mkdir_error : Option Text
  -- yaml.Unmarshal and yaml.Marshal
  pub decode : Text → Text ⊎ PluginLock
  pub encode : PluginLock → Text ⊎ Text
  pub rules : ModuleRules
  pub plugins_template : List PluginImport → Text
  pub main_template : Text
  pub module_template : Text → Text
  pub alias_of : ℕ → Text
  -- rand.Read and the base32 encoding of its bytes in lower case
  pub random_part : Text ⊎ Text

abbrev pub generated_header : Text
generated_header = codes "// Code generated by anybot; DO NOT EDIT."

abbrev pub drop_empty : List Text → List Text
drop_empty [] = []
drop_empty (w ∷ ws) = if is_empty w then drop_empty ws else w ∷ drop_empty ws

-- strings.Fields
unfoldable pub fields : Text → List Text
unfolding split_by is_space
fields s = drop_empty (split_by is_space s)

-- The two first words of a line, where the first is "module".
abbrev pub module_of : List Text → Option Text
module_of (word ∷ path ∷ _) = if word == codes "module" then some path else none
module_of _ = none

-- The loop of goModModulePath over the lines.
unfoldable pub module_path_of : List Text → Option Text
unfolding trim_space strip_prefix fields
module_path_of [] = none
module_path_of (l ∷ ls) =
    let rest = module_path_of ls in
    let line = trim_space l in
    if is_empty line || is_some (strip_prefix (codes "//") line)
    then rest
    else elim (module_of (fields line)) [ some path ↦ some path | none ↦ rest ]

-- goModModulePath
unfoldable pub go_mod_module_path : Text → Option Text
unfolding module_path_of split_by
go_mod_module_path text = module_path_of (split_by (eqb b'\n') text)

-- generatedGoMod
unfoldable pub generated_go_mod : Text → Bool
unfolding strip_prefix go_mod_module_path
generated_go_mod text =
    if is_some (strip_prefix generated_header text)
    then true
    else elim (go_mod_module_path text) [ none ↦ false | some path ↦ path == default_host_module ]

-- The test of a file's text in CheckGeneratedHostWritable: go.mod has another than the Go files.
unfoldable pub is_generated : HostFile → Text → Bool
unfolding generated_go_mod strip_prefix
is_generated module_file text = generated_go_mod text
is_generated _ text = is_some (strip_prefix generated_header text)

-- A step on the disk that may fail, and one behind another.
abbrev pub Step : Type 0
Step = Disk → Option LockError × Disk

abbrev pub and_then : Step → Step → Step
and_then a b disk = let (e, disk') = a disk in elim e [ some x ↦ (some x, disk') | none ↦ b disk' ]

abbrev pub checked : (Disk → Option LockError) → Step
checked test disk = (test disk, disk)
