-- ===== src/Host/Tests.antt =====
-- Runs of the plugin host's model at concrete inputs.
use anybot.Base.{
  sym, trim_space, ap, has_char, contains_any, arith, ◌↔◌, ◌≡◌, refl, sym, ap, ◌↔◌, ◌⊎◌, inl, inr,
  true, not, ◌&&◌, none, some, List, [], ◌∷◌, ◌++◌, arith, Text, codes, if◌then◌else◌,
}
use anybot.Base.{is_solid, has_char, is_empty, ◌==◌, eq_iff}
use anybot.Host.PluginLock.{
  PluginInstall, PluginLock, ModuleRules, default_host_module, apply_defaults,
}
use anybot.Host.PluginLock.Checks.{validate_install, validate_lock, add_plugin}
use mathlib.Core.List.{Perm}
use anybot.Sdk.PluginId.{validate_plugin_id}
use anybot.Host.PluginLock.Defaults.{HasPlainPaths}
use anybot.Host.PluginLock.Loop.{validate_lock-decides}
use anybot.Host.PluginLock.Valid.{IsGood}
use anybot.Host.PluginLock.Changes.{IsRising}
use anybot.Host.PluginLock.AddRemove.{add_plugin-IsGood}
use anybot.Host.HostFiles.{is_generated, Outside, lock_file, main_file, Disk, put_text}
use anybot.Host.HostFiles.Render.{load_lock, save_lock}
use anybot.Host.HostFiles.RoundTrip.{IsCodec, load_lock-save_lock, saved_lock}
use anybot.Host.LockCommands.{AddOptions, same_install}
use anybot.Host.LockCommands.Keeps.{IsGoodText, no_file}
use anybot.Host.LockCommands.Run.{add_plugin_install}
use anybot.Host.LockCommands.Safety.{add_install, run, run-IsGoodText}
use anybot.Host.LockCommands.Foreign.{run_foreign}

-- Every path is accepted that has neither a space nor '@', and every version.
abbrev pub test_rules : ModuleRules
test_rules = record {
  check_path = λ path. if is_solid path && not (has_char b'@' path) then none else some path;
  check_version = λ _ _. none;
}

abbrev pub id_a : Text
id_a = codes "plg_aaaaaaaaaaaaaaaaaaaaaaaaaa"

abbrev id_b : Text
id_b = codes "plg_bbbbbbbbbbbbbbbbbbbbbbbbbb"

abbrev help_install : PluginInstall
help_install = record {
  id = id_b;
  builtin = codes "help";
  go_module = [];
  version = [];
  replace = [];
}

abbrev module_install : PluginInstall
module_install = record {
  id = id_a;
  builtin = [];
  go_module = codes "example.com/roll";
  version = codes "v1.2.0";
  replace = codes "../roll";
}

abbrev help_lock : PluginLock
help_lock = record { go_module = default_host_module; plugins = help_install ∷ [] }

-- A codec for the one lock.
abbrev encode_help : PluginLock → Text ⊎ Text
encode_help lock = elim lock.plugins [
  | [] ↦ inl (codes "no plugin")
  | p ∷ ps ↦
      if is_empty ps && lock.go_module == default_host_module && same_install p help_install
      then inr (codes "help")
      else inl (codes "another lock")
]

abbrev test_io : Outside
test_io = record {
  read_error = λ _. none;
  stat_error = λ _. none;
  write_error = λ _. none;
  mkdir_error = none;
  decode = λ _. inr help_lock;
  encode = encode_help;
  rules = test_rules;
  plugins_template = λ _. codes "// Code generated by anybot; DO NOT EDIT.";
  main_template = codes "// Code generated by anybot; DO NOT EDIT.";
  module_template = λ name. codes "module " ++ name;
  alias_of = λ i. i ∷ [];
  random_part = inr (codes "bbbbbbbbbbbbbbbbbbbbbbbbbb");
}

abbrev empty_disk : Disk
empty_disk = λ _. none

abbrev add_help : AddOptions
add_help = record { id = []; builtin = codes " help "; go_module = []; version = []; replace = [] }

test_add : (add_plugin_install test_io add_help empty_disk).0 ≡ inr help_lock
unfolding add_plugin_install ◌==◌ validate_plugin_id contains_any has_char
test_add = refl

test_added : (add_plugin_install test_io add_help empty_disk).1 lock_file ≡ some (codes "help")
unfolding add_plugin_install ◌==◌ validate_plugin_id contains_any has_char
test_added = refl

test_plain : HasPlainPaths test_rules
test_plain path h = ground (arith, h)

same_eq : (p q : PluginInstall) → same_install p q ≡ true → p ≡ q
same_eq p q h =
    let id : p.id ≡ q.id = (eq_iff p.id q.id).0 (ground (arith, h)) in
    let builtin : p.builtin ≡ q.builtin = (eq_iff p.builtin q.builtin).0 (ground (arith, h)) in
    let path : p.go_module ≡ q.go_module = (eq_iff p.go_module q.go_module).0 (ground (arith, h)) in
    let version : p.version ≡ q.version = (eq_iff p.version q.version).0 (ground (arith, h)) in
    let replace : p.replace ≡ q.replace = (eq_iff p.replace q.replace).0 (ground (arith, h)) in
    λ i. record {
      id = id i;
      builtin = builtin i;
      go_module = path i;
      version = version i;
      replace = replace i;
    }

read_back :
    (name : Text) (ps : List PluginInstall) (text : Text)
    → encode_help (record { go_module = name; plugins = ps }) ≡ inr text
    → help_lock ≡ record { go_module = name; plugins = ps }
read_back name [] text h = absurd (ground (arith, h))
read_back name (p ∷ q ∷ ps) text h = absurd (ground (arith, h))
read_back name (p ∷ []) text h =
    let e : default_host_module ≡ name =
      sym ((eq_iff name default_host_module).0 (ground (arith, h))) in
    let q : help_install ≡ p = sym (same_eq p help_install (ground (arith, h))) in
    λ i. record { go_module = e i; plugins = q i ∷ [] }

test-IsCodec : IsCodec test_io
test-IsCodec lock text h = ap inr (read_back lock.go_module lock.plugins text h)

help-IsGood : IsGood test_rules help_lock.plugins
unfolding validate_install trim_space ◌==◌ validate_plugin_id contains_any has_char
help-IsGood = (refl, refl, tt)

validate_lock-decides_example :
    (validate_lock test_rules help_lock ≡ none)
    ↔ IsGood test_rules (apply_defaults help_lock).plugins
validate_lock-decides_example = validate_lock-decides test_rules help_lock

abbrev pub both_lock : PluginLock
both_lock = record help_lock { plugins = module_install ∷ help_install ∷ [] }

add_plugin-IsGood_example :
    IsGood test_rules both_lock.plugins
    × IsRising both_lock.plugins
    × Perm (help_install ∷ module_install ∷ []) both_lock.plugins
unfolding add_plugin apply_defaults is_solid ◌==◌ validate_plugin_id contains_any has_char
add_plugin-IsGood_example =
    add_plugin-IsGood test_rules module_install help_lock both_lock help-IsGood refl

load_lock-save_lock_example :
    load_lock test_io (put_text lock_file (codes "help") empty_disk) ≡ inr (saved_lock help_lock)
unfolding save_lock ◌==◌ validate_plugin_id contains_any has_char
load_lock-save_lock_example =
    load_lock-save_lock test_io test_plain test-IsCodec help_lock empty_disk
      (put_text lock_file (codes "help") empty_disk) refl refl

run-IsGoodText_example :
    IsGoodText test_io (run test_io (add_install add_help) empty_disk lock_file)
run-IsGoodText_example = run-IsGoodText test_io (add_install add_help) empty_disk no_file

abbrev own_disk : Disk
own_disk = put_text main_file (codes "package main") empty_disk

run_foreign_example : run test_io (add_install add_help) own_disk ≡ own_disk
unfolding is_generated
run_foreign_example =
    run_foreign test_io (add_install add_help) own_disk main_file (codes "package main") refl refl
      refl refl
