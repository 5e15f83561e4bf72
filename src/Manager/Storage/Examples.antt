-- ===== src/Manager/Storage/Examples.antt =====
-- Runs of the storages, and their contract at concrete inputs.
use dragonfly_wasm.Prelude.{ℕ, String, ◌≡◌, refl, Bool, Option, none, some, List, [], ◌∷◌}
use dragonfly_wasm.Manager.Storage.{absent, broken, coded, Files, get_value}
use dragonfly_wasm.Manager.Storage.File as File
use dragonfly_wasm.Manager.Storage.File.{FileStorage}
use dragonfly_wasm.Manager.Storage.Contract.{
  Operation, sets, deletes, clears, apply_all, in_files_all, in_files_all-apply_all,
}

-- A disk that is full: no write succeeds. Its state counts the attempts.
abbrev full_disk : Files ℕ
full_disk = record {
  mkdir_all = λ path w. (none, w);
  remove_all = λ path w. (none, w);
  write_file = λ path b w. (some "no space left", dragonfly_wasm.Prelude.suc w);
  read_dir = λ path w. absent;
  read_file = λ path w. broken "no file";
  marshal = λ values. coded [];
  unmarshal = λ b. coded [];
  join = λ path name. name;
}

abbrev work : List Operation
work =
    sets "com.a" "home" (1 ∷ [])
    ∷ sets "com.b" "home" (2 ∷ [])
    ∷ sets "com.a" "bed" (3 ∷ [])
    ∷ deletes "com.a" "home"
    ∷ clears "com.b"
    ∷ []

abbrev on_disk : FileStorage
on_disk = record { base_path = "plugin_data"; entries = [] }

bed-kept : apply_all work (get_value []) "com.a" "bed" ≡ some (3 ∷ [])
bed-kept = refl

in_files_all-apply_all_example :
    get_value (in_files_all full_disk work (on_disk, 0)).0.entries "com.a" "bed"
    ≡ apply_all work (get_value on_disk.entries) "com.a" "bed"
in_files_all-apply_all_example = in_files_all-apply_all full_disk work on_disk 0 "com.a" "bed"

set-fails : (File.set full_disk on_disk "com.a" "home" [] 0).0 ≡ some "no space left"
unfolding File.set File.persist
set-fails = refl
