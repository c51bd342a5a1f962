-- ===== src/Vfs/Tests.antt =====
-- Paths and mounts for src/vfs.rs.
use eonos.Prelude.{ℕ, suc, ◌≡◌, refl, List, [], ◌∷◌, ◌++◌, some, none, length}
use eonos.Prelude.Results.{ok, err}
use eonos.Block.{same_name, read_only}
use eonos.Fat32.{FatError}
use eonos.Vfs.{FsError, normalize, child_name}
use eonos.Vfs.Mounts.{Fat, Mount, fat32, init, change, create_file, mount_fat32}
use eonos.Vfs.Route.{Changed, change-Changed}
use eonos.Vfs.Normal.{Normal, child_name-fragment}

-- `/a/./b/../c`
abbrev dotted : List ℕ
dotted = 47 ∷ 97 ∷ 47 ∷ 46 ∷ 47 ∷ 98 ∷ 47 ∷ 46 ∷ 46 ∷ 47 ∷ 99 ∷ []

normalize_above_root : normalize (47 ∷ 46 ∷ 46 ∷ []) ≡ err FsError.invalid_path
unfolding normalize
normalize_above_root = refl

-- `/d` and `/d2`
child_name-fragment_example : child_name (47 ∷ 100 ∷ []) (47 ∷ 100 ∷ 50 ∷ []) ≡ some (50 ∷ [])
unfolding same_name
child_name-fragment_example = child_name-fragment (47 ∷ 100 ∷ []) [] 50 refl refl tt

-- A volume that counts the files made on it and whose device cannot flush.
abbrev counting : Fat ℕ
counting = record {
  read_at = λ s path offset len. err FatError.not_found;
  stat = λ s path. err FatError.not_found;
  create_file = λ s path. (ok tt, suc s);
  create_dir = λ s path. (err FatError.no_space, s);
  remove = λ s path. (err FatError.not_found, s);
  truncate = λ s path. (err FatError.not_found, s);
  write_at = λ s offset path bytes. (ok (length bytes), s);
  flush = λ s. (err read_only, s);
}

abbrev table : List (Mount ℕ)
table = init ++ (record { prefix = 47 ∷ 100 ∷ []; fs = fat32 3; source_device = none } ∷ [])

-- The file is made although the answer is an error.
create_file_run : create_file counting (47 ∷ 100 ∷ 47 ∷ 120 ∷ []) table ≡ (
  err FsError.no_write,
  init ++ (record { prefix = 47 ∷ 100 ∷ []; fs = fat32 4; source_device = none } ∷ []),
)
unfolding create_file normalize init
create_file_run = refl

mount_taken : mount_fat32 (47 ∷ 100 ∷ []) none (ok 8) table ≡ (err FsError.invalid_path, table)
unfolding mount_fat32 normalize init
mount_taken = refl

change-Changed_example :
    Changed counting
      (counting.create_file)
      (47 ∷ 100 ∷ 47 ∷ 120 ∷ [])
      table
      (change counting (counting.create_file) (47 ∷ 100 ∷ 47 ∷ 120 ∷ []) table).0
      (change counting (counting.create_file) (47 ∷ 100 ∷ 47 ∷ 120 ∷ []) table).1
change-Changed_example =
    change-Changed counting (counting.create_file) (47 ∷ 100 ∷ 47 ∷ 120 ∷ []) table
