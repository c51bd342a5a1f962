-- ===== src/Vfs.antt =====
-- The virtual file system, src/vfs.rs: `FsError`, `normalize`, `route`, the mount table, the
-- operations on files by path, and the part of `list` that shows mounts in their parent directory.
-- A path is the list of its bytes. The file systems behind the mounts are an interface: `Fat`
-- has the operations that src/fat32.rs offers on the state of one volume, and each of them may change
-- that state even when it fails; `find` is the lookup of src/initramfs.rs.
pub mod Normal
pub mod Inside
pub mod Route
pub mod Mounts
mod Tests
use mathlib.Core.List.{reverse}
use eonos.Prelude.{
  ℕ, zero, suc, ◌+◌, ◌-◌, min, List, [], ◌∷◌, ◌++◌, Bool, true, false, not, ◌&&◌, ◌||◌, Option,
  none, some, if◌then◌else◌, ltb, leb, ◌==◌, length, take, drop, set,
}
use eonos.Prelude.Results.{Result, ok, err}
use eonos.Fat32.{FatError}
use eonos.Block.{BlockError, out_of_range, bad_buffer, read_only, same_name}

pub data FsError : Type 0 where
  not_found not_directory is_directory io invalid_path too_large no_write no_space : FsError
  invalid_name already_exists directory_not_empty : FsError

unfoldable pub map_fat_error : FatError → FsError
map_fat_error FatError.not_found = FsError.not_found
map_fat_error FatError.not_directory = FsError.not_directory
map_fat_error FatError.is_directory = FsError.is_directory
map_fat_error FatError.io = FsError.io
map_fat_error FatError.too_large = FsError.too_large
map_fat_error FatError.no_space = FsError.no_space
map_fat_error FatError.invalid_name = FsError.invalid_name
map_fat_error FatError.already_exists = FsError.already_exists
map_fat_error FatError.directory_not_empty = FsError.directory_not_empty
map_fat_error FatError.invalid_boot_sector = FsError.io
map_fat_error FatError.unsupported = FsError.io
map_fat_error FatError.corrupt = FsError.io

abbrev pub slash : ℕ
slash = 47

-- `path.split('/')`: what stands before the first slash, and the rest.
unfoldable pub split : List ℕ → List ℕ × List (List ℕ)
split [] = ([], [])
split (c ∷ cs) = let (p, ps) = split cs in if c == slash then ([], p ∷ ps) else (c ∷ p, ps)

unfoldable pub is_skipped : List ℕ → Bool
unfolding same_name
is_skipped p = same_name p [] || same_name p (46 ∷ [])

unfoldable pub is_parent : List ℕ → Bool
unfolding same_name
is_parent p = same_name p (46 ∷ 46 ∷ [])

-- The loop of `normalize`; the vector `parts` is listed from its end.
unfoldable pub walk : List (List ℕ) → List (List ℕ) → Result FsError (List (List ℕ))
unfolding is_skipped is_parent
walk [] parts = ok parts
walk (p ∷ ps) [] =
    let skip = walk ps [] in
    let push = walk ps (p ∷ []) in
    if is_skipped p then skip else if is_parent p then err FsError.invalid_path else push
walk (p ∷ ps) (q ∷ parts) =
    let skip = walk ps (q ∷ parts) in
    let pop = walk ps parts in
    let push = walk ps (p ∷ q ∷ parts) in
    if is_skipped p then skip else if is_parent p then pop else push

-- Each part behind a slash: `"/"` and `parts.join("/")`, but for no part at all.
unfoldable pub join_parts : List (List ℕ) → List ℕ
join_parts [] = []
join_parts (p ∷ ps) = slash ∷ (p ++ join_parts ps)

unfoldable pub render : List (List ℕ) → List ℕ
unfolding join_parts
render [] = slash ∷ []
render (p ∷ ps) = join_parts (p ∷ ps)

unfoldable pub normalize : List ℕ → Result FsError (List ℕ)
unfolding split walk render
normalize path = elim (walk ((split path).0 ∷ (split path).1) []) [
  | err e ↦ err e
  | ok parts ↦ ok (render (reverse parts))
]

unfoldable pub strip_prefix : List ℕ → List ℕ → Option (List ℕ)
strip_prefix [] path = some path
strip_prefix (p ∷ ps) [] = none
strip_prefix (p ∷ ps) (c ∷ cs) = let rest = strip_prefix ps cs in if p == c then rest else none

unfoldable pub trim_start : List ℕ → List ℕ
trim_start [] = []
trim_start (c ∷ cs) = let rest = trim_start cs in if c == slash then rest else c ∷ cs

unfoldable pub starts_with_slash : List ℕ → Bool
starts_with_slash [] = false
starts_with_slash (c ∷ cs) = c == slash

-- The body of `filter_map` in `route`: the path inside the mount at `prefix`.
unfoldable pub inner_path : List ℕ → List ℕ → Option (List ℕ)
unfolding same_name strip_prefix trim_start starts_with_slash
inner_path prefix path =
    let below : Option (List ℕ) = elim (strip_prefix prefix path) [
      | none ↦ none
      | some tail ↦ if starts_with_slash tail then some (trim_start tail) else none
    ] in
    if same_name prefix (slash ∷ [])
    then some (trim_start path)
    else if same_name path prefix
    then some []
    else below

-- What `list` makes of a mount, from the path listed and the mount's prefix: the name of the entry
-- that it adds, if it adds one. The path is normalized, so no slash stands at its end but in `/`.
unfoldable pub child_name : List ℕ → List ℕ → Option (List ℕ)
unfolding same_name strip_prefix trim_start split
child_name path prefix =
    let name =
      λ (rest : List ℕ). if same_name (split rest).0 [] then none else some (split rest).0 in
    let below : Option (List ℕ) = elim (strip_prefix path prefix) [
      | none ↦ none
      | some tail ↦ name (trim_start tail)
    ] in
    if same_name prefix path
    then none
    else if same_name path (slash ∷ [])
    then name (trim_start prefix)
    else below
