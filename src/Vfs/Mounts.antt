-- ===== src/Vfs/Mounts.antt =====
-- The mount table of src/vfs.rs and the operations by path.
use eonos.Prelude.{
  ℕ, suc, ◌-◌, min, List, [], ◌∷◌, ◌++◌, Bool, false, not, ◌||◌, Option, none, some, if◌then◌else◌,
  ltb, leb, ◌==◌, length, take, drop, set,
}
use eonos.Prelude.Results.{Result, ok, err}
use eonos.Block.{BlockError, out_of_range, bad_buffer, read_only, same_name}
use eonos.Fat32.{FatError}
use eonos.Vfs.{FsError, map_fat_error, slash, normalize, starts_with_slash, inner_path}

-- The operations of one FAT32 volume on its state. A failed operation returns the state too.
pub record Fat (S : Type 0) : Type 0 where
  pub read_at : S → List ℕ → ℕ → ℕ → Result FatError (List ℕ)
  pub stat : S → List ℕ → Result FatError (Bool × ℕ)
  pub create_file : S → List ℕ → Result FatError (Unit {0}) × S
  pub create_dir : S → List ℕ → Result FatError (Unit {0}) × S
  pub remove : S → List ℕ → Result FatError (Unit {0}) × S
  pub truncate : S → List ℕ → Result FatError (Unit {0}) × S
  pub write_at : S → ℕ → List ℕ → List ℕ → Result FatError ℕ × S
  pub flush : S → Result BlockError (Unit {0}) × S

pub data Filesystem (S : Type 0) : Type 0 where
  initramfs : Filesystem S
  fat32 : S → Filesystem S

pub record Mount (S : Type 0) : Type 0 where
  pub prefix : List ℕ
  pub fs : Filesystem S
  pub source_device : Option (List ℕ)

unfoldable pub flush_error : BlockError → FsError
flush_error read_only = FsError.no_write
flush_error out_of_range = FsError.io
flush_error bad_buffer = FsError.io

unfoldable pub same_device : Option (List ℕ) → Option (List ℕ) → Bool
unfolding same_name
same_device none d = false
same_device (some a) none = false
same_device (some a) (some b) = same_name b a

module _ {S : Type 0} where
  -- `route`: of the mounts that the path lies in, the last of those with the longest prefix, with
  -- its place in the table and the path inside it.
  unfoldable pub route : List (Mount S) → List ℕ → Option (ℕ × Mount S × List ℕ)
  unfolding inner_path
  route [] path = none
  route (m ∷ ms) path =
      let later : Option (ℕ × Mount S × List ℕ) = elim (route ms path) [
        | none ↦ none
        | some (i, n, inner) ↦ some (suc i, n, inner)
      ] in
      elim (inner_path m.prefix path) [
        | none ↦ later
        | some inner ↦ elim later [
          | none ↦ some (0, m, inner)
          | some (i, n, rest) ↦
              if leb (length m.prefix) (length n.prefix)
              then some (i, n, rest)
              else some (0, m, inner)
        ]
      ]

  unfoldable pub init : List (Mount S)
  init = record { prefix = slash ∷ []; fs = initramfs; source_device = none } ∷ []

  unfoldable pub is_taken : List ℕ → Option (List ℕ) → List (Mount S) → Bool
  unfolding same_device
  is_taken prefix source [] = false
  is_taken prefix source (m ∷ ms) =
      same_name m.prefix prefix || same_device source m.source_device || is_taken prefix source ms

  -- `mount_fat32_inner`, with what `Fat32::mount` says of the device.
  unfoldable pub mount_fat32 :
      List ℕ
      → Option (List ℕ)
      → Result FatError S
      → List (Mount S)
      → Result FsError (Unit {0}) × List (Mount S)
  unfolding is_taken starts_with_slash
  mount_fat32 prefix source volume mounts =
      let mounted : Result FsError (Unit {0}) × List (Mount S) = elim (normalize prefix) [
        | err e ↦ (err e, mounts)
        | ok prefix ↦
            let placed : Result FsError (Unit {0}) × List (Mount S) = elim volume [
              | err e ↦ (err FsError.io, mounts)
              | ok fs ↦
                  if is_taken prefix source mounts then (err FsError.invalid_path, mounts) else (
                    ok tt,
                    mounts
                        ++ (record { prefix = prefix; fs = fat32 fs; source_device = source } ∷ []),
                  )
            ] in
            if same_name prefix (slash ∷ []) then (err FsError.invalid_path, mounts) else placed
      ] in
      if not (starts_with_slash prefix) then (err FsError.invalid_path, mounts) else mounted

  unfoldable pub mountpoint_for_device : List ℕ → List (Mount S) → Option (List ℕ)
  unfolding same_device
  mountpoint_for_device device [] = none
  mountpoint_for_device device (m ∷ ms) =
      let later = mountpoint_for_device device ms in
      if same_device (some device) m.source_device then some m.prefix else later

  module _ (fat : Fat S) where
    -- The flush after an operation that succeeded.
    unfoldable pub then_flush : {A : Type 0} → Result FatError A × S → Result FsError A × S
    unfolding flush_error map_fat_error
    then_flush (err e, s1) = (err (map_fat_error e), s1)
    then_flush (ok a, s1) =
        let (f, s2) = fat.flush s1 in
        elim f [ err e ↦ (err (flush_error e), s2) | ok u ↦ (ok a, s2) ]

    -- What `create_file`, `create_dir`, `remove`, `truncate` and `write_at` have in common: `op` on
    -- the volume that the path leads to, and the flush after it.
    unfoldable pub change :
        {A : Type 0}
        → (S → List ℕ → Result FatError A × S)
        → List ℕ
        → List (Mount S)
        → Result FsError A × List (Mount S)
    unfolding route then_flush
    change op path mounts = elim (normalize path) [
      | err e ↦ (err e, mounts)
      | ok path ↦ elim (route mounts path) [
        | none ↦ (err FsError.not_found, mounts)
        | some (i, m, inner) ↦ elim m.fs [
          | initramfs ↦ (err FsError.no_write, mounts)
          | fat32 s ↦
              let (r, s') = then_flush (op s inner) in
              (r, set mounts i (record m { fs = fat32 s' }))
        ]
      ]
    ]

    unfoldable pub create_file :
        List ℕ → List (Mount S) → Result FsError (Unit {0}) × List (Mount S)
    unfolding change
    create_file path mounts = change fat.create_file path mounts

    unfoldable pub create_dir : List ℕ → List (Mount S) → Result FsError (Unit {0}) × List (Mount S)
    unfolding change
    create_dir path mounts = change fat.create_dir path mounts

    unfoldable pub remove : List ℕ → List (Mount S) → Result FsError (Unit {0}) × List (Mount S)
    unfolding change
    remove path mounts = change fat.remove path mounts

    unfoldable pub truncate : List ℕ → List (Mount S) → Result FsError (Unit {0}) × List (Mount S)
    unfolding change
    truncate path mounts = change fat.truncate path mounts

    unfoldable pub write_at :
        List ℕ → ℕ → List ℕ → List (Mount S) → Result FsError ℕ × List (Mount S)
    unfolding change
    write_at path offset bytes mounts =
        change (λ s inner. fat.write_at s offset inner bytes) path mounts

    module _ (find : List ℕ → Option (List ℕ)) where
      -- The bytes read, for a buffer of `len` bytes.
      unfoldable pub read_at : List ℕ → ℕ → ℕ → List (Mount S) → Result FsError (List ℕ)
      unfolding route map_fat_error
      read_at path offset len mounts = elim (normalize path) [
        | err e ↦ err e
        | ok path ↦ elim (route mounts path) [
          | none ↦ err FsError.not_found
          | some (i, m, inner) ↦ elim m.fs [
            | fat32 s ↦ elim (fat.read_at s inner offset len) [
              | err e ↦ err (map_fat_error e)
              | ok bytes ↦ ok bytes
            ]
            | initramfs ↦ elim (find inner) [
              | none ↦ err FsError.not_found
              | some file ↦
                  if leb (length file) offset
                  then ok []
                  else ok (take (min len (length file - offset)) (drop offset file))
            ]
          ]
        ]
      ]

      unfoldable pub file_size : List ℕ → List (Mount S) → Result FsError ℕ
      unfolding route map_fat_error
      file_size path mounts = elim (normalize path) [
        | err e ↦ err e
        | ok path ↦ elim (route mounts path) [
          | none ↦ err FsError.not_found
          | some (i, m, inner) ↦ elim m.fs [
            | initramfs ↦ elim (find inner) [
              | none ↦ err FsError.not_found
              | some file ↦ ok (length file)
            ]
            | fat32 s ↦ elim (fat.stat s inner) [
              | err e ↦ err (map_fat_error e)
              | ok (is_dir, size) ↦ if is_dir then err FsError.is_directory else ok size
            ]
          ]
        ]
      ]

      unfoldable pub read_all : List ℕ → List (Mount S) → Result FsError (List ℕ)
      unfolding file_size read_at
      read_all path mounts = elim (file_size path mounts) [
        | err e ↦ err e
        | ok size ↦
            let whole : Result FsError (List ℕ) = elim (read_at path 0 size mounts) [
              | err e ↦ err e
              | ok bytes ↦ if not (length bytes == size) then err FsError.io else ok bytes
            ] in
            if ltb 0x100_0000 size then err FsError.too_large else whole
      ]
