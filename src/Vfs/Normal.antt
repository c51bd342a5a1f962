-- ===== src/Vfs/Normal.antt =====
-- What `normalize` of src/vfs.rs makes of a path.
use eonos.Prelude.{ℕ, ◌≡◌, refl, List, [], ◌∷◌, ◌++◌, false, All, ◌==◌, arith, some}
use eonos.Block.{same_name}
use eonos.Vfs.{slash, split, is_skipped, is_parent, render, child_name, strip_prefix, trim_start}

-- A component of a normalized path: not empty, not `.`, not `..`, without a slash.
pub record Plain (p : List ℕ) : Type 0 where
  pub kept : is_skipped p ≡ false
  pub no_parent : is_parent p ≡ false
  pub no_slash : All (λ c. (c == slash) ≡ false) p

abbrev NoSlash : List ℕ → Type 0
NoSlash p = All (λ c. (c == slash) ≡ false) p

-- An absolute path of plain components.
pub record Normal (out : List ℕ) : Type 0 where
  pub parts : List (List ℕ)
  pub plain : All Plain parts
  pub written : out ≡ render parts

same_name-longer : (p w : List ℕ) (c : ℕ) → same_name (p ++ (c ∷ w)) p ≡ false
unfolding same_name
same_name-longer [] w c = refl
same_name-longer (x ∷ p) w c = ground (arith, same_name-longer p w c)

pub strip_prefix-append : (p w : List ℕ) → strip_prefix p (p ++ w) ≡ some w
unfolding strip_prefix
strip_prefix-append [] w = refl
strip_prefix-append (x ∷ p) w = ground (arith, strip_prefix-append p w)

split-NoSlash_all : (w : List ℕ) → NoSlash w → (split w).0 ≡ w
unfolding split
split-NoSlash_all [] n = refl
split-NoSlash_all (c ∷ w) n = ground (arith, n.0, split-NoSlash_all w n.1)

-- `list` takes a mount whose path only begins with the same letters for one inside the directory:
-- listing a directory other than `/` shows, for every mount whose prefix is the directory's path
-- with more letters behind it and no slash between, an entry named by these letters alone.
pub child_name-fragment :
    (path rest : List ℕ) (c : ℕ)
    → same_name path (slash ∷ []) ≡ false
    → (c == slash) ≡ false
    → All (λ c. (c == slash) ≡ false) rest
    → child_name path (path ++ (c ∷ rest)) ≡ some (c ∷ rest)
unfolding child_name trim_start
child_name-fragment path rest c root e n = ground (
  arith,
  same_name-longer path rest c,
  strip_prefix-append path (c ∷ rest),
  split-NoSlash_all (c ∷ rest) (e, n),
  root,
  e,
)
