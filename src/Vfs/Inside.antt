-- ===== src/Vfs/Inside.antt =====
-- When a path lies in a mount of src/vfs.rs, next to the body of `filter_map` in `route`.
use eonos.Prelude.{
  ℕ, ◌≡◌, ◌≢◌, refl, ap, ◌∙◌, List, [], ◌∷◌, ◌++◌, true, false, none, some, subst, ◌==◌, arith,
  Bool-cases, Option-cases, inl, inr,
}
use eonos.Block.{same_name}
use eonos.Vfs.{slash, strip_prefix, trim_start, starts_with_slash, inner_path}
use eonos.Vfs.Normal.{strip_prefix-append}

-- `inner` is the path without the slashes that it begins with.
pub data Trimmed : List ℕ → List ℕ → Type 0 where
  nothing : Trimmed [] []
  stops : (c : ℕ) (rest : List ℕ) → c ≢ 47 → Trimmed (c ∷ rest) (c ∷ rest)
  skips : (rest inner : List ℕ) → Trimmed rest inner → Trimmed (47 ∷ rest) inner

-- A path lies in the mount at `/`, in the mount that it names, and in a mount whose prefix it
-- continues with a slash; `inner` is the path inside the mount.
pub data Inside (prefix path : List ℕ) : List ℕ → Type 0 where
  in_root : (inner : List ℕ) → prefix ≡ 47 ∷ [] → Trimmed path inner → Inside prefix path inner
  mount_itself : path ≡ prefix → Inside prefix path []
  under :
      (tail inner : List ℕ)
      → path ≡ prefix ++ (47 ∷ tail)
      → Trimmed tail inner
      → Inside prefix path inner

abbrev pub Outside : List ℕ → List ℕ → Type 0
Outside prefix path = (inner : List ℕ) → ¬ Inside prefix path inner

same_name_refl : (a : List ℕ) → same_name a a ≡ true
unfolding same_name
same_name_refl [] = refl
same_name_refl (x ∷ a) = ground (arith, same_name_refl a)

same_name-eq : (a b : List ℕ) → same_name a b ≡ true → a ≡ b
unfolding same_name
same_name-eq [] [] h = refl
same_name-eq [] (y ∷ b) h = absurd (ground (arith, h))
same_name-eq (x ∷ a) [] h = absurd (ground (arith, h))
same_name-eq (x ∷ a) (y ∷ b) h =
    let head : x ≡ y = ground (arith, h) in
    let tail = same_name-eq a b (ground (arith, h)) in ap (λ z. z ∷ a) head ∙ ap (λ z. y ∷ z) tail

strip_prefix-eq : (p path tail : List ℕ) → strip_prefix p path ≡ some tail → path ≡ p ++ tail
unfolding strip_prefix
strip_prefix-eq [] path tail h = ground (arith, h)
strip_prefix-eq (x ∷ p) [] tail h = absurd (ground (arith, h))
strip_prefix-eq (x ∷ p) (c ∷ path) tail h =
    let head : c ≡ x = ground (arith, h) in
    let rest = strip_prefix-eq p path tail (ground (arith, h)) in
    ap (λ z. z ∷ path) head ∙ ap (λ z. x ∷ z) rest

trim_start-Trimmed : (path : List ℕ) → Trimmed path (trim_start path)
unfolding trim_start
trim_start-Trimmed [] = nothing
trim_start-Trimmed (c ∷ rest) = elim (Bool-cases (c == slash)) [
  | inl e ↦
      let is : c ≡ 47 = ground (arith, e) in
      rw is (skips rest (trim_start rest) (trim_start-Trimmed rest))
  | inr e ↦ rw e (stops c rest (ground (arith, e)))
]

-- What the code finds is what the description says.
pub inner_path-Inside :
    (prefix path inner : List ℕ) → inner_path prefix path ≡ some inner → Inside prefix path inner
unfolding inner_path starts_with_slash trim_start
inner_path-Inside prefix path inner h = elim (Bool-cases (same_name prefix (slash ∷ []))) [
  | inl e ↦
      let to : trim_start path ≡ inner = ground (arith, h, e) in
      subst (Inside prefix path) to
        (in_root (trim_start path) (same_name-eq prefix (slash ∷ []) e) (trim_start-Trimmed path))
  | inr e ↦ elim (Bool-cases (same_name path prefix)) [
    | inl f ↦
        let to : [] ≡ inner = ground (arith, h, e, f) in
        subst (Inside prefix path) to (mount_itself (same_name-eq path prefix f))
    | inr f ↦ elim (Option-cases (strip_prefix prefix path)) [
      | inl n ↦ absurd (ground (arith, h, e, f, n))
      | inr (tail, s) ↦ from_tail tail s e f
    ]
  ]
]
  where
    from_tail :
        (tail : List ℕ)
        → strip_prefix prefix path ≡ some tail
        → same_name prefix (slash ∷ []) ≡ false
        → same_name path prefix ≡ false
        → Inside prefix path inner
    from_tail [] s e f = absurd (ground (arith, h, s, e, f))
    from_tail (c ∷ cs) s e f = elim (Bool-cases (c == slash)) [
      | inr n ↦ absurd (ground (arith, h, s, e, f, n))
      | inl y ↦
          let is : c ≡ 47 = ground (arith, y) in
          let to : trim_start cs ≡ inner = ground (arith, h, s, e, f, y) in
          subst (Inside prefix path) to (
            under cs (trim_start cs)
              (strip_prefix-eq prefix path (c ∷ cs) s ∙ ap (λ z. prefix ++ (z ∷ cs)) is)
              (trim_start-Trimmed cs))
    ]

-- Where it finds nothing the path does not lie in the mount.
pub inner_path-Outside :
    (prefix path : List ℕ) → inner_path prefix path ≡ none → Outside prefix path
unfolding inner_path starts_with_slash
inner_path-Outside prefix path h inner (in_root i e t) =
    let yes_root : same_name prefix (slash ∷ []) ≡ true =
      ap (λ p. same_name p (slash ∷ [])) e ∙ same_name_refl (slash ∷ []) in
    absurd (ground (arith, h, yes_root))
inner_path-Outside prefix path h inner (mount_itself e) =
    let same : same_name path prefix ≡ true =
      ap (λ p. same_name p prefix) e ∙ same_name_refl prefix in
    absurd (ground (arith, h, same))
inner_path-Outside prefix path h inner (under tail i e t) =
    let s : strip_prefix prefix path ≡ some (47 ∷ tail) =
      ap (strip_prefix prefix) e ∙ strip_prefix-append prefix (47 ∷ tail) in
    absurd (ground (arith, h, s))
