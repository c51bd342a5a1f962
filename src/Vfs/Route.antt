-- ===== src/Vfs/Route.antt =====
-- Which mount of src/vfs.rs a path leads to, and what an operation by path changes.
use eonos.Prelude.{
  ℕ, suc, ◌≤◌, ◌≡◌, ◌⊎◌, refl, sym, subst, List, [], ◌∷◌, Option, none, some, leb, length, set,
  get_elem?, All, arith, Bool-cases, Option-cases, inl, inr, if◌then◌else◌,
}
use eonos.Prelude.Results.{Result, ok, err, Result-cases}
use eonos.Fat32.{FatError}
use eonos.Block.{BlockError}
use eonos.Vfs.{FsError, normalize, inner_path, map_fat_error}
use eonos.Vfs.Inside.{Inside, Outside, inner_path-Inside, inner_path-Outside}
use eonos.Vfs.Mounts.{
  Fat, Mount, Filesystem, initramfs, fat32, flush_error, route, then_flush, change,
}

module _ {S : Type 0} where
  -- The mount `m`, at place `i`, is one that the path lies in, and none of those has a longer prefix.
  pub record Longest (mounts : List (Mount S)) (path : List ℕ) (i : ℕ) (m : Mount S)
      (inner : List ℕ) : Type 0 where
    pub at : get_elem? mounts i ≡ some m
    pub inside : inner_path m.prefix path ≡ some inner
    pub longest :
        All (λ n. (inner_path n.prefix path ≡ none) ⊎ (length n.prefix ≤ length m.prefix)) mounts

  pub data Routed (mounts : List (Mount S)) (path : List ℕ)
      : Option (ℕ × Mount S × List ℕ) → Type 0 where
    nowhere : All (λ n. inner_path n.prefix path ≡ none) mounts → Routed mounts path none
    leads :
        (i : ℕ) (m : Mount S) (inner : List ℕ)
        → Longest mounts path i m inner
        → Routed mounts path (some (i, m, inner))

  either :
      (path : List ℕ) (n : ℕ) (mounts : List (Mount S))
      → All (λ n. inner_path n.prefix path ≡ none) mounts
      → All (λ k. (inner_path k.prefix path ≡ none) ⊎ (length k.prefix ≤ n)) mounts
  either path n [] a = tt
  either path n (m ∷ ms) a = (inl a.0, either path n ms a.1)

  shorter :
      (path : List ℕ) (n n' : ℕ) (mounts : List (Mount S))
      → n ≤ n'
      → All (λ k. (inner_path k.prefix path ≡ none) ⊎ (length k.prefix ≤ n)) mounts
      → All (λ k. (inner_path k.prefix path ≡ none) ⊎ (length k.prefix ≤ n')) mounts
  shorter path n n' [] h a = tt
  shorter path n n' (m ∷ ms) h a =
      (elim a.0 [ inl e ↦ inl e | inr e ↦ inr (omega arith) ], shorter path n n' ms h a.1)

  route-outside :
      (m : Mount S) (ms : List (Mount S)) (path : List ℕ)
      → inner_path m.prefix path ≡ none
      → route (m ∷ ms) path
        ≡ elim (route ms path) [ none ↦ none | some (i, n, inner) ↦ some (suc i, n, inner) ]
  unfolding route
  route-outside m ms path e = rw (e, route) refl

  route-last :
      (m : Mount S) (ms : List (Mount S)) (path inner : List ℕ)
      → inner_path m.prefix path ≡ some inner
      → route ms path ≡ none
      → route (m ∷ ms) path ≡ some (0, m, inner)
  unfolding route
  route-last m ms path inner e f = rw (e, route, f) refl

  route-either :
      (m n : Mount S) (ms : List (Mount S)) (path inner rest : List ℕ) (i : ℕ)
      → inner_path m.prefix path ≡ some inner
      → route ms path ≡ some (i, n, rest)
      → route (m ∷ ms) path ≡ (
          if leb (length m.prefix) (length n.prefix)
          then some (suc i, n, rest)
          else some (0, m, inner))
  unfolding route
  route-either m n ms path inner rest i e f = rw (e, route, f) refl

  outside :
      (m : Mount S) (ms : List (Mount S)) (path : List ℕ)
      → inner_path m.prefix path ≡ none
      → (r : Option (ℕ × Mount S × List ℕ)) → Routed ms path r
      → Routed (m ∷ ms) path (elim r [ none ↦ none | some (i, n, inner) ↦ some (suc i, n, inner) ])
  outside m ms path e none (nowhere a) = nowhere (e, a)
  outside m ms path e (some o) (leads i n inner l) =
      leads (suc i) n inner (record { at = l.at; inside = l.inside; longest = (inl e, l.longest) })

  inside_too :
      (m : Mount S) (ms : List (Mount S)) (path inner : List ℕ)
      → inner_path m.prefix path ≡ some inner
      → (r : Option (ℕ × Mount S × List ℕ)) → route ms path ≡ r
      → Routed ms path r
      → Routed (m ∷ ms) path (route (m ∷ ms) path)
  inside_too m ms path inner e none f (nowhere a) =
      subst (Routed (m ∷ ms) path) (sym (route-last m ms path inner e f)) (
        leads 0 m inner (record {
          at = refl;
          inside = e;
          longest = (inr (omega arith), either path (length m.prefix) ms a);
        }))
  inside_too m ms path inner e (some o) f (leads i n rest l) =
      subst (Routed (m ∷ ms) path) (sym (route-either m n ms path inner rest i e f))
        (elim (Bool-cases (leb (length m.prefix) (length n.prefix))) [
          | inl g ↦ rw g (
              leads (suc i) n rest (record {
                at = l.at;
                inside = l.inside;
                longest = (inr (ground arith), l.longest);
              }))
          | inr g ↦ rw g (
              leads 0 m inner (record {
                at = refl;
                inside = e;
                longest = (
                  inr (omega arith),
                  shorter path (length n.prefix) (length m.prefix) ms (ground arith) l.longest,
                );
              }))
        ])

  -- `route` leads to the mount with the longest prefix among those that the path lies in, at its
  -- place in the table and with the path inside it; and it leads nowhere only if the path lies in
  -- no mount.
  pub route-Routed :
      (mounts : List (Mount S)) (path : List ℕ) → Routed mounts path (route mounts path)
  unfolding route
  route-Routed [] path = nowhere tt
  route-Routed (m ∷ ms) path = elim (Option-cases (inner_path m.prefix path)) [
    | inl e ↦
        subst (Routed (m ∷ ms) path) (sym (route-outside m ms path e))
          (outside m ms path e (route ms path) (route-Routed ms path))
    | inr (inner, e) ↦ inside_too m ms path inner e (route ms path) refl (route-Routed ms path)
  ]

  -- The mount `m`, at place `i`, is one that the path lies in, with `inner` inside it, and the path
  -- lies outside of every mount whose prefix is longer.
  pub record Governs (mounts : List (Mount S)) (path : List ℕ) (i : ℕ) (m : Mount S)
      (inner : List ℕ) : Type 0 where
    pub at : get_elem? mounts i ≡ some m
    pub inside : Inside m.prefix path inner
    pub longest : All (λ n. Outside n.prefix path ⊎ (length n.prefix ≤ length m.prefix)) mounts

  -- What an operation that changes files answers, and what it leaves of the mount table.
  pub data Changed (fat : Fat S) {A : Type 0} (op : S → List ℕ → Result FatError A × S)
      (path : List ℕ) (mounts : List (Mount S)) : Result FsError A → List (Mount S) → Type 0 where
    bad_path : (e : FsError) → normalize path ≡ err e → Changed fat op path mounts (err e) mounts
    no_mount :
        (full : List ℕ)
        → normalize path ≡ ok full
        → All (λ n. Outside n.prefix full) mounts
        → Changed fat op path mounts (err FsError.not_found) mounts
    on_initramfs :
        (full inner : List ℕ) (i : ℕ) (m : Mount S)
        → normalize path ≡ ok full
        → Governs mounts full i m inner
        → m.fs ≡ initramfs
        → Changed fat op path mounts (err FsError.no_write) mounts
    op_failed :
        (full inner : List ℕ) (i : ℕ) (m : Mount S) (s s1 : S) (e : FatError)
        → normalize path ≡ ok full
        → Governs mounts full i m inner
        → m.fs ≡ fat32 s
        → op s inner ≡ (err e, s1)
        → Changed fat op path mounts
            (err (map_fat_error e))
            (set mounts i (record m { fs = fat32 s1 }))
    flush_failed :
        (full inner : List ℕ) (i : ℕ) (m : Mount S) (s s1 s2 : S) (a : A) (e : BlockError)
        → normalize path ≡ ok full
        → Governs mounts full i m inner
        → m.fs ≡ fat32 s
        → op s inner ≡ (ok a, s1)
        → fat.flush s1 ≡ (err e, s2)
        → Changed fat op path mounts
            (err (flush_error e))
            (set mounts i (record m { fs = fat32 s2 }))
    flushed :
        (full inner : List ℕ) (i : ℕ) (m : Mount S) (s s1 s2 : S) (a : A)
        → normalize path ≡ ok full
        → Governs mounts full i m inner
        → m.fs ≡ fat32 s
        → op s inner ≡ (ok a, s1)
        → fat.flush s1 ≡ (ok tt, s2)
        → Changed fat op path mounts (ok a) (set mounts i (record m { fs = fat32 s2 }))

  Routed-Longest :
      (mounts : List (Mount S)) (path : List ℕ) (i : ℕ) (m : Mount S) (inner : List ℕ)
      → Routed mounts path (some (i, m, inner))
      → Longest mounts path i m inner
  Routed-Longest mounts path i m inner (leads j n l h) = h

  fs_cases : (f : Filesystem S) → (f ≡ initramfs) ⊎ ((s : S) × (f ≡ fat32 s))
  fs_cases initramfs = inl refl
  fs_cases (fat32 s) = inr (s, refl)

  all-Outside :
      (path : List ℕ) (mounts : List (Mount S))
      → All (λ n. inner_path n.prefix path ≡ none) mounts
      → All (λ n. Outside n.prefix path) mounts
  all-Outside path [] a = tt
  all-Outside path (m ∷ ms) a = (inner_path-Outside m.prefix path a.0, all-Outside path ms a.1)

  all-longest :
      (path : List ℕ) (k : ℕ) (mounts : List (Mount S))
      → All (λ n. (inner_path n.prefix path ≡ none) ⊎ (length n.prefix ≤ k)) mounts
      → All (λ n. Outside n.prefix path ⊎ (length n.prefix ≤ k)) mounts
  all-longest path k [] a = tt
  all-longest path k (m ∷ ms) a = (
    elim a.0 [ inl e ↦ inl (inner_path-Outside m.prefix path e) | inr l ↦ inr l ],
    all-longest path k ms a.1,
  )

  Routed-Governs :
      (mounts : List (Mount S)) (path : List ℕ) (i : ℕ) (m : Mount S) (inner : List ℕ)
      → route mounts path ≡ some (i, m, inner)
      → Governs mounts path i m inner
  Routed-Governs mounts path i m inner y =
      let l =
        Routed-Longest mounts path i m inner
          (subst (Routed mounts path) y (route-Routed mounts path)) in
      record {
        at = l.at;
        inside = inner_path-Inside m.prefix path inner l.inside;
        longest = all-longest path (length m.prefix) mounts l.longest;
      }

  Routed-none :
      (mounts : List (Mount S)) (path : List ℕ)
      → Routed mounts path none
      → All (λ n. inner_path n.prefix path ≡ none) mounts
  Routed-none mounts path (nowhere a) = a

  module _ (fat : Fat S) {A : Type 0} (op : S → List ℕ → Result FatError A × S) (path full : List ℕ)
      (mounts : List (Mount S)) (x : normalize path ≡ ok full) where
    -- The operation on the volume that the path leads to, and the flush.
    on_volume-Changed :
        (i : ℕ) (m : Mount S) (inner : List ℕ) (s : S)
        → Governs mounts full i m inner
        → m.fs ≡ fat32 s
        → Changed fat op path mounts
            (then_flush fat (op s inner)).0
            (set mounts i (record m { fs = fat32 (then_flush fat (op s inner)).1 }))
    unfolding then_flush
    on_volume-Changed i m inner s g z = after (op s inner) refl
      where
        after :
            (r : Result FatError A × S)
            → op s inner ≡ r
            → Changed fat op path mounts
                (then_flush fat r).0
                (set mounts i (record m { fs = fat32 (then_flush fat r).1 }))
        after (err e, s1) o = op_failed full inner i m s s1 e x g z o
        after (ok a, s1) o = after_flush (fat.flush s1) refl
          where
            after_flush :
                (f : Result BlockError (Unit {0}) × S)
                → fat.flush s1 ≡ f
                → let r : Result FsError A × S = elim f.0 [
                  | err e ↦ (err (flush_error e), f.1)
                  | ok u ↦ (ok a, f.1)
                ] in
                  Changed fat op path mounts r.0 (set mounts i (record m { fs = fat32 r.1 }))
            after_flush (err e, s2) w = flush_failed full inner i m s s1 s2 a e x g z o w
            after_flush (ok tt, s2) w = flushed full inner i m s s1 s2 a x g z o w

  -- The operations that change files (`create_file`, `create_dir`, `remove`, `truncate`,
  -- `write_at`) fail and leave the mount table as it is exactly where the path is malformed, lies in
  -- no mount, or leads to the initramfs. Otherwise the operation is carried out on the one FAT32
  -- volume whose mount point is the longest that the normalized path lies in, at the path inside it,
  -- and no other mount changes. If it fails its error is the answer and nothing is flushed; if it
  -- succeeds the volume is flushed, and the answer is that of the operation, or the error of the
  -- flush. A path lies in the mount at `/`, in the mount it names, and in one whose prefix it
  -- continues with a slash.
  pub change-Changed :
      (fat : Fat S) {A : Type 0} (op : S → List ℕ → Result FatError A × S) (path : List ℕ)
      (mounts : List (Mount S))
      → Changed fat op path mounts (change fat op path mounts).0 (change fat op path mounts).1
  unfolding change
  change-Changed fat op path mounts = elim (Result-cases (normalize path)) [
    | inl (e, x) ↦ rw (x, change) (bad_path e x)
    | inr (full, x) ↦ elim (Option-cases (route mounts full)) [
      | inl y ↦
          let nowhere_in =
            Routed-none mounts full (subst (Routed mounts full) y (route-Routed mounts full)) in
          rw (x, change, y) (no_mount full x (all-Outside full mounts nowhere_in))
      | inr ((i, m, inner), y) ↦
          let g = Routed-Governs mounts full i m inner y in
          elim (fs_cases m.fs) [
            | inl z ↦ rw (x, change, y, z) (on_initramfs full inner i m x g z)
            | inr (s, z) ↦
                rw (x, change, y, z) (on_volume-Changed fat op path full mounts x i m inner s g z)
          ]
    ]
  ]
