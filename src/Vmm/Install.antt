-- ===== src/Vmm/Install.antt =====
-- A new table in the page tables of src/vmm.rs: an empty one, or the pages of a split huge page.
use eonos.Prelude.{
  ℕ, ◌+◌, ◌*◌, ◌<◌, ◌≤◌, ◌≡◌, ◌≢◌, ◌⊎◌, refl, ap, sym, ◌∙◌, subst, true, false, some, arith, ◌==◌,
  inl, inr, if◌then◌else◌, ℕ_discrete,
}
use eonos.Pmm.Bits.{test_bit}
use eonos.Pmm.Valid.{Takes}
use eonos.Pmm.{Pmm}
use eonos.Vmm.{Mem, present, huge, frame_of, write, zero_bytes}
use eonos.Vmm.Entry.{link-huge, link-frame_of}
use eonos.Vmm.Tree.{Level, pml4, pdpt, pd, pt, Place, Tree, Touches}

abbrev pub next_level : Level → Level
next_level pml4 = pdpt
next_level pdpt = pd
next_level pd = pt
next_level pt = pt

abbrev pub next_number : Level → ℕ → ℕ → ℕ
next_number pml4 v i = i
next_number pdpt v i = v * 512 + i
next_number pd v i = v * 512 + i
next_number pt v i = v * 512 + i

-- The table behind an entry.
pub below :
    (root : ℕ) (place : Place) (m : Mem)
    → Tree root place m
    → (l : Level) (t' v' i' : ℕ) → l ≢ pt
    → place t' ≡ some (l, v')
    → i' < 512
    → present (m.table t' i') ≡ true
    → huge (m.table t' i') ≡ false
    → place (frame_of (m.table t' i')) ≡ some (next_level l, next_number l v' i')
below root place m tree pml4 t' v' i' n h k p g =
    let e = tree.only_root t' v' h in
    rw e (tree.below_pml4 i' k (subst (λ r. present (m.table r i') ≡ true) e p))
below root place m tree pdpt t' v' i' n h k p g = tree.below_pdpt t' v' i' h k p g
below root place m tree pd t' v' i' n h k p g = tree.below_pd t' v' i' h k p g
below root place m tree pt t' v' i' n h k p g = absurd (n refl)

-- No frame that is allocated becomes free, and the bytes of these frames are as they were.
pub record KeepsBytes (m m' : Mem) : Type 0 where
  pub marks : (f : ℕ) → test_bit m.pmm.bitmap f ≡ true → test_bit m'.pmm.bitmap f ≡ true
  pub same :
      (f a : ℕ)
      → test_bit m.pmm.bitmap f ≡ true
      → f * 4096 ≤ a
      → a < f * 4096 + 4096
      → m'.bytes a ≡ m.bytes a

pub KeepsBytes-refl : (m : Mem) → KeepsBytes m m
KeepsBytes-refl m = record { marks = λ f h. h; same = λ f a h l u. refl }

pub KeepsBytes-trans : (m m1 m2 : Mem) → KeepsBytes m m1 → KeepsBytes m1 m2 → KeepsBytes m m2
KeepsBytes-trans m m1 m2 j k = record {
  marks = λ f h. k.marks f (j.marks f h);
  same = λ f a h l u. k.same f a (j.marks f h) l u ∙ j.same f a h l u;
}

pub KeepsBytes-write : (m m1 : Mem) (t i e : ℕ) → KeepsBytes m m1 → KeepsBytes m (write m1 t i e)
unfolding write
KeepsBytes-write m m1 t i e k = record { marks = k.marks; same = k.same }

-- A frame that is taken was not allocated, so zeroing it touches no other.
pub KeepsBytes-zeroed :
    (m : Mem) (table : ℕ → ℕ → ℕ) (f : ℕ) (q : Pmm)
    → Takes m.pmm f 1 q
    → KeepsBytes m (record { table = table; bytes = zero_bytes m.bytes (f * 4096); pmm = q })
KeepsBytes-zeroed m table f q k = record {
  marks = λ g h. ground (arith, k.marked g, h);
  same = λ g a h l u. elim (ℕ_discrete g f) [
    | yes e ↦ absurd (ground (arith, k.was_clear f (omega arith) (omega arith), e, h))
    | no n ↦ ground (arith, n, l, u)
  ];
}

-- The frame `f`, clear before, has become a table with the entries `new`, and entry `i` of `t`
-- points to it.
pub record Installed (m m' : Mem) (t i f : ℕ) (new : ℕ → ℕ) : Type 0 where
  pub link : m'.table t i ≡ f * 4096 + 7
  pub filled_in : (i' : ℕ) → m'.table (f * 4096) i' ≡ new i'
  pub others : (t' i' : ℕ) → t' ≢ f * 4096 → (t' ≡ t → i' ≢ i) → m'.table t' i' ≡ m.table t' i'
  pub takes : Takes m.pmm f 1 m'.pmm
  pub same_bytes : KeepsBytes m m'

unfoldable pub put_place : Place → ℕ → Level → ℕ → Place
put_place place t l v t' = if t' == t then some (l, v) else place t'

module _ (root : ℕ) (place : Place) (m m' : Mem) (tree : Tree root place m) (t i v f : ℕ)
    (level : Level) (new : ℕ → ℕ) (at : place t ≡ some (level, v)) (above : level ≢ pt)
    (lt : i < 512) (ins : Installed m m' t i f new)
    (no_links : level ≢ pd
      → (i' : ℕ) → i' < 512
      → present (new i') ≡ true
      → huge (new i') ≡ true) where
  pub f-lt : f < 0x100_0000_0000
  f-lt = omega (arith, ins.takes.inside, tree.small)

  not_fresh : (t' : ℕ) (p : Level × ℕ) → place t' ≡ some p → t' ≢ f * 4096
  not_fresh t' p h e =
      let (g, at_g, set_g, small_g) = tree.taken t' p h in
      let same : f ≡ g = omega arith in
      absurd (ground (arith, ins.takes.was_clear f (omega arith) (omega arith), same, set_g))

  pub place' : Place
  place' = put_place place (f * 4096) (next_level level) (next_number level v i)

  pub keeps_place : (t' : ℕ) (p : Level × ℕ) → place t' ≡ some p → place' t' ≡ some p
  unfolding place' put_place
  keeps_place t' p h = ground (arith, not_fresh t' p h, h)

  pub new_place : place' (f * 4096) ≡ some (next_level level, next_number level v i)
  unfolding place' put_place
  new_place = ground arith

  pub touches : Touches place t i m m'
  touches = record { same = λ t' i' p h n. ins.others t' i' (not_fresh t' p h) n }

  -- A table of the new tree is the new one or an old one.
  old_or_new :
      (t' : ℕ) (p : Level × ℕ)
      → place' t' ≡ some p
      → ((t' ≡ f * 4096) × (p ≡ (next_level level, next_number level v i))) ⊎ (place t' ≡ some p)
  unfolding place' put_place
  old_or_new t' p h = elim (ℕ_discrete t' (f * 4096)) [
    | yes e ↦ inl (e, ground (arith, h, e))
    | no n ↦ inr (ground (arith, h, n))
  ]

  -- An entry of an old table is the link, or as it was.
  link_or_same :
      (t' i' : ℕ) (p : Level × ℕ)
      → place t' ≡ some p
      → ((t' ≡ t) × (i' ≡ i)) ⊎ (m'.table t' i' ≡ m.table t' i')
  link_or_same t' i' p h = elim (ℕ_discrete t' t) [
    | no n ↦ inr (touches.same t' i' p h (λ e. absurd (n e)))
    | yes e ↦ elim (ℕ_discrete i' i) [
      | no n ↦ inr (touches.same t' i' p h (λ e. n))
      | yes k ↦ inl (e, k)
    ]
  ]

  -- Where the link leads.
  link_place :
      (t' i' : ℕ) (p : Level × ℕ)
      → place t' ≡ some p
      → t' ≡ t
      → i' ≡ i
      → place' (frame_of (m'.table t' i')) ≡ some (next_level p.0, next_number p.0 p.1 i')
  link_place t' i' p h e k =
      let same : (level, v) ≡ p = ground (arith, at, h, e) in
      let to : frame_of (m'.table t' i') ≡ f * 4096 = rw (e, k, ins.link) (link-frame_of f f-lt) in
      subst
        (λ q. place' (frame_of (m'.table t' i')) ≡ some (next_level q.0, next_number q.0 q.1 i'))
        same (rw (to, k) new_place)

  -- The children of the new tree.
  children :
      (l : Level) (t' v' i' : ℕ)
      → l ≢ pt
      → place' t' ≡ some (l, v')
      → i' < 512
      → present (m'.table t' i') ≡ true
      → huge (m'.table t' i') ≡ false
      → place' (frame_of (m'.table t' i')) ≡ some (next_level l, next_number l v' i')
  children l t' v' i' n h k p g = elim (old_or_new t' (l, v') h) [
    | inl (e, q) ↦
        let now : m'.table t' i' ≡ new i' = rw e (ins.filled_in i') in
        let not_pd : level ≢ pd = λ z. n (ap (λ x. x.0) q ∙ ap next_level z) in
        absurd (ground (arith, no_links not_pd i' k (sym (ap present now) ∙ p), now, g))
    | inr old ↦ elim (link_or_same t' i' (l, v') old) [
      | inl (e, j) ↦ link_place t' i' (l, v') old e j
      | inr same ↦
          subst (λ x. place' (frame_of x) ≡ some (next_level l, next_number l v' i')) (sym same)
            (keeps_place (frame_of (m.table t' i')) (next_level l, next_number l v' i')
              (below root place m tree l t' v' i' n old k (sym (ap present same) ∙ p)
                (sym (ap huge same) ∙ g)))
    ]
  ]

  root_no_huge :
      (i' : ℕ) → i' < 512 → present (m'.table root i') ≡ true → huge (m'.table root i') ≡ false
  root_no_huge i' k p = elim (link_or_same root i' (pml4, 0) tree.at_root) [
    | inl (e, j) ↦ rw (e, j, ins.link) (link-huge f)
    | inr same ↦ rw same (tree.no_huge i' k (sym (ap present same) ∙ p))
  ]

  root_only : (t' v' : ℕ) → place' t' ≡ some (pml4, v') → t' ≡ root
  root_only t' v' h = elim (old_or_new t' (pml4, v') h) [
    | inl (e, q) ↦ absurd (not_root level (ap (λ x. x.0) q))
    | inr old ↦ tree.only_root t' v' old
  ]
    where
      not_root : (l : Level) → pml4 ≢ next_level l
      not_root pml4 e = absurd (cc)
      not_root pdpt e = absurd (cc)
      not_root pd e = absurd (cc)
      not_root pt e = absurd (cc)

  still_taken :
      (t' : ℕ) (p : Level × ℕ)
      → place' t' ≡ some p
      → (g : ℕ) × (t' ≡ g * 4096) × (test_bit m'.pmm.bitmap g ≡ true) × (g < 0x100_0000_0000)
  still_taken t' p h = elim (old_or_new t' p h) [
    | inl (e, q) ↦ (f, e, ground (arith, ins.takes.marked f), f-lt)
    | inr old ↦
        let (g, a, b, c) = tree.taken t' p old in (g, a, ground (arith, ins.takes.marked g, b), c)
  ]

  -- The tables with the new one are a tree.
  pub install-Tree : Tree root place' m'
  install-Tree = record {
    at_root = keeps_place root (pml4, 0) tree.at_root;
    no_huge = root_no_huge;
    below_pml4 = λ i' k p.
        children pml4 root 0 i' (λ e. absurd (cc)) (keeps_place root (pml4, 0) tree.at_root) k p
          (root_no_huge i' k p);
    below_pdpt = λ t' v' i' h k p g. children pdpt t' v' i' (λ e. absurd (cc)) h k p g;
    below_pd = λ t' v' i' h k p g. children pd t' v' i' (λ e. absurd (cc)) h k p g;
    only_root = root_only;
    taken = still_taken;
    valid = ins.takes.valid;
    small = rw ins.takes.same_total tree.small;
  }
