-- ===== src/Vmm/Tree.antt =====
-- The page tables of src/vmm.rs as a tree, and what a walk sees of a change to it.
use eonos.Prelude.{
  ℕ, ◌+◌, ◌*◌, ◌/◌, ◌%◌, ◌<◌, ◌≡◌, ◌≢◌, ◌⊎◌, refl, ap, sym, ◌∙◌, subst, true, false, Option, some,
  arith, Bool-cases, inl, inr, ℕ_discrete,
}
use eonos.Pmm.Bits.{test_bit}
use eonos.Pmm.Valid.{Valid}
use eonos.Vmm.{
  Mem, present, huge, frame_of, index, enter_pt, enter_pd, enter_pdpt, enter_pml4, walk,
}
use eonos.Vmm.Entry.{index-lt}

pub data Level : Type 0 where
  pml4 pdpt pd pt : Level

-- Where each table stands: its level, and the indices on the way to it, as one number.
abbrev pub Place : Type 0
Place = ℕ → Option (Level × ℕ)

-- The number of the table on the way to `virt`.
unfoldable pub prefix : Level → ℕ → ℕ
prefix pml4 virt = 0
prefix pdpt virt = virt / 0x80_0000_0000 % 512
prefix pd virt = virt / 0x4000_0000 % 0x4_0000
prefix pt virt = virt / 0x20_0000 % 0x800_0000

abbrev pub slot : Level → ℕ → ℕ
slot pml4 virt = index virt 0
slot pdpt virt = index virt 1
slot pd virt = index virt 2
slot pt virt = index virt 3

-- The stage of the walk that takes an entry of a table of the level.
abbrev pub enter : Level → Mem → ℕ → ℕ → Option ℕ
enter pml4 = enter_pml4
enter pdpt = enter_pdpt
enter pd = enter_pd
enter pt = enter_pt

-- Every table has one place, so it is reached in one way; it is a frame that the allocator has
-- given out. A table of the first level has no huge pages.
pub record Tree (root : ℕ) (place : Place) (m : Mem) : Type 0 where
  pub at_root : place root ≡ some (pml4, 0)
  pub no_huge : (i : ℕ) → i < 512 → present (m.table root i) ≡ true → huge (m.table root i) ≡ false
  pub below_pml4 :
      (i : ℕ)
      → i < 512
      → present (m.table root i) ≡ true
      → place (frame_of (m.table root i)) ≡ some (pdpt, i)
  pub below_pdpt :
      (t v i : ℕ)
      → place t ≡ some (pdpt, v)
      → i < 512
      → present (m.table t i) ≡ true
      → huge (m.table t i) ≡ false
      → place (frame_of (m.table t i)) ≡ some (pd, v * 512 + i)
  pub below_pd :
      (t v i : ℕ)
      → place t ≡ some (pd, v)
      → i < 512
      → present (m.table t i) ≡ true
      → huge (m.table t i) ≡ false
      → place (frame_of (m.table t i)) ≡ some (pt, v * 512 + i)
  pub only_root : (t v : ℕ) → place t ≡ some (pml4, v) → t ≡ root
  pub taken :
      (t : ℕ) (p : Level × ℕ)
      → place t ≡ some p
      → (f : ℕ) × (t ≡ f * 4096) × (test_bit m.pmm.bitmap f ≡ true) × (f < 0x100_0000_0000)
  pub valid : Valid m.pmm
  pub small : m.pmm.total_frames < 0x100_0000_0000

prefix-pdpt : (virt : ℕ) → index virt 0 ≡ prefix pdpt virt
unfolding prefix index
prefix-pdpt virt = refl

prefix-pd : (virt : ℕ) → prefix pdpt virt * 512 + index virt 1 ≡ prefix pd virt
unfolding prefix index
prefix-pd virt = omega arith

prefix-pt : (virt : ℕ) → prefix pd virt * 512 + index virt 2 ≡ prefix pt virt
unfolding prefix index
prefix-pt virt = omega arith

-- The tables on the way to `virt`, where there are any.
module _ (root : ℕ) (place : Place) (m : Mem) (tree : Tree root place m) (virt : ℕ) where
  pub to_pdpt :
      (e : ℕ)
      → m.table root (index virt 0) ≡ e
      → present e ≡ true
      → place (frame_of e) ≡ some (pdpt, prefix pdpt virt)
  to_pdpt e h p =
      subst (λ e. place (frame_of e) ≡ some (pdpt, prefix pdpt virt)) h
        (tree.below_pml4 (index virt 0) (index-lt virt 0) (rw h p)
          ∙ ap (λ v. some (pdpt, v)) (prefix-pdpt virt))

  pub to_pd :
      (t e : ℕ)
      → place t ≡ some (pdpt, prefix pdpt virt)
      → m.table t (index virt 1) ≡ e
      → present e ≡ true
      → huge e ≡ false
      → place (frame_of e) ≡ some (pd, prefix pd virt)
  to_pd t e at h p g =
      subst (λ e. place (frame_of e) ≡ some (pd, prefix pd virt)) h
        (tree.below_pdpt t (prefix pdpt virt) (index virt 1) at (index-lt virt 1) (rw h p) (rw h g)
          ∙ ap (λ v. some (pd, v)) (prefix-pd virt))

  pub to_pt :
      (t e : ℕ)
      → place t ≡ some (pd, prefix pd virt)
      → m.table t (index virt 2) ≡ e
      → present e ≡ true
      → huge e ≡ false
      → place (frame_of e) ≡ some (pt, prefix pt virt)
  to_pt t e at h p g =
      subst (λ e. place (frame_of e) ≡ some (pt, prefix pt virt)) h
        (tree.below_pd t (prefix pd virt) (index virt 2) at (index-lt virt 2) (rw h p) (rw h g)
          ∙ ap (λ v. some (pt, v)) (prefix-pt virt))

-- `m'` has the tables of `m`, but for entry `i` of table `t`.
pub record Touches (place : Place) (t i : ℕ) (m m' : Mem) : Type 0 where
  pub same :
      (t' i' : ℕ) (p : Level × ℕ)
      → place t' ≡ some p
      → (t' ≡ t → i' ≢ i)
      → m'.table t' i' ≡ m.table t' i'

-- A walk that does not pass entry `i` of `t`, or for which the walk from there on gives what it
-- gave, gives what it gave.
module _ (root : ℕ) (place : Place) (m m' : Mem) (tree : Tree root place m) (t i v : ℕ)
    (level : Level) (at : place t ≡ some (level, v)) (touch : Touches place t i m m') (virt : ℕ)
    (hit : v ≡ prefix level virt
      → i ≡ slot level virt
      → enter level m' (m'.table t i) virt ≡ enter level m (m.table t i) virt) where
  -- The table `t'` is on the way to `virt`: either the entry is the one touched, or it is the same.
  at_level :
      (l : Level) (t' : ℕ)
      → place t' ≡ some (l, prefix l virt)
      → (enter l m' (m'.table t' (slot l virt)) virt ≡ enter l m (m.table t' (slot l virt)) virt)
        ⊎ (m'.table t' (slot l virt) ≡ m.table t' (slot l virt))
  at_level l t' h = elim (ℕ_discrete t' t) [
    | no n ↦ inr (touch.same t' (slot l virt) (l, prefix l virt) h (λ e. absurd (n e)))
    | yes e ↦ elim (ℕ_discrete (slot l virt) i) [
      | no n ↦ inr (touch.same t' (slot l virt) (l, prefix l virt) h (λ e. n))
      | yes f ↦
          let same : ◌≡◌ {A = Level × ℕ} (level, v) (l, prefix l virt) = ground (arith, at, h, e) in
          let go : v ≡ prefix l virt
              → i ≡ slot l virt
              → enter l m' (m'.table t i) virt ≡ enter l m (m.table t i) virt =
            subst
              (λ k.
                v ≡ prefix k virt
                → i ≡ slot k virt
                → enter k m' (m'.table t i) virt ≡ enter k m (m.table t i) virt)
              (ap (λ p. p.0) same) hit in
          inl (rw (e, f) (go (ap (λ p. p.1) same) (sym f)))
    ]
  ]

  agree_pt :
      (t' : ℕ)
      → place t' ≡ some (pt, prefix pt virt)
      → enter_pt m' (m'.table t' (index virt 3)) virt ≡ enter_pt m (m.table t' (index virt 3)) virt
  unfolding enter_pt
  agree_pt t' h = elim (at_level pt t' h) [ inl e ↦ e | inr e ↦ rw e refl ]

  agree_pd :
      (t' : ℕ)
      → place t' ≡ some (pd, prefix pd virt)
      → enter_pd m' (m'.table t' (index virt 2)) virt ≡ enter_pd m (m.table t' (index virt 2)) virt
  unfolding enter_pd
  agree_pd t' h = elim (at_level pd t' h) [
    | inl e ↦ e
    | inr e ↦
        let x = m.table t' (index virt 2) in
        elim (Bool-cases (present x)) [
          | inr p ↦ ground (arith, e, p)
          | inl p ↦ elim (Bool-cases (huge x)) [
            | inl g ↦ ground (arith, e, p, g)
            | inr g ↦ ground (
              arith,
              e,
              p,
              g,
              agree_pt (frame_of x) (to_pt root place m tree virt t' x h refl p g),
            )
          ]
        ]
  ]

  agree_pdpt :
      (t' : ℕ)
      → place t' ≡ some (pdpt, prefix pdpt virt)
      → enter_pdpt m' (m'.table t' (index virt 1)) virt
        ≡ enter_pdpt m (m.table t' (index virt 1)) virt
  unfolding enter_pdpt
  agree_pdpt t' h = elim (at_level pdpt t' h) [
    | inl e ↦ e
    | inr e ↦
        let x = m.table t' (index virt 1) in
        elim (Bool-cases (present x)) [
          | inr p ↦ ground (arith, e, p)
          | inl p ↦ elim (Bool-cases (huge x)) [
            | inl g ↦ ground (arith, e, p, g)
            | inr g ↦ ground (
              arith,
              e,
              p,
              g,
              agree_pd (frame_of x) (to_pd root place m tree virt t' x h refl p g),
            )
          ]
        ]
  ]

  pub walk_agrees : walk m' root virt ≡ walk m root virt
  unfolding walk enter_pml4 prefix
  walk_agrees = elim (at_level pml4 root tree.at_root) [
    | inl e ↦ e
    | inr e ↦
        let x = m.table root (index virt 0) in
        elim (Bool-cases (present x)) [
          | inr p ↦ ground (arith, e, p)
          | inl p ↦
              ground
                (arith, e, p, agree_pdpt (frame_of x) (to_pdpt root place m tree virt x refl p))
        ]
  ]
