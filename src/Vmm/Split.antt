-- ===== src/Vmm/Split.antt =====
-- Splitting a huge page in src/vmm.rs: `split_1g_huge`, `split_huge`, and the ways to the next table
-- that go through them, `pd_for` and `pt_for`.
use eonos.Prelude.{
  ℕ, ◌+◌, ◌*◌, ◌<◌, ◌≡◌, ◌≢◌, refl, sym, ◌∙◌, subst, true, false, some, arith, Bool-cases,
  Option-cases, inl, inr,
}
use eonos.Vmm.{
  Mem, present, huge, frame_of, child_table, small_entry, medium_entry, split_huge, split_1g_huge,
  pd_for, pt_for, enter_pd, enter_pdpt, index,
}
use eonos.Vmm.Entry.{
  link-present, link-huge, link-frame_of, small_entry-enter, medium_entry-enter, medium_entry-huge,
  index-lt,
}
use eonos.Vmm.Tree.{Level, pdpt, pd, pt, Place, Tree}
use eonos.Vmm.Install.{f-lt}
use eonos.Vmm.Next.{Reached, replace-Installed, child_table-some, replace-some}
use eonos.Vmm.Reach.{install_reaches, child_table-Reached}

-- What a huge page leads to is what its pages lead to.
medium-enter :
    (m m' : Mem) (e f virt : ℕ)
    → present e ≡ true
    → huge e ≡ true
    → f < 0x100_0000_0000
    → ((i : ℕ) → m'.table (f * 4096) i ≡ medium_entry e i)
    → enter_pdpt m' (f * 4096 + 7) virt ≡ enter_pdpt m e virt
unfolding enter_pdpt
medium-enter m m' e f virt p g h t = ground (
  arith,
  p,
  g,
  link-present f,
  link-huge f,
  link-frame_of f h,
  t (index virt 2),
  medium_entry-enter m' e virt p,
)

small-enter :
    (m m' : Mem) (e f virt : ℕ)
    → present e ≡ true
    → huge e ≡ true
    → f < 0x100_0000_0000
    → ((i : ℕ) → m'.table (f * 4096) i ≡ small_entry e i)
    → enter_pd m' (f * 4096 + 7) virt ≡ enter_pd m e virt
unfolding enter_pd
small-enter m m' e f virt p g h t = ground (
  arith,
  p,
  g,
  link-present f,
  link-huge f,
  link-frame_of f h,
  t (index virt 3),
  small_entry-enter m' e virt p,
)

module _ (root : ℕ) (place : Place) (m : Mem) (tree : Tree root place m) (t i v : ℕ)
    (lt : i < 512) where
  pub split_1g_huge-Reached :
      (m2 : Mem)
      → place t ≡ some (pdpt, v)
      → present (m.table t i) ≡ true
      → huge (m.table t i) ≡ true
      → split_1g_huge m t i ≡ some m2
      → (f : ℕ) × Reached root place m t i (pd, v * 512 + i) (f * 4096) m2
  unfolding split_1g_huge
  split_1g_huge-Reached m2 at p g h =
      let e = m.table t i in
      let (f, ins) = replace-Installed root place m tree t i (pdpt, v) at (medium_entry e) m2 h in
      let above : pdpt ≢ pt = λ z. absurd (cc) in
      let no_links : pdpt ≢ pd
          → (i' : ℕ) → i' < 512
          → present (medium_entry e i') ≡ true
          → huge (medium_entry e i') ≡ true =
        λ z i' l q. medium_entry-huge e i' p l in
      let small =
        f-lt root place m m2 tree t i v f pdpt (medium_entry e) at above lt ins no_links in
      (
        f,
        install_reaches root place m m2 tree t i v f pdpt (medium_entry e) at above lt ins no_links
            (λ virt a b. medium-enter m m2 e f virt p g small ins.filled_in) (λ q. g),
      )

  pub split_huge-Reached :
      (m2 : Mem)
      → place t ≡ some (pd, v)
      → present (m.table t i) ≡ true
      → huge (m.table t i) ≡ true
      → split_huge m t i ≡ some m2
      → (f : ℕ) × Reached root place m t i (pt, v * 512 + i) (f * 4096) m2
  unfolding split_huge
  split_huge-Reached m2 at p g h =
      let e = m.table t i in
      let (f, ins) = replace-Installed root place m tree t i (pd, v) at (small_entry e) m2 h in
      let above : pd ≢ pt = λ z. absurd (cc) in
      let no_links : pd ≢ pd
          → (i' : ℕ) → i' < 512
          → present (small_entry e i') ≡ true
          → huge (small_entry e i') ≡ true =
        λ z i' l q. absurd (z refl) in
      let small = f-lt root place m m2 tree t i v f pd (small_entry e) at above lt ins no_links in
      (
        f,
        install_reaches root place m m2 tree t i v f pd (small_entry e) at above lt ins no_links
            (λ virt a b. small-enter m m2 e f virt p g small ins.filled_in) (λ q. g),
      )

-- A table that is there is the one that `child_table` gives.
child_table-there :
    (m : Mem) (t i t2 : ℕ) (m2 : Mem)
    → present (m.table t i) ≡ true
    → huge (m.table t i) ≡ false
    → child_table m t i ≡ some (t2, m2)
    → (t2 ≡ frame_of (m.table t i)) × (m2 ≡ m)
unfolding child_table
child_table-there m t i t2 m2 p g h = (ground (arith, p, g, h), ground (arith, p, g, h))

-- After a split the new table is the one that `child_table` gives.
then_child_table :
    (root : ℕ) (place : Place) (m m1 m2 : Mem) (t i f t2 : ℕ) (q : Level × ℕ)
    → Reached root place m t i q (f * 4096) m1
    → child_table m1 t i ≡ some (t2, m2)
    → Reached root place m t i q t2 m2
then_child_table root place m m1 m2 t i f t2 q r h =
    let (a, b) = child_table-there m1 t i t2 m2 r.is_present r.not_huge h in
    subst (λ x. Reached root place m t i q t2 x) (sym b)
      (subst (λ x. Reached root place m t i q x m1) (sym (a ∙ r.leads)) r)

module _ (root : ℕ) (place : Place) (m : Mem) (tree : Tree root place m) (t v virt t2 : ℕ)
    (m2 : Mem) where
  pub pd_for-Reached :
      place t ≡ some (pdpt, v)
      → pd_for m t virt ≡ some (t2, m2)
      → Reached root place m t (index virt 1) (pd, v * 512 + index virt 1) t2 m2
  unfolding pd_for
  pd_for-Reached at h =
      let i = index virt 1 in
      let plain : child_table m t i ≡ some (t2, m2)
          → Reached root place m t i (pd, v * 512 + i) t2 m2 =
        child_table-Reached root place m tree t i v pdpt at (λ z. absurd (cc)) (index-lt virt 1) t2
          m2 in
      elim (Bool-cases (present (m.table t i))) [
        | inr p ↦ plain (ground (arith, p, h))
        | inl p ↦ elim (Bool-cases (huge (m.table t i))) [
          | inr g ↦ plain (ground (arith, p, g, h))
          | inl g ↦ elim (Option-cases (split_1g_huge m t i)) [
            | inl n ↦ absurd (ground (arith, p, g, n, h))
            | inr (m1, s) ↦
                let (f, r) =
                  split_1g_huge-Reached root place m tree t i v (index-lt virt 1) m1 at p g s in
                then_child_table root place m m1 m2 t i f t2 (pd, v * 512 + i) r
                  (ground (arith, p, g, s, h))
          ]
        ]
      ]

  pub pt_for-Reached :
      place t ≡ some (pd, v)
      → pt_for m t virt ≡ some (t2, m2)
      → Reached root place m t (index virt 2) (pt, v * 512 + index virt 2) t2 m2
  unfolding pt_for
  pt_for-Reached at h =
      let i = index virt 2 in
      let plain : child_table m t i ≡ some (t2, m2)
          → Reached root place m t i (pt, v * 512 + i) t2 m2 =
        child_table-Reached root place m tree t i v pd at (λ z. absurd (cc)) (index-lt virt 2) t2
          m2 in
      elim (Bool-cases (present (m.table t i))) [
        | inr p ↦ plain (ground (arith, p, h))
        | inl p ↦ elim (Bool-cases (huge (m.table t i))) [
          | inr g ↦ plain (ground (arith, p, g, h))
          | inl g ↦ elim (Option-cases (split_huge m t i)) [
            | inl n ↦ absurd (ground (arith, p, g, n, h))
            | inr (m1, s) ↦
                let (f, r) =
                  split_huge-Reached root place m tree t i v (index-lt virt 2) m1 at p g s in
                then_child_table root place m m1 m2 t i f t2 (pt, v * 512 + i) r
                  (ground (arith, p, g, s, h))
          ]
        ]
      ]

-- With a free frame neither panics.
module _ (root : ℕ) (place : Place) (m : Mem) (tree : Tree root place m) (t v virt : ℕ)
    (free : 0 < m.pmm.free_frames) where
  pub pd_for-some : place t ≡ some (pdpt, v) → (r : ℕ × Mem) × (pd_for m t virt ≡ some r)
  unfolding pd_for split_1g_huge child_table
  pd_for-some at =
      let i = index virt 1 in
      let e = m.table t i in
      elim (Bool-cases (present e)) [
        | inr p ↦
            let (r, h) =
              child_table-some root place m tree t i (pdpt, v) at free
                (λ q. absurd (ground (arith, p, q))) in
            (r, ground (arith, p, h))
        | inl p ↦ elim (Bool-cases (huge e)) [
          | inr g ↦
              let (r, h) = child_table-some root place m tree t i (pdpt, v) at free (λ q. g) in
              (r, ground (arith, p, g, h))
          | inl g ↦
              let (m1, h) = replace-some root place m tree t i (pdpt, v) at free (medium_entry e) in
              let (f, r) =
                split_1g_huge-Reached root place m tree t i v (index-lt virt 1) m1 at p g h in
              ((frame_of (m1.table t i), m1), ground (arith, p, g, h, r.is_present, r.not_huge))
        ]
      ]

  pub pt_for-some : place t ≡ some (pd, v) → (r : ℕ × Mem) × (pt_for m t virt ≡ some r)
  unfolding pt_for split_huge child_table
  pt_for-some at =
      let i = index virt 2 in
      let e = m.table t i in
      elim (Bool-cases (present e)) [
        | inr p ↦
            let (r, h) =
              child_table-some root place m tree t i (pd, v) at free
                (λ q. absurd (ground (arith, p, q))) in
            (r, ground (arith, p, h))
        | inl p ↦ elim (Bool-cases (huge e)) [
          | inr g ↦
              let (r, h) = child_table-some root place m tree t i (pd, v) at free (λ q. g) in
              (r, ground (arith, p, g, h))
          | inl g ↦
              let (m1, h) = replace-some root place m tree t i (pd, v) at free (small_entry e) in
              let (f, r) =
                split_huge-Reached root place m tree t i v (index-lt virt 2) m1 at p g h in
              ((frame_of (m1.table t i), m1), ground (arith, p, g, h, r.is_present, r.not_huge))
        ]
      ]
