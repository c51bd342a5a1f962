-- ===== src/Vmm/Unmap.antt =====
-- `leaf_for` of src/vmm.rs, and the operations that change the leaf it finds.
use eonos.Prelude.{
  ℕ, ◌+◌, ◌*◌, ◌≡◌, ◌⊎◌, refl, ap, sym, ◌∙◌, subst, true, false, Option, none, some, arith,
  Bool-cases, Option-cases, inl, inr, if◌then◌else◌,
}
use eonos.Vmm.{
  Mem, present, huge, frame_of, enter_pt, enter_pd, enter_pdpt, enter_pml4, walk, index, split_huge,
  split_1g_huge,
}
use eonos.Vmm.Entry.{index-lt}
use eonos.Vmm.Tree.{pml4, pdpt, pd, pt, Place, Tree}
use eonos.Vmm.Install.{KeepsBytes, KeepsBytes-refl}
use eonos.Vmm.Next.{Reached}
use eonos.Vmm.Reach.{here-Reached}
use eonos.Vmm.Split.{split_1g_huge-Reached, split_huge-Reached}
use eonos.Vmm.Page.{Led, three_steps, walk-Way}
use eonos.Vmm.Leaf.{leaf_in_pd, leaf_in_pdpt, leaf_for}

-- The same translation in possibly other tables.
pub record Kept (root : ℕ) (m m1 : Mem) : Type 0 where
  pub place1 : Place
  pub tree1 : Tree root place1 m1
  pub walks : (virt : ℕ) → walk m1 root virt ≡ walk m root virt
  pub memory : KeepsBytes m m1

module _ (root : ℕ) (place : Place) (m m1 : Mem) (tree : Tree root place m) (t v virt : ℕ) where
  -- The entry that is there, split where it is a huge page.
  pub open_pdpt :
      place t ≡ some (pdpt, v)
      → present (m.table t (index virt 1)) ≡ true
      → (if huge (m.table t (index virt 1)) then split_1g_huge m t (index virt 1) else some m)
        ≡ some m1
      → Reached root place m t
          (index virt 1)
          (pd, v * 512 + index virt 1)
          (frame_of (m1.table t (index virt 1)))
          m1
  open_pdpt at p h =
      let i = index virt 1 in
      elim (Bool-cases (huge (m.table t i))) [
        | inl g ↦
            let (f, r) =
              split_1g_huge-Reached root place m tree t i v (index-lt virt 1) m1 at p g
                (ground (arith, g, h)) in
            subst (λ x. Reached root place m t i (pd, v * 512 + i) x m1) (sym r.leads) r
        | inr g ↦
            let same : m ≡ m1 = ground (arith, g, h) in
            subst (λ x. Reached root place m t i (pd, v * 512 + i) (frame_of (x.table t i)) x) same
              (here-Reached root place m tree t i v pdpt at (λ z. absurd (cc)) (index-lt virt 1) p
                g)
      ]

  open_pd :
      place t ≡ some (pd, v)
      → present (m.table t (index virt 2)) ≡ true
      → (if huge (m.table t (index virt 2)) then split_huge m t (index virt 2) else some m)
        ≡ some m1
      → Reached root place m t
          (index virt 2)
          (pt, v * 512 + index virt 2)
          (frame_of (m1.table t (index virt 2)))
          m1
  open_pd at p h =
      let i = index virt 2 in
      elim (Bool-cases (huge (m.table t i))) [
        | inl g ↦
            let (f, r) =
              split_huge-Reached root place m tree t i v (index-lt virt 2) m1 at p g
                (ground (arith, g, h)) in
            subst (λ x. Reached root place m t i (pt, v * 512 + i) x m1) (sym r.leads) r
        | inr g ↦
            let same : m ≡ m1 = ground (arith, g, h) in
            subst (λ x. Reached root place m t i (pt, v * 512 + i) (frame_of (x.table t i)) x) same
              (here-Reached root place m tree t i v pd at (λ z. absurd (cc)) (index-lt virt 2) p g)
      ]

leaf_in_pdpt-cases :
    (m m1 : Mem) (t virt : ℕ) (r : Option ℕ)
    → leaf_in_pdpt m t virt ≡ some (m1, r)
    → ((present (m.table t (index virt 1)) ≡ false) × (m1 ≡ m) × (r ≡ none))
      ⊎ ((present (m.table t (index virt 1)) ≡ true)
          × (m2 : Mem) × ((if huge (m.table t (index virt 1))
                then split_1g_huge m t (index virt 1)
                else some m)
              ≡ some m2)
          × (leaf_in_pd m2 (frame_of (m2.table t (index virt 1))) virt ≡ some (m1, r)))
unfolding leaf_in_pdpt
leaf_in_pdpt-cases m m1 t virt r h =
    let e = m.table t (index virt 1) in
    elim (Bool-cases (present e)) [
      | inr p ↦ inl (p, ground (arith, p, h), ground (arith, p, h))
      | inl p ↦ elim (Option-cases (if huge e then split_1g_huge m t (index virt 1) else some m)) [
        | inl n ↦ absurd (ground (arith, p, n, h))
        | inr (m2, s) ↦ inr (p, m2, s, ground (arith, p, s, h))
      ]
    ]

leaf_in_pd-cases :
    (m m1 : Mem) (t virt : ℕ) (r : Option ℕ)
    → leaf_in_pd m t virt ≡ some (m1, r)
    → ((present (m.table t (index virt 2)) ≡ false) × (m1 ≡ m) × (r ≡ none))
      ⊎ ((present (m.table t (index virt 2)) ≡ true)
          × ((if huge (m.table t (index virt 2)) then split_huge m t (index virt 2) else some m)
              ≡ some m1)
          × (r ≡ (
              if present (m1.table (frame_of (m1.table t (index virt 2))) (index virt 3))
              then some (frame_of (m1.table t (index virt 2)))
              else none)))
unfolding leaf_in_pd
leaf_in_pd-cases m m1 t virt r h =
    let e = m.table t (index virt 2) in
    elim (Bool-cases (present e)) [
      | inr p ↦ inl (p, ground (arith, p, h), ground (arith, p, h))
      | inl p ↦ elim (Option-cases (if huge e then split_huge m t (index virt 2) else some m)) [
        | inl n ↦ absurd (ground (arith, p, n, h))
        | inr (m2, s) ↦
            let same : m2 ≡ m1 = ground (arith, p, s, h) in
            inr (
              p,
              s ∙ ap some same,
              subst
                  (λ x. r ≡ (
                    if present (x.table (frame_of (x.table t (index virt 2))) (index virt 3))
                    then some (frame_of (x.table t (index virt 2)))
                    else none))
                  same (ground (arith, p, s, h)),
            )
      ]
    ]

-- `leaf_for` finds nothing where nothing is mapped.
pub record Nothing (root : ℕ) (m : Mem) (virt : ℕ) (m1 : Mem) (r : Option ℕ) : Type 0 where
  pub is_none : r ≡ none
  pub unmapped : walk m root virt ≡ none
  pub kept : Kept root m m1

-- Otherwise it finds the page table of a page that is mapped.
pub record LeafAt (root : ℕ) (m : Mem) (virt : ℕ) (m1 : Mem) (r : Option ℕ) : Type 0 where
  pub pt_at : ℕ
  pub found_at : r ≡ some pt_at
  pub led : Led root m virt pt_at m1
  pub mapped : present (m1.table pt_at (index virt 3)) ≡ true

Kept-of_Led : (root : ℕ) (m m1 : Mem) (virt t : ℕ) → Led root m virt t m1 → Kept root m m1
Kept-of_Led root m m1 virt t l = record {
  place1 = l.place3;
  tree1 = l.tree3;
  walks = l.walks;
  memory = l.same_bytes;
}

-- The last step.
leaf_of_Led :
    (root : ℕ) (m m1 : Mem) (virt t : ℕ) (r : Option ℕ)
    → Led root m virt t m1
    → r ≡ (if present (m1.table t (index virt 3)) then some t else none)
    → Nothing root m virt m1 r ⊎ LeafAt root m virt m1 r
unfolding enter_pt
leaf_of_Led root m m1 virt t r l n =
    let w : walk m root virt ≡ enter_pt m1 (m1.table t (index virt 3)) virt =
      sym (l.walks virt) ∙ walk-Way root l.place3 m1 virt t l.way in
    elim (Bool-cases (present (m1.table t (index virt 3)))) [
      | inl p ↦ inr (record { pt_at = t; found_at = ground (arith, n, p); led = l; mapped = p })
      | inr p ↦ inl (record {
        is_none = ground (arith, n, p);
        unmapped = ground (arith, w, p);
        kept = Kept-of_Led root m m1 virt t l;
      })
    ]

-- `leaf_for` leaves every translation as it was.
pub leaf_for-cases :
    (root : ℕ) (place : Place) (m m1 : Mem)
    → Tree root place m
    → (virt : ℕ) (r : Option ℕ) → leaf_for m root virt ≡ some (m1, r)
    → Nothing root m virt m1 r ⊎ LeafAt root m virt m1 r
unfolding leaf_for walk enter_pml4 enter_pdpt enter_pd
leaf_for-cases root place m m1 tree virt r h =
    let i0 = index virt 0 in
    let i1 = index virt 1 in
    let e = m.table root i0 in
    let kept : Kept root m m = record {
      place1 = place;
      tree1 = tree;
      walks = λ v. refl;
      memory = KeepsBytes-refl m;
    } in
    elim (Bool-cases (present e)) [
      | inr p ↦
          let same : m ≡ m1 = ground (arith, p, h) in
          inl (record {
            is_none = ground (arith, p, h);
            unmapped = ground (arith, p);
            kept = subst (λ x. Kept root m x) same kept;
          })
      | inl p ↦
          let g = tree.no_huge i0 (index-lt virt 0) p in
          let r1 =
            here-Reached root place m tree root i0 0 pml4 tree.at_root (λ z. absurd (cc))
              (index-lt virt 0) p g in
          elim (leaf_in_pdpt-cases m m1 (frame_of e) virt r (ground (arith, p, g, h))) [
            | inl (q, same, n) ↦ inl (record {
              is_none = n;
              unmapped = ground (arith, p, q);
              kept = subst (λ x. Kept root m x) (sym same) kept;
            })
            | inr (q, m2, s, k) ↦
                let r2 = open_pdpt root r1.place2 m m2 r1.tree2 (frame_of e) i0 virt r1.at2 q s in
                let top = r2.links root i0 (pml4, 0) (r1.keeps root (pml4, 0) tree.at_root) p g in
                elim (leaf_in_pd-cases m2 m1 (frame_of (m2.table (frame_of e) i1)) virt r k) [
                  | inl (z, same, n) ↦ inl (record {
                    is_none = n;
                    unmapped =
                        sym (r2.walks virt) ∙ ground (arith, top, p, r2.is_present, r2.not_huge, z);
                    kept =
                        subst (λ x. Kept root m x) (sym same)
                          (record {
                            place1 = r2.place2;
                            tree1 = r2.tree2;
                            walks = r2.walks;
                            memory = r2.same_bytes;
                          });
                  })
                  | inr (z, s2, n) ↦
                      let r3 =
                        open_pd root r2.place2 m2 m1 r2.tree2 (frame_of (m2.table (frame_of e) i1))
                          (i0 * 512 + i1) virt r2.at2 z s2 in
                      leaf_of_Led root m m1 virt _ r
                        (three_steps root place m m m2 m1 virt _ _ _ tree r1 r2 r3) n
                ]
          ]
    ]
