-- ===== src/Vmm/Page.antt =====
-- The way to the page table of an address in src/vmm.rs, and what a write to an entry of it does.
use eonos.Prelude.{
  ℕ, ◌+◌, ◌*◌, ◌/◌, ◌%◌, ◌≤◌, ◌≡◌, ◌≢◌, ap, sym, ◌∙◌, true, false, some, arith, ℕ_discrete,
}
use eonos.Vmm.{
  Mem, present, huge, frame_of, write, put_entry, enter_pt, enter_pd, enter_pdpt, enter_pml4, walk,
  index, page_size,
}
use eonos.Vmm.Tree.{Level, pml4, pdpt, pd, pt, Place, Tree, Touches, prefix, walk_agrees}
use eonos.Vmm.Install.{KeepsBytes, KeepsBytes-trans}
use eonos.Vmm.Next.{Reached}

-- The tables on the way to `virt`, down to the page table.
pub record Way (root : ℕ) (place : Place) (m : Mem) (virt pt_at : ℕ) : Type 0 where
  pub pdpt_at : ℕ
  pub pd_at : ℕ
  pub in_pml4 :
      (present (m.table root (index virt 0)) ≡ true)
      × (frame_of (m.table root (index virt 0)) ≡ pdpt_at)
  pub in_pdpt :
      (present (m.table pdpt_at (index virt 1)) ≡ true)
      × (huge (m.table pdpt_at (index virt 1)) ≡ false)
      × (frame_of (m.table pdpt_at (index virt 1)) ≡ pd_at)
  pub in_pd :
      (present (m.table pd_at (index virt 2)) ≡ true)
      × (huge (m.table pd_at (index virt 2)) ≡ false)
      × (frame_of (m.table pd_at (index virt 2)) ≡ pt_at)
  pub pdpt_level : (v : ℕ) × (place pdpt_at ≡ some (pdpt, v))
  pub pd_level : (v : ℕ) × (place pd_at ≡ some (pd, v))
  pub pt_level : place pt_at ≡ some (pt, prefix pt virt)

pub walk-Way :
    (root : ℕ) (place : Place) (m : Mem) (virt pt_at : ℕ)
    → Way root place m virt pt_at
    → walk m root virt ≡ enter_pt m (m.table pt_at (index virt 3)) virt
unfolding walk enter_pml4 enter_pdpt enter_pd
walk-Way root place m virt pt_at w =
    let (a, b) = w.in_pml4 in
    let (c, d, e) = w.in_pdpt in let (f, g, h) = w.in_pd in ground (arith, a, b, c, d, e, f, g, h)

-- Tables that hold the same translation and have a page table for `virt`.
pub record Led (root : ℕ) (m : Mem) (virt pt_at : ℕ) (m3 : Mem) : Type 0 where
  pub place3 : Place
  pub tree3 : Tree root place3 m3
  pub walks : (virt' : ℕ) → walk m3 root virt' ≡ walk m root virt'
  pub way : Way root place3 m3 virt pt_at
  pub same_bytes : KeepsBytes m m3
  pub frames : m.pmm.free_frames ≤ m3.pmm.free_frames + 3

prefix-indices :
    (virt : ℕ) → (index virt 0 * 512 + index virt 1) * 512 + index virt 2 ≡ prefix pt virt
unfolding prefix index
prefix-indices virt = omega arith

-- The three steps of a way.
pub three_steps :
    (root : ℕ) (place : Place) (m m1 m2 m3 : Mem) (virt a1 a2 a3 : ℕ)
    → Tree root place m
    → (r1 : Reached root place m root (index virt 0) (pdpt, index virt 0) a1 m1)
    → (r2 : Reached root r1.place2 m1 a1
        (index virt 1)
        (pd, index virt 0 * 512 + index virt 1)
        a2
        m2)
    → Reached root r2.place2 m2 a2
        (index virt 2)
        (pt, (index virt 0 * 512 + index virt 1) * 512 + index virt 2)
        a3
        m3
    → Led root m virt a3 m3
three_steps root place m m1 m2 m3 virt a1 a2 a3 tree r1 r2 r3 =
    let i0 = index virt 0 in
    let i1 = index virt 1 in
    let root1 = r1.keeps root (pml4, 0) tree.at_root in
    let root2 = r2.keeps root (pml4, 0) root1 in
    let no_huge : huge (m1.table root i0) ≡ false = r1.not_huge in
    let s1 : m2.table root i0 ≡ m1.table root i0 =
      r2.links root i0 (pml4, 0) root1 r1.is_present r1.not_huge in
    let s2 : m3.table root i0 ≡ m2.table root i0 =
      r3.links root i0 (pml4, 0) root2 (ap present s1 ∙ r1.is_present) (ap huge s1 ∙ r1.not_huge) in
    let top : m3.table root i0 ≡ m1.table root i0 = s2 ∙ s1 in
    let next : m3.table a1 i1 ≡ m2.table a1 i1 =
      r3.links a1 i1 (pdpt, i0) (r2.keeps a1 (pdpt, i0) r1.at2) r2.is_present r2.not_huge in
    record {
      place3 = r3.place2;
      tree3 = r3.tree2;
      walks = λ w. r3.walks w ∙ r2.walks w ∙ r1.walks w;
      way = record {
        pdpt_at = a1;
        pd_at = a2;
        in_pml4 = (ap present top ∙ r1.is_present, ap frame_of top ∙ r1.leads);
        in_pdpt = (
          ap present next ∙ r2.is_present,
          ap huge next ∙ r2.not_huge,
          ap frame_of next ∙ r2.leads,
        );
        in_pd = (r3.is_present, r3.not_huge, r3.leads);
        pdpt_level = (i0, r3.keeps a1 (pdpt, i0) (r2.keeps a1 (pdpt, i0) r1.at2));
        pd_level = (i0 * 512 + i1, r3.keeps a2 (pd, i0 * 512 + i1) r2.at2);
        pt_level = r3.at2 ∙ ap (λ v. some (pt, v)) (prefix-indices virt);
      };
      same_bytes =
          KeepsBytes-trans m m1 m3 r1.same_bytes
            (KeepsBytes-trans m1 m2 m3 r2.same_bytes r3.same_bytes);
      frames = omega (arith, r1.frames, r2.frames, r3.frames);
    }

-- The number of the page of `virt`: the 36 bits that the four indices hold.
unfoldable pub page_of : ℕ → ℕ
page_of virt = virt / page_size % 0x10_0000_0000

page_of-indices :
    (virt virt' : ℕ)
    → prefix pt virt ≡ prefix pt virt'
    → index virt 3 ≡ index virt' 3
    → page_of virt ≡ page_of virt'
unfolding prefix index page_of
page_of-indices virt virt' h k = omega (arith, h, k)

-- The addresses of a page have the same way.
pub Way-page :
    (root : ℕ) (place : Place) (m : Mem) (virt virt' pt_at : ℕ)
    → page_of virt' ≡ page_of virt
    → Way root place m virt pt_at
    → Way root place m virt' pt_at
unfolding index prefix page_of
Way-page root place m virt virt' pt_at e w =
    let i0 : index virt' 0 ≡ index virt 0 = omega (arith, e) in
    let i1 : index virt' 1 ≡ index virt 1 = omega (arith, e) in
    let i2 : index virt' 2 ≡ index virt 2 = omega (arith, e) in
    let p : prefix pt virt' ≡ prefix pt virt = omega (arith, e) in
    record {
      pdpt_at = w.pdpt_at;
      pd_at = w.pd_at;
      in_pml4 = rw i0 w.in_pml4;
      in_pdpt = rw i1 w.in_pdpt;
      in_pd = rw i2 w.in_pd;
      pdpt_level = w.pdpt_level;
      pd_level = w.pd_level;
      pt_level = rw p w.pt_level;
    }

-- A page table's entry for `virt`, written.
module _ (root : ℕ) (place : Place) (m : Mem) (tree : Tree root place m) (virt pt_at e : ℕ)
    (way : Way root place m virt pt_at) where
  other_table :
      (t i : ℕ) (l : Level) (v : ℕ)
      → place t ≡ some (l, v)
      → l ≢ pt
      → (write m pt_at (index virt 3) e).table t i ≡ m.table t i
  unfolding write
  other_table t i l v h n =
      let apart : t ≢ pt_at = λ z. n (ground (arith, h, z, way.pt_level)) in ground (arith, apart)

  pub write-Tree : Tree root place (write m pt_at (index virt 3) e)
  unfolding write
  write-Tree = record {
    at_root = tree.at_root;
    no_huge = λ i k p.
        let s = other_table root i pml4 0 tree.at_root (λ z. absurd (cc)) in
        ap huge s ∙ tree.no_huge i k (sym (ap present s) ∙ p);
    below_pml4 = λ i k p.
        let s = other_table root i pml4 0 tree.at_root (λ z. absurd (cc)) in
        ap (λ x. place (frame_of x)) s ∙ tree.below_pml4 i k (sym (ap present s) ∙ p);
    below_pdpt = λ t v i h k p g.
        let s = other_table t i pdpt v h (λ z. absurd (cc)) in
        ap (λ x. place (frame_of x)) s
        ∙ tree.below_pdpt t v i h k (sym (ap present s) ∙ p) (sym (ap huge s) ∙ g);
    below_pd = λ t v i h k p g.
        let s = other_table t i pd v h (λ z. absurd (cc)) in
        ap (λ x. place (frame_of x)) s
        ∙ tree.below_pd t v i h k (sym (ap present s) ∙ p) (sym (ap huge s) ∙ g);
    only_root = tree.only_root;
    taken = tree.taken;
    valid = tree.valid;
    small = tree.small;
  }

  pub write-Way : Way root place (write m pt_at (index virt 3) e) virt pt_at
  write-Way =
      let (v1, at1) = way.pdpt_level in
      let (v2, at2) = way.pd_level in
      let s0 = other_table root (index virt 0) pml4 0 tree.at_root (λ z. absurd (cc)) in
      let s1 = other_table way.pdpt_at (index virt 1) pdpt v1 at1 (λ z. absurd (cc)) in
      let s2 = other_table way.pd_at (index virt 2) pd v2 at2 (λ z. absurd (cc)) in
      let (a, b) = way.in_pml4 in
      let (c, d, f) = way.in_pdpt in
      let (g, h, k) = way.in_pd in
      record {
        pdpt_at = way.pdpt_at;
        pd_at = way.pd_at;
        in_pml4 = (ap present s0 ∙ a, ap frame_of s0 ∙ b);
        in_pdpt = (ap present s1 ∙ c, ap huge s1 ∙ d, ap frame_of s1 ∙ f);
        in_pd = (ap present s2 ∙ g, ap huge s2 ∙ h, ap frame_of s2 ∙ k);
        pdpt_level = way.pdpt_level;
        pd_level = way.pd_level;
        pt_level = way.pt_level;
      }

  pub walk-write :
      (virt' : ℕ)
      → page_of virt' ≡ page_of virt
      → walk (write m pt_at (index virt 3) e) root virt' ≡ enter_pt m e virt'
  unfolding write enter_pt page_of index
  walk-write virt' same =
      let last : index virt' 3 ≡ index virt 3 = omega (arith, same) in
      walk-Way root place (write m pt_at (index virt 3) e) virt' pt_at
        (Way-page root place (write m pt_at (index virt 3) e) virt virt' pt_at same write-Way)
      ∙ ground (arith, last)

  only_entry : Touches place pt_at (index virt 3) m (write m pt_at (index virt 3) e)
  unfolding write
  only_entry = record { same = λ t' i' p h k. untouched t' i' k }
    where
      untouched :
          (t' i' : ℕ)
          → (t' ≡ pt_at → i' ≢ index virt 3)
          → put_entry m.table pt_at (index virt 3) e t' i' ≡ m.table t' i'
      untouched t' i' k = elim (ℕ_discrete t' pt_at) [
        | no n ↦ ground (arith, n)
        | yes z ↦ let n : i' ≢ index virt 3 = k z in ground (arith, n)
      ]

  pub entry_is : (write m pt_at (index virt 3) e).table pt_at (index virt 3) ≡ e
  unfolding write
  entry_is = ground arith

  pub walk-write-other :
      (virt' : ℕ)
      → page_of virt' ≢ page_of virt
      → walk (write m pt_at (index virt 3) e) root virt' ≡ walk m root virt'
  walk-write-other virt' n =
      walk_agrees root place m (write m pt_at (index virt 3) e) tree pt_at (index virt 3)
        (prefix pt virt) pt way.pt_level only_entry virt'
        (λ a b. absurd (n (sym (page_of-indices virt virt' a b))))

  -- An entry that leads where the old one led changes no walk.
  pub walk-write-same :
      ((virt' : ℕ) → enter_pt m e virt' ≡ enter_pt m (m.table pt_at (index virt 3)) virt')
      → (virt' : ℕ) → walk (write m pt_at (index virt 3) e) root virt' ≡ walk m root virt'
  unfolding enter_pt
  walk-write-same h virt' =
      walk_agrees root place m (write m pt_at (index virt 3) e) tree pt_at (index virt 3)
        (prefix pt virt) pt way.pt_level only_entry virt'
        (λ a b. ap (λ x. enter_pt m x virt') entry_is ∙ h virt')
