-- ===== src/Heap/Pages.antt =====
-- The loop of `FreeList::grow` of src/heap.rs, over the page tables of src/vmm.rs and the frame
-- allocator of src/pmm.rs.
use eonos.Prelude.{
  ℕ, zero, suc, ◌+◌, ◌*◌, ◌%◌, ◌≤◌, ◌<◌, ◌≡◌, refl, sym, ◌∙◌, ◌≢◌, arith, ltb, ◌⊎◌, inl, inr,
  Bool-cases, none, some, Option-cases, dec_le,
}
use eonos.Pmm.{Pmm}
use eonos.Pmm.Valid.{Takes}
use eonos.Pmm.Alloc.{alloc_one_lem}
use eonos.Vmm.{Mem, kernel_rw, map4k, walk, enter_pml4, enter_pdpt, enter_pd, enter_pt}
use eonos.Vmm.Page.{page_of}
use eonos.Vmm.Boot.Section.{pages_apart, same_page}
use eonos.Vmm.Leaf.{map_page}
use eonos.Vmm.Entry.{IsFlags}
use eonos.Vmm.Tree.{Place, Tree}
use eonos.Vmm.Map.{map4k-some, map4k-Remapped}
use eonos.Heap.{heap_max_size, page_size, map_pages}

-- The kernel's page tables are a tree over a valid frame allocator.
abbrev pub HasTree : ℕ → Mem → Type 0
HasTree root m = (place : Place) × Tree root place m

-- Taking a frame leaves the tree.
Tree-Takes :
    (root : ℕ) (place : Place) (m : Mem) (f : ℕ) (q : Pmm)
    → Tree root place m
    → Takes m.pmm f 1 q
    → Tree root place (record m { pmm = q })
Tree-Takes root place m f q tree k = record {
  at_root = tree.at_root;
  no_huge = tree.no_huge;
  below_pml4 = tree.below_pml4;
  below_pdpt = tree.below_pdpt;
  below_pd = tree.below_pd;
  only_root = tree.only_root;
  taken = λ t p h. let (g, a, b, c) = tree.taken t p h in (g, a, ground (arith, k.marked g, b), c);
  valid = k.valid;
  small = rw k.same_total tree.small;
}

kernel_rw-IsFlags : IsFlags kernel_rw
kernel_rw-IsFlags = record {
  low = 1;
  mid = 0;
  high = 2048;
  parts = refl;
  few = omega arith;
  mid_few = omega arith;
}

-- The pages go to consecutive addresses from `start` on; the loop stops at `by` or without frames.
-- A page costs at most four frames.
pub record Mapped (root start by mapped : ℕ) (m : Mem) (out : ℕ × Mem) : Type 0 where
  pub whole : out.0 % page_size ≡ 0
  pub within_by : out.0 ≤ by
  pub more : mapped ≤ out.0
  pub tree : HasTree root out.1
  pub stops : (out.0 ≡ by) ⊎ (out.1.pmm.free_frames ≡ 0)
  pub frames : m.pmm.free_frames * 1024 + mapped ≤ out.1.pmm.free_frames * 1024 + out.0
  pub backed :
      (v : ℕ)
      → start + mapped ≤ v
      → v < start + out.0
      → (phys : ℕ) × (walk out.1 root v ≡ some phys)
  pub elsewhere :
      (v : ℕ)
      → ((w : ℕ) → start + mapped ≤ w → w < start + out.0 → page_of v ≢ page_of w)
      → walk out.1 root v ≡ walk m root v

-- Mapping one page: a panic only with fewer than three frames, else again a tree.
map_page-cases :
    (root : ℕ) (m : Mem) (virt phys : ℕ)
    → HasTree root m
    → ((map_page m (some root) virt phys kernel_rw ≡ none) × (m.pmm.free_frames < 3))
      ⊎ ((m1 : Mem) × (map_page m (some root) virt phys kernel_rw ≡ some m1)
          × HasTree root m1
          × ((v : ℕ) → page_of v ≡ page_of virt → (at : ℕ) × (walk m1 root v ≡ some at))
          × ((v : ℕ) → page_of v ≢ page_of virt → walk m1 root v ≡ walk m root v)
          × (m.pmm.free_frames ≤ m1.pmm.free_frames + 3))
unfolding map_page
map_page-cases root m virt phys (place, tree) =
    elim (Option-cases (map4k m root virt phys kernel_rw)) [
      | inl n ↦ elim (dec_le 3 m.pmm.free_frames) [
        | yes y ↦
            let (m1, s) = map4k-some root place m tree virt phys kernel_rw y in
            absurd (ground (arith, n, s))
        | no k ↦ inl (n, omega arith)
      ]
      | inr (m1, s) ↦
          let r = map4k-Remapped root place m m1 tree virt phys kernel_rw kernel_rw-IsFlags s in
          inr
            (m1, s, (r.place_after, r.tree_after), λ v e. (_, r.at_page v e), r.elsewhere, r.frames)
    ]

same_walk :
    (root : ℕ) (m : Mem) (q : Pmm) (v : ℕ) → walk (record m { pmm = q }) root v ≡ walk m root v
unfolding walk enter_pml4 enter_pdpt enter_pd enter_pt
same_walk root m q v = refl

pub map_pages-Mapped :
    (fuel root start by mapped : ℕ) (m : Mem)
    → HasTree root m
    → mapped % page_size ≡ 0
    → by % page_size ≡ 0
    → mapped ≤ by
    → by < mapped + fuel * page_size
    → start % page_size ≡ 0
    → by ≤ heap_max_size
    → ((map_pages fuel start by mapped (some root) m ≡ none)
        × (m.pmm.free_frames * 1024 + mapped < by))
      ⊎ ((out : ℕ × Mem) × (map_pages fuel start by mapped (some root) m ≡ some out)
          × Mapped root start by mapped m out)
unfolding map_pages
map_pages-Mapped zero root start by mapped m t a b le enough sa small = absurd (omega arith)
map_pages-Mapped (suc fuel) root start by mapped m (place, tree) a b le enough sa small =
    elim (Bool-cases (ltb mapped by)) [
      | inr e ↦ inr (
        (mapped, m),
        ground (arith, e),
        record {
          whole = a;
          within_by = le;
          more = omega arith;
          tree = (place, tree);
          stops = inl (ground (arith, e));
          frames = omega arith;
          backed = λ v p q. absurd (omega arith);
          elsewhere = λ v n. refl;
        },
      )
      | inl e ↦ elim (alloc_one_lem m.pmm tree.valid) [
        | inl (z, failed) ↦ inr (
          (mapped, m),
          ground (arith, e, failed),
          record {
            whole = a;
            within_by = le;
            more = omega arith;
            tree = (place, tree);
            stops = inr z;
            frames = omega arith;
            backed = λ v p q. absurd (omega arith);
            elsewhere = λ v n. refl;
          },
        )
        | inr (f, q, pos, got, t) ↦
            let m1 = record m { pmm = q } in
            elim (map_page-cases root m1 (start + mapped) (f * 4096)
              (place, Tree-Takes root place m f q tree t)) [
                | inl (n, few) ↦ inl (ground (arith, e, got, n), ground (arith, t.fewer, few, e))
                | inr (m2, s, tree2, here, other, cost) ↦
                    elim (map_pages-Mapped fuel root start by (mapped + page_size) m2 tree2
                      (omega arith) b (ground (arith, e)) (omega arith) sa small) [
                        | inl (n, few) ↦
                            inl (ground (arith, e, got, s, n), omega (arith, t.fewer, few, cost))
                        | inr (out, g, r) ↦ inr (
                          out,
                          ground (arith, e, got, s, g),
                          record {
                            whole = r.whole;
                            within_by = r.within_by;
                            more = omega (arith, r.more);
                            tree = r.tree;
                            stops = r.stops;
                            frames = omega (arith, t.fewer, cost, r.frames);
                            backed = λ v p k. elim (dec_le (start + mapped + page_size) v) [
                              | yes y ↦ r.backed v (omega arith) k
                              | no n ↦
                                  let (at, w) = here v (
                                    same_page (start + mapped) v (omega (arith, sa, a)) p
                                      (omega arith)) in
                                  (
                                    at,
                                    r.elsewhere v (λ w l u z.
                                          pages_apart (start + mapped) w (omega (arith, sa, a))
                                            (omega arith) (omega (arith, u, r.within_by, small))
                                            (sym z
                                              ∙ same_page (start + mapped) v (omega (arith, sa, a))
                                                  p (omega arith)))
                                        ∙ w,
                                  )
                            ];
                            elsewhere = λ v n.
                                r.elsewhere v (λ w l u. n w (omega arith) u)
                                ∙ other v (n (start + mapped) (omega arith) (omega (arith, r.more)))
                                ∙ same_walk root m q v;
                          },
                        )
                      ]
              ]
      ]
    ]
