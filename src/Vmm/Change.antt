-- ===== src/Vmm/Change.antt =====
-- Unmapping and protecting a page in src/vmm.rs.
use eonos.Prelude.{
  ℕ, ◌+◌, ◌*◌, ◌/◌, ◌%◌, ◌≤◌, ◌≡◌, ◌⊎◌, sym, ◌∙◌, Bool, true, false, ◌||◌, Option, none, some,
  arith, ◌==◌, Bool-cases, inl, inr, if◌then◌else◌,
}
use eonos.Vmm.{
  Mem, present, huge, frame_of, write, enter_pt, walk, index, page_size, split_huge, split_1g_huge,
  small_entry, medium_entry, kernel_rx, kernel_ro, kernel_rw, kernel_wc, kernel_uc,
}
use eonos.Vmm.Install.{KeepsBytes-write}
use eonos.Vmm.Entry.{IsFlags, zero-present, index-lt}
use eonos.Vmm.Tree.{pml4, pdpt, pd, Place, Tree}
use eonos.Vmm.Next.{replace-some}
use eonos.Vmm.Reach.{here-Reached}
use eonos.Vmm.Page.{Led, Way, walk-Way, write-Tree, write-Way, walk-write-same}
use eonos.Vmm.Map.{Remapped, write-Remapped, leaf-enter}
use eonos.Vmm.Leaf.{
  leaf_in_pd, leaf_in_pdpt, leaf_for, clear_leaf, change_leaf, unmap_page, protect_page,
}
use eonos.Vmm.Unmap.{Kept, leaf_for-cases, open_pdpt}

leaf_in_pd-some :
    (root : ℕ) (place : Place) (m : Mem) (tree : Tree root place m) (t v virt : ℕ)
    → place t ≡ some (pd, v)
    → 1 ≤ m.pmm.free_frames
    → (x : Mem × Option ℕ) × (leaf_in_pd m t virt ≡ some x)
unfolding leaf_in_pd split_huge
leaf_in_pd-some root place m tree t v virt at free =
    let i = index virt 2 in
    let e = m.table t i in
    elim (Bool-cases (present e)) [
      | inr p ↦ ((m, none), ground (arith, p))
      | inl p ↦ elim (Bool-cases (huge e)) [
        | inr g ↦ (
          (m, if present (m.table (frame_of e) (index virt 3)) then some (frame_of e) else none),
          ground (arith, p, g),
        )
        | inl g ↦
            let (m1, s) = replace-some root place m tree t i (pd, v) at free (small_entry e) in
            (
              (
                m1,
                if present (m1.table (frame_of (m1.table t i)) (index virt 3))
                    then some (frame_of (m1.table t i))
                    else none,
              ),
              ground (arith, p, g, s),
            )
      ]
    ]

opened-some :
    (root : ℕ) (place : Place) (m : Mem) (tree : Tree root place m) (t v virt : ℕ)
    → place t ≡ some (pdpt, v)
    → 1 ≤ m.pmm.free_frames
    → (m1 : Mem) × ((if huge (m.table t (index virt 1))
          then split_1g_huge m t (index virt 1)
          else some m)
        ≡ some m1)
unfolding split_1g_huge
opened-some root place m tree t v virt at free =
    let i = index virt 1 in
    elim (Bool-cases (huge (m.table t i))) [
      | inr g ↦ (m, ground (arith, g))
      | inl g ↦
          let (m1, s) =
            replace-some root place m tree t i (pdpt, v) at free (medium_entry (m.table t i)) in
          (m1, ground (arith, g, s))
    ]

-- With two free frames `leaf_for` does not panic.
pub leaf_for-some :
    (root : ℕ) (place : Place) (m : Mem)
    → Tree root place m
    → (virt : ℕ) → 2 ≤ m.pmm.free_frames
    → (m1 : Mem) × (r : Option ℕ) × (leaf_for m root virt ≡ some (m1, r))
unfolding leaf_for leaf_in_pdpt
leaf_for-some root place m tree virt free =
    let i0 = index virt 0 in
    let i1 = index virt 1 in
    let e = m.table root i0 in
    elim (Bool-cases (present e)) [
      | inr p ↦ (m, none, ground (arith, p))
      | inl p ↦
          let g = tree.no_huge i0 (index-lt virt 0) p in
          let r1 =
            here-Reached root place m tree root i0 0 pml4 tree.at_root (λ z. absurd (cc))
              (index-lt virt 0) p g in
          elim (Bool-cases (present (m.table (frame_of e) i1))) [
            | inr q ↦ (m, none, ground (arith, p, g, q))
            | inl q ↦
                let (m2, s) =
                  opened-some root r1.place2 m r1.tree2 (frame_of e) i0 virt r1.at2 (omega arith) in
                let r2 = open_pdpt root r1.place2 m m2 r1.tree2 (frame_of e) i0 virt r1.at2 q s in
                let ((m1, r), k) =
                  leaf_in_pd-some root r2.place2 m2 r2.tree2 (frame_of (m2.table (frame_of e) i1))
                    (i0 * 512 + i1) virt r2.at2 (omega (arith, r2.frames)) in
                (m1, r, ground (arith, p, g, q, s, k))
          ]
    ]

-- Nothing was mapped, and every translation is as it was.
pub record Absent (root : ℕ) (m m' : Mem) (virt : ℕ) : Type 0 where
  pub unmapped : walk m root virt ≡ none
  pub same : Kept root m m'

-- The page was mapped to the frame `phys`, and is no more.
pub record Removed (root : ℕ) (m m' : Mem) (virt phys : ℕ) : Type 0 where
  pub was_mapped : walk m root virt ≡ some (phys + virt % page_size)
  pub gone : Remapped root m m' virt none

mapped-walk :
    (root : ℕ) (m m1 : Mem) (virt t : ℕ)
    → Led root m virt t m1
    → present (m1.table t (index virt 3)) ≡ true
    → walk m root virt ≡ some (frame_of (m1.table t (index virt 3)) + virt % page_size)
unfolding enter_pt
mapped-walk root m m1 virt t l p =
    sym (l.walks virt) ∙ walk-Way root l.place3 m1 virt t l.way ∙ ground (arith, p)

-- `unmap_page` on a tree of page tables, with two free frames, does not panic. Either it returns
-- `None`, where the walk of `virt` gives nothing, and changes no translation, or it returns the
-- frame to which the walk leads; then the walks of the page of `virt` give nothing any more, and
-- the walks of all addresses of other pages give what they gave, huge pages included.
pub unmap_page-removes :
    (root : ℕ) (place : Place) (m : Mem)
    → Tree root place m
    → (virt : ℕ) → 2 ≤ m.pmm.free_frames
    → (m' : Mem) × ((unmap_page m (some root) virt ≡ some (m', none)) × Absent root m m' virt
        ⊎ (phys : ℕ) × (unmap_page m (some root) virt ≡ some (m', some phys))
          × Removed root m m' virt phys)
unfolding unmap_page clear_leaf enter_pt
unmap_page-removes root place m tree virt free =
    let (m1, r, h) = leaf_for-some root place m tree virt free in
    elim (leaf_for-cases root place m m1 tree virt r h) [
      | inl n ↦
          (m1, inl (ground (arith, h, n.is_none), record { unmapped = n.unmapped; same = n.kept }))
      | inr a ↦
          let t = a.pt_at in
          (
            write m1 t (index virt 3) 0,
            inr (
              frame_of (m1.table t (index virt 3)),
              ground (arith, h, a.found_at),
              record {
                was_mapped = mapped-walk root m m1 virt t a.led a.mapped;
                gone =
                    write-Remapped root m m1 virt t 0 none a.led
                      (λ virt'. ground (arith, zero-present));
              },
            ),
          )
    ]

-- The entry of the page has the new flags, and every translation is as it was.
pub record Protected (root : ℕ) (m m' : Mem) (virt flags : ℕ) : Type 0 where
  pub frame : ℕ
  pub was_mapped : walk m root virt ≡ some (frame + virt % page_size)
  pub same : Kept root m m'
  pub pt_at : ℕ
  pub way : Way root (same.place1) m' virt pt_at
  pub entry : m'.table pt_at (index virt 3) ≡ frame + flags

write-Protected :
    (root : ℕ) (m m1 : Mem) (virt t flags : ℕ)
    → Led root m virt t m1
    → present (m1.table t (index virt 3)) ≡ true
    → IsFlags flags
    → Protected root m
        (write m1 t (index virt 3) (frame_of (m1.table t (index virt 3)) + flags))
        virt
        flags
unfolding write enter_pt
write-Protected root m m1 virt t flags l p i =
    let old = m1.table t (index virt 3) in
    let now = frame_of old + flags in
    let leads : (virt' : ℕ) → enter_pt m1 now virt' ≡ enter_pt m1 old virt' =
      λ virt'. leaf-enter m1 old flags virt' i ∙ ground (arith, p) in
    record {
      frame = frame_of old;
      was_mapped = mapped-walk root m m1 virt t l p;
      same = record {
        place1 = l.place3;
        tree1 = write-Tree root l.place3 m1 l.tree3 virt t now l.way;
        walks = λ virt'.
            walk-write-same root l.place3 m1 l.tree3 virt t now l.way leads virt' ∙ l.walks virt';
        memory = KeepsBytes-write m m1 t (index virt 3) now l.same_bytes;
      };
      pt_at = t;
      way = write-Way root l.place3 m1 l.tree3 virt t now l.way;
      entry = ground arith;
    }

abbrev kernel_flags : ℕ → Bool
kernel_flags flags =
    flags == kernel_rx
    || flags == kernel_ro
    || flags == kernel_rw
    || flags == kernel_wc
    || flags == kernel_uc

kernel_flags-IsFlags : (flags : ℕ) → kernel_flags flags ≡ true → IsFlags flags
kernel_flags-IsFlags flags h = record {
  low = flags % 0x10_0000_0000_0000 / 2;
  mid = 0;
  high = flags / 0x10_0000_0000_0000;
  parts = ground (arith, h);
  few = ground (arith, h);
  mid_few = omega arith;
}

-- `protect_page` on a tree of page tables, with two free frames, does not panic, and changes no
-- translation. With flags that are none of the kernel's it returns false and changes nothing.
-- Otherwise it returns false where the walk of `virt` gives nothing; where it gives a byte it
-- returns true, and the entry of the page of `virt` has the same frame and the new flags.
pub protect_page-Protected :
    (root : ℕ) (place : Place) (m : Mem)
    → Tree root place m
    → (virt flags : ℕ) → 2 ≤ m.pmm.free_frames
    → ((kernel_flags flags ≡ false) × (protect_page m (some root) virt flags ≡ some (m, false)))
      ⊎ ((kernel_flags flags ≡ true)
          × (m' : Mem) × ((protect_page m (some root) virt flags ≡ some (m', false))
                × Absent root m m' virt
              ⊎ (protect_page m (some root) virt flags ≡ some (m', true))
                × Protected root m m' virt flags))
unfolding protect_page change_leaf
protect_page-Protected root place m tree virt flags free = elim (Bool-cases (kernel_flags flags)) [
  | inr k ↦ inl (k, ground (arith, k))
  | inl k ↦
      let (m1, r, h) = leaf_for-some root place m tree virt free in
      elim (leaf_for-cases root place m m1 tree virt r h) [
        | inl n ↦ inr (
          k,
          m1,
          inl (ground (arith, k, h, n.is_none), record { unmapped = n.unmapped; same = n.kept }),
        )
        | inr a ↦
            let t = a.pt_at in
            inr (
              k,
              write m1 t (index virt 3) (frame_of (m1.table t (index virt 3)) + flags),
              inr (
                ground (arith, k, h, a.found_at),
                write-Protected root m m1 virt t flags a.led a.mapped
                    (kernel_flags-IsFlags flags k),
              ),
            )
      ]
]
