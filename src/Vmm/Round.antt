-- ===== src/Vmm/Round.antt =====
-- Mapping and unmapping a page of an address space of src/vmm.rs, one after the other.
use eonos.Prelude.{ℕ, ◌+◌, ◌/◌, ◌%◌, ◌<◌, ◌≤◌, ◌≡◌, ◌≢◌, refl, ap, ◌∙◌, true, none, some, arith}
use eonos.Vmm.{Mem, present, frame_of, write, enter_pt, index, page_size, user_space_end}
use eonos.Vmm.Entry.{IsFlags, zero-present, index-lt, leaf-present, leaf-frame_of}
use eonos.Vmm.Tree.{Place, Tree}
use eonos.Vmm.Page.{Way, page_of, write-Tree, write-Way, walk-write, walk-write-other, entry_is}
use eonos.Vmm.Map.{write-Remapped, map4k-Led, map4k-some, leaf-enter}
use eonos.Vmm.Leaf.{leaf_in_pd, leaf_in_pdpt, leaf_for, clear_leaf}
use eonos.Vmm.Leaf.Space

user_flags-IsFlags : (flags : ℕ) → Space.user_flags flags ≡ true → IsFlags flags
unfolding Space.user_flags
user_flags-IsFlags flags h = record {
  low = flags % 0x10_0000_0000_0000 / 2;
  mid = 0;
  high = flags / 0x10_0000_0000_0000;
  parts = ground (arith, h);
  few = ground (arith, h);
  mid_few = omega arith;
}

-- Where the tables are there, `leaf_for` changes nothing and finds the last one.
leaf_for-Way :
    (root : ℕ) (place : Place) (m : Mem) (virt t : ℕ)
    → Tree root place m
    → Way root place m virt t
    → present (m.table t (index virt 3)) ≡ true
    → leaf_for m root virt ≡ some (m, some t)
unfolding leaf_for leaf_in_pdpt leaf_in_pd
leaf_for-Way root place m virt t tree w p =
    let (a, b) = w.in_pml4 in
    let (c, d, e) = w.in_pdpt in
    let (f, g, h) = w.in_pd in
    ground (arith, a, b, tree.no_huge (index virt 0) (index-lt virt 0) a, c, d, e, f, g, h, p)

aligned_frame :
    (phys : ℕ) → phys < 0x10_0000_0000_0000 → phys % page_size ≡ 0 → frame_of phys ≡ phys
unfolding frame_of
aligned_frame phys h k = omega (arith, h, k)

entry_parts :
    (phys flags : ℕ)
    → IsFlags flags
    → (present (frame_of phys + flags) ≡ true) × (frame_of (frame_of phys + flags) ≡ frame_of phys)
unfolding frame_of
entry_parts phys flags i =
    let f = phys / 4096 % 0x100_0000_0000 in
    (leaf-present f flags i, leaf-frame_of f flags (omega arith) i)

-- In an address space, with three free frames, map a page frame at an aligned user address that is
-- not mapped, with flags of a user page: this does not panic, and a lookup of the address gives the
-- frame. Unmap it again: this does not panic either, it returns the frame, and every lookup, of the
-- address and of the addresses of other pages, gives what it gave at first.
pub unmap-map :
    (space : ℕ) (place : Place) (m : Mem)
    → Tree space place m
    → (virt phys flags : ℕ) → virt < user_space_end
    → virt % page_size ≡ 0
    → phys < 0x10_0000_0000_0000
    → phys % page_size ≡ 0
    → Space.user_flags flags ≡ true
    → Space.lookup m space virt ≡ none
    → 3 ≤ m.pmm.free_frames
    → (m1 : Mem) × (m2 : Mem) × (Space.map m space virt phys flags ≡ some m1)
      × (Space.lookup m1 space virt ≡ some phys)
      × (Space.unmap m1 space virt ≡ some (m2, some phys))
      × (Space.lookup m2 space virt ≡ none)
      × ((virt' : ℕ)
          → page_of virt' ≢ page_of virt
          → Space.lookup m2 space virt' ≡ Space.lookup m space virt')
unfolding Space.map Space.lookup Space.unmap clear_leaf enter_pt write
unmap-map space place m tree virt phys flags inside aligned bounded frame allowed absent free =
    let i = user_flags-IsFlags flags allowed in
    let (m1, h) = map4k-some space place m tree virt phys flags free in
    let (t, m3, l, e) = map4k-Led space place m m1 tree virt phys flags h in
    let entry = frame_of phys + flags in
    let mid = write m3 t (index virt 3) entry in
    let way = write-Way space l.place3 m3 l.tree3 virt t entry l.way in
    let tree1 = write-Tree space l.place3 m3 l.tree3 virt t entry l.way in
    let at : mid.table t (index virt 3) ≡ entry =
      entry_is space l.place3 m3 l.tree3 virt t entry l.way in
    let (is_present, is_frame) = entry_parts phys flags i in
    let found = leaf_for-Way space l.place3 mid virt t tree1 way (ap present at ∙ is_present) in
    let there =
      write-Remapped space m m3 virt t entry (some (frame_of phys)) l
        (λ virt'. leaf-enter m3 phys flags virt' i) in
    let to = aligned_frame phys bounded frame in
    let to_frame : frame_of phys + virt % page_size ≡ phys = omega (arith, to, aligned) in
    let m2 = write mid t (index virt 3) 0 in
    (
      mid,
      m2,
      ground (arith, inside, aligned, frame, allowed, absent, h, e),
      there.at_page virt refl ∙ ap some (to_frame),
      ground (arith, inside, found, ap frame_of at ∙ is_frame ∙ to),
      walk-write space l.place3 mid tree1 virt t 0 way virt refl ∙ ground (arith, zero-present),
      λ virt' n.
          walk-write-other space l.place3 mid tree1 virt t 0 way virt' n ∙ there.elsewhere virt' n,
    )
