-- ===== src/Vmm/Map.antt =====
-- `map4k` of src/vmm.rs.
use eonos.Prelude.{
  ℕ, ◌+◌, ◌*◌, ◌/◌, ◌%◌, ◌≤◌, ◌≡◌, ◌≢◌, sym, ◌∙◌, subst, Option, none, some, arith, Option-cases,
  inl, inr,
}
use eonos.Vmm.{
  Mem, frame_of, write, enter_pt, walk, index, page_size, map4k, child_table, pd_for, pt_for,
}
use eonos.Vmm.Entry.{IsFlags, leaf-present, leaf-frame_of, index-lt}
use eonos.Vmm.Tree.{pml4, Place, Tree}
use eonos.Vmm.Install.{KeepsBytes, KeepsBytes-write}
use eonos.Vmm.Next.{child_table-some}
use eonos.Vmm.Reach.{child_table-Reached}
use eonos.Vmm.Split.{pd_for-Reached, pt_for-Reached, pd_for-some, pt_for-some}
use eonos.Vmm.Page.{Led, three_steps, page_of, write-Tree, walk-write, walk-write-other}

-- `map4k` finds the page table, then writes the entry.
pub map4k-Led :
    (root : ℕ) (place : Place) (m m' : Mem)
    → Tree root place m
    → (virt phys flags : ℕ) → map4k m root virt phys flags ≡ some m'
    → (t : ℕ) × (m3 : Mem) × Led root m virt t m3
      × (m' ≡ write m3 t (index virt 3) (frame_of phys + flags))
unfolding map4k
map4k-Led root place m m' tree virt phys flags h =
    elim (Option-cases (child_table m root (index virt 0))) [
      | inl n ↦ absurd (ground (arith, h, n))
      | inr ((a1, m1), s1) ↦
          let r1 =
            child_table-Reached root place m tree root (index virt 0) 0 pml4 tree.at_root
              (λ z. absurd (cc)) (index-lt virt 0) a1 m1 s1 in
          elim (Option-cases (pd_for m1 a1 virt)) [
            | inl n ↦ absurd (ground (arith, h, s1, n))
            | inr ((a2, m2), s2) ↦
                let r2 =
                  pd_for-Reached root r1.place2 m1 r1.tree2 a1 (index virt 0) virt a2 m2 r1.at2
                    s2 in
                elim (Option-cases (pt_for m2 a2 virt)) [
                  | inl n ↦ absurd (ground (arith, h, s1, s2, n))
                  | inr ((a3, m3), s3) ↦
                      let r3 =
                        pt_for-Reached root r2.place2 m2 r2.tree2 a2
                          (index virt 0 * 512 + index virt 1) virt a3 m3 r2.at2 s3 in
                      (
                        a3,
                        m3,
                        three_steps root place m m1 m2 m3 virt a1 a2 a3 tree r1 r2 r3,
                        ground (arith, h, s1, s2, s3),
                      )
                ]
          ]
    ]

-- The entry that a mapping writes.
pub leaf-enter :
    (m : Mem) (phys flags virt : ℕ)
    → IsFlags flags
    → enter_pt m (frame_of phys + flags) virt ≡ some (frame_of phys + virt % page_size)
unfolding enter_pt frame_of
leaf-enter m phys flags virt i =
    let f = phys / 4096 % 0x100_0000_0000 in
    let to : frame_of (f * 4096 + flags) ≡ f * 4096 = leaf-frame_of f flags (omega arith) i in
    ground (arith, leaf-present f flags i, to)

-- The byte of an address in the frame of its page.
abbrev pub byte_of : Option ℕ → ℕ → Option ℕ
byte_of none virt = none
byte_of (some frame) virt = some (frame + virt % page_size)

-- What a change of the page of `virt` is to leave: a tree, the walks of the page, and those of
-- all other pages.
pub record Remapped (root : ℕ) (m m' : Mem) (virt : ℕ) (frame : Option ℕ) : Type 0 where
  pub place_after : Place
  pub tree_after : Tree root place_after m'
  pub at_page :
      (virt' : ℕ) → page_of virt' ≡ page_of virt → walk m' root virt' ≡ byte_of frame virt'
  pub elsewhere :
      (virt' : ℕ) → page_of virt' ≢ page_of virt → walk m' root virt' ≡ walk m root virt'
  pub memory : KeepsBytes m m'
  pub frames : m.pmm.free_frames ≤ m'.pmm.free_frames + 3

pub write-Remapped :
    (root : ℕ) (m m3 : Mem) (virt t e : ℕ) (frame : Option ℕ)
    → Led root m virt t m3
    → ((virt' : ℕ) → enter_pt m3 e virt' ≡ byte_of frame virt')
    → Remapped root m (write m3 t (index virt 3) e) virt frame
unfolding write enter_pt
write-Remapped root m m3 virt t e frame l leads = record {
  place_after = l.place3;
  tree_after = write-Tree root l.place3 m3 l.tree3 virt t e l.way;
  at_page =
      λ virt' same. walk-write root l.place3 m3 l.tree3 virt t e l.way virt' same ∙ leads virt';
  elsewhere =
      λ virt' n. walk-write-other root l.place3 m3 l.tree3 virt t e l.way virt' n ∙ l.walks virt';
  memory = KeepsBytes-write m m3 t (index virt 3) e l.same_bytes;
  frames = l.frames;
}

pub map4k-Remapped :
    (root : ℕ) (place : Place) (m m' : Mem)
    → Tree root place m
    → (virt phys flags : ℕ) → IsFlags flags
    → map4k m root virt phys flags ≡ some m'
    → Remapped root m m' virt (some (frame_of phys))
map4k-Remapped root place m m' tree virt phys flags i h =
    let (t, m3, l, e) = map4k-Led root place m m' tree virt phys flags h in
    subst (λ x. Remapped root m x virt (some (frame_of phys))) (sym e)
      (write-Remapped root m m3 virt t (frame_of phys + flags) (some (frame_of phys)) l
        (λ virt'. leaf-enter m3 phys flags virt' i))

pub map4k-some :
    (root : ℕ) (place : Place) (m : Mem)
    → Tree root place m
    → (virt phys flags : ℕ) → 3 ≤ m.pmm.free_frames
    → (m' : Mem) × (map4k m root virt phys flags ≡ some m')
unfolding map4k
map4k-some root place m tree virt phys flags free =
    let ((a1, m1), s1) =
      child_table-some root place m tree root (index virt 0) (pml4, 0) tree.at_root (omega arith)
        (tree.no_huge (index virt 0) (index-lt virt 0)) in
    let r1 =
      child_table-Reached root place m tree root (index virt 0) 0 pml4 tree.at_root
        (λ z. absurd (cc)) (index-lt virt 0) a1 m1 s1 in
    let ((a2, m2), s2) =
      pd_for-some root r1.place2 m1 r1.tree2 a1 (index virt 0) virt (omega (arith, r1.frames))
        r1.at2 in
    let r2 = pd_for-Reached root r1.place2 m1 r1.tree2 a1 (index virt 0) virt a2 m2 r1.at2 s2 in
    let ((a3, m3), s3) =
      pt_for-some root r2.place2 m2 r2.tree2 a2 (index virt 0 * 512 + index virt 1) virt
        (omega (arith, r1.frames, r2.frames)) r2.at2 in
    (write m3 a3 (index virt 3) (frame_of phys + flags), ground (arith, s1, s2, s3))

-- `map4k` on a tree of page tables, with three free frames and flags that have the present bit, not
-- the huge bit and no bit of an address, does not panic and takes at most three frames. It leaves a
-- tree in which the walks of the page of `virt` give the bytes of the frame of `phys`, the walks of
-- all addresses of other pages give what they gave, and no byte of a page whose frame was allocated
-- before has changed, whether it makes tables on the way, splits huge pages or does neither.
pub map4k-maps :
    (root : ℕ) (place : Place) (m : Mem)
    → Tree root place m
    → (virt phys flags : ℕ) → IsFlags flags
    → 3 ≤ m.pmm.free_frames
    → (m' : Mem) × (map4k m root virt phys flags ≡ some m')
      × Remapped root m m' virt (some (frame_of phys))
map4k-maps root place m tree virt phys flags i free =
    let (m', h) = map4k-some root place m tree virt phys flags free in
    (m', h, map4k-Remapped root place m m' tree virt phys flags i h)
