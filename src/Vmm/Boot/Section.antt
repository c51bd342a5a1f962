-- ===== src/Vmm/Boot/Section.antt =====
-- `map_section` of `map_kernel_sections` in src/vmm.rs.
use eonos.Prelude.{
  ℕ, zero, suc, ◌+◌, ◌-◌, ◌*◌, ◌/◌, ◌%◌, ◌^◌, ◌<◌, ◌≤◌, ◌≡◌, ◌≢◌, refl, ap, sym, ◌∙◌, some, arith,
  dec_lt,
}
use eonos.Vmm.{Mem, frame_of, walk, page_size}
use eonos.Vmm.Entry.{IsFlags}
use eonos.Vmm.Tree.{Place, Tree}
use eonos.Vmm.Install.{KeepsBytes, KeepsBytes-refl, KeepsBytes-trans}
use eonos.Vmm.Page.{page_of}
use eonos.Vmm.Map.{map4k-maps}
use eonos.Vmm.Boot.{to_phys, map_section_pages, map_section, align_up, align_down}

-- What mapping the addresses from `v` to `end` is to leave.
pub record MappedRange (root : ℕ) (m m' : Mem) (kernel_phys kernel_virt v end : ℕ) : Type 0 where
  pub place_after : Place
  pub tree_after : Tree root place_after m'
  pub inside :
      (virt : ℕ)
      → v ≤ virt
      → virt < end
      → walk m' root virt ≡ some (kernel_phys + (virt - kernel_virt))
  pub outside :
      (virt : ℕ)
      → ((w : ℕ) → v ≤ w → w < end → page_of virt ≢ page_of w)
      → walk m' root virt ≡ walk m root virt
  pub memory : KeepsBytes m m'

-- The frame that a round maps.
to_phys-frame :
    (kernel_phys kernel_virt v : ℕ)
    → kernel_phys % page_size ≡ 0
    → kernel_virt % page_size ≡ 0
    → v % page_size ≡ 0
    → kernel_virt ≤ v
    → v < 2 ^ 64
    → kernel_phys + (v - kernel_virt) < 0x10_0000_0000_0000
    → frame_of (to_phys kernel_phys kernel_virt v) ≡ kernel_phys + (v - kernel_virt)
unfolding to_phys frame_of
to_phys-frame kernel_phys kernel_virt v a b c le lt small = omega arith

pub pages_apart :
    (v virt : ℕ)
    → v % page_size ≡ 0
    → v + page_size ≤ virt
    → virt < v + 2 ^ 48
    → page_of virt ≢ page_of v
unfolding page_of
pages_apart v virt a b c e = omega (arith, a, b, c, e)

pub same_page :
    (v virt : ℕ) → v % page_size ≡ 0 → v ≤ virt → virt < v + page_size → page_of virt ≡ page_of v
unfolding page_of
same_page v virt a b c = omega (arith, a, b, c)

module _ (root kernel_phys kernel_virt end flags : ℕ) (is_flags : IsFlags flags)
    (phys_aligned : kernel_phys % page_size ≡ 0) (virt_aligned : kernel_virt % page_size ≡ 0)
    (end_aligned : end % page_size ≡ 0) (top : end < 2 ^ 64)
    (fits : kernel_phys + (end - kernel_virt) < 0x10_0000_0000_0000) where
  map_section_pages-maps :
      (fuel v : ℕ) (place : Place) (m : Mem)
      → Tree root place m
      → v % page_size ≡ 0
      → kernel_virt ≤ v
      → v ≤ end
      → end < v + 2 ^ 48
      → end < fuel * page_size + v
      → 3 * ((end - v) / page_size) ≤ m.pmm.free_frames
      → (m' : Mem) × (map_section_pages fuel m root kernel_phys kernel_virt v end flags ≡ some m')
        × MappedRange root m m' kernel_phys kernel_virt v end
  unfolding map_section_pages
  map_section_pages-maps zero v place m tree a above le near f free = absurd (omega arith)
  map_section_pages-maps (suc fuel) v place m tree a above le near f free = elim (dec_lt v end) [
    | no n ↦ (
      m,
      ground (arith, n),
      record {
        place_after = place;
        tree_after = tree;
        inside = λ virt p q. absurd (omega arith);
        outside = λ virt h. refl;
        memory = KeepsBytes-refl m;
      },
    )
    | yes y ↦
        let phys = to_phys kernel_phys kernel_virt v in
        let (m1, s, r) = map4k-maps root place m tree v phys flags is_flags (omega arith) in
        let frame =
          to_phys-frame kernel_phys kernel_virt v phys_aligned virt_aligned a above (omega arith)
            (omega (arith, fits)) in
        let (m2, s2, rest) =
          map_section_pages-maps fuel (v + page_size) r.place_after m1 r.tree_after (omega arith)
            (omega arith) (omega (arith, y, end_aligned, a)) (omega arith) (omega arith)
            (omega (arith, r.frames, free, y, end_aligned, a)) in
        (
          m2,
          ground (arith, y, s, s2),
          record {
            place_after = rest.place_after;
            tree_after = rest.tree_after;
            inside = λ virt p q. elim (dec_lt virt (v + page_size)) [
              | no k ↦ rest.inside virt (omega arith) q
              | yes k ↦
                  let e : frame_of phys + virt % page_size ≡ kernel_phys + (virt - kernel_virt) =
                    omega (arith, frame, p, k, a, above, phys_aligned) in
                  rest.outside virt
                    (λ w b c z. pages_apart v w a b (omega arith) (sym z ∙ same_page v virt a p k))
                  ∙ r.at_page virt (same_page v virt a p k)
                  ∙ ap some e
            ];
            outside = λ virt h.
                rest.outside virt (λ w b c. h w (omega arith) c)
                ∙ r.elsewhere virt (h v (omega arith) y);
            memory = KeepsBytes-trans m m1 m2 r.memory rest.memory;
          },
        )
  ]

-- `map_section`, with three free frames for each page, does not panic. It maps all addresses from
-- the start of the section's first page to the end of its last, each to its distance from the
-- kernel's image in virtual memory, counted from the image's physical address, and leaves the
-- addresses of all other pages as they were. This is for a section that starts at or above
-- the image's virtual address, whose end, rounded up to a page, is below 2^64 and less than 2^48
-- above its start, rounded down to a page; for flags that have the present bit, not the huge bit and
-- no bit of an address; and for an image aligned to pages, where the section's pages end below the
-- physical address 2^52. No byte of a page whose frame was
-- allocated before changes.
pub map_section-maps :
    (root kernel_phys kernel_virt start end flags : ℕ) (place : Place) (m : Mem)
    → Tree root place m
    → IsFlags flags
    → kernel_phys % page_size ≡ 0
    → kernel_virt % page_size ≡ 0
    → kernel_virt ≤ start
    → start ≤ end
    → align_up end page_size < align_down start page_size + 2 ^ 48
    → align_up end page_size < 2 ^ 64
    → kernel_phys + (align_up end page_size - kernel_virt) < 0x10_0000_0000_0000
    → 3 * ((align_up end page_size - align_down start page_size) / page_size) ≤ m.pmm.free_frames
    → (m' : Mem) × (map_section m root kernel_phys kernel_virt start end flags ≡ some m')
      × MappedRange root m m' kernel_phys kernel_virt
          (align_down start page_size)
          (align_up end page_size)
unfolding map_section align_up align_down
map_section-maps root kernel_phys kernel_virt start end flags place m tree i a b above le near top
      fits free =
    let first = start / 4096 * 4096 in
    let last = (end + 4096 - 1) / 4096 * 4096 in
    map_section_pages-maps root kernel_phys kernel_virt last flags i a b (omega arith) top fits
      (suc ((last - first) / 4096)) first place m tree (omega arith) (omega arith) (omega arith)
      (omega arith) (omega arith) free
