-- ===== src/Vmm/User/Range.antt =====
-- `validate_user_range` of src/vmm.rs, and the walks for an access of a process.
use eonos.Prelude.{
  ℕ, zero, suc, ◌+◌, ◌-◌, ◌*◌, ◌/◌, ◌%◌, ◌^◌, ◌≤◌, ◌<◌, ◌≡◌, ◌⊎◌, inl, inr, refl, min, Bool, true,
  false, none, some, arith, Option-cases, dec_lt,
}
use eonos.Vmm.{
  Mem, present, user, writable, huge, frame_of, index, page_size, user_space_end, walk, enter_pml4,
  enter_pdpt, enter_pd, enter_pt,
}
use eonos.Vmm.User.{
  user_leaf, walk_user, walk_user_write, walk_for, validate_pages, validate_user_range,
}

-- An access of a process reaches the byte that the walk gives, whether it reads or writes.
pub walk_for-walk :
    (write : Bool) (m : Mem) (cr3 virt phys : ℕ)
    → walk_for write m cr3 virt ≡ some phys
    → walk m cr3 virt ≡ some phys
unfolding walk_for walk_user walk_user_write user_leaf walk enter_pml4 enter_pdpt enter_pd enter_pt
walk_for-walk write m cr3 virt phys h = ground (arith, h)

same_indices :
    (va va' : ℕ)
    → va / page_size ≡ va' / page_size
    → (index va 0 ≡ index va' 0)
      × (index va 1 ≡ index va' 1)
      × (index va 2 ≡ index va' 2)
      × (index va 3 ≡ index va' 3)
unfolding index
same_indices va va' h = (omega (arith, h), omega (arith, h), omega (arith, h), omega (arith, h))

same_leaf :
    (m : Mem) (cr3 va va' : ℕ)
    → va / page_size ≡ va' / page_size
    → user_leaf m cr3 va' ≡ user_leaf m cr3 va
unfolding user_leaf
same_leaf m cr3 va va' h = let (a, b, c, d) = same_indices va va' h in rw (a, b, c, d) refl

-- A page is accessible as a whole.
pub walk_for-page :
    (write : Bool) (m : Mem) (cr3 va va' phys : ℕ)
    → va / page_size ≡ va' / page_size
    → walk_for write m cr3 va ≡ some phys
    → (frame : ℕ) × (phys ≡ frame + va % page_size)
      × (walk_for write m cr3 va' ≡ some (frame + va' % page_size))
unfolding walk_for walk_user walk_user_write
walk_for-page write m cr3 va va' phys e h =
    let s = same_leaf m cr3 va va' e in
    elim (Option-cases (user_leaf m cr3 va)) [
      | inl n ↦ absurd (ground (arith, n, h))
      | inr (leaf, l) ↦ (frame_of leaf, ground (arith, l, h), ground (arith, l, h, s))
    ]

-- All bytes of a range have a walk for the access, or there is one that has none.
unfoldable pub AllUser : Bool → Mem → ℕ → ℕ → ℕ → Type 0
AllUser write m cr3 va end =
    (at : ℕ) → va ≤ at → at < end → (phys : ℕ) × (walk_for write m cr3 at ≡ some phys)

unfoldable pub SomeBad : Bool → Mem → ℕ → ℕ → ℕ → Type 0
SomeBad write m cr3 va end = (at : ℕ) × (va ≤ at) × (at < end) × (walk_for write m cr3 at ≡ none)

validate_pages-cases :
    (fuel : ℕ) (m : Mem) (cr3 va end : ℕ) (write : Bool)
    → end ≤ user_space_end
    → end < fuel + va
    → va ≤ end
    → ((validate_pages fuel m cr3 va end write ≡ some true) × AllUser write m cr3 va end)
      ⊎ ((validate_pages fuel m cr3 va end write ≡ some false) × SomeBad write m cr3 va end)
unfolding validate_pages AllUser SomeBad
validate_pages-cases zero m cr3 va end write b f l = absurd (omega arith)
validate_pages-cases (suc fuel) m cr3 va end write b f l = elim (dec_lt va end) [
  | no n ↦ inl (ground (arith, n), λ at p q. absurd (omega arith))
  | yes y ↦
      let next = va / page_size * page_size + page_size in
      let later = min next end in
      let small : min next (2 ^ 64 - 1) ≡ next = omega (arith, b, y) in
      let up : va < next = omega arith in
      let recur = validate_pages-cases fuel m cr3 later end write b (omega arith) (omega arith) in
      elim (Option-cases (walk_for write m cr3 va)) [
        | inl n ↦ inr (ground (arith, n, y), (va, omega arith, y, n))
        | inr (phys, w) ↦ elim recur [
          | inr (r, (at, p, q, z)) ↦
              inr (ground (arith, w, y, small, up, r), (at, omega arith, q, z))
          | inl (r, all) ↦ inl (
            ground (arith, w, y, small, up, r),
            λ at p q. elim (dec_lt at next) [
              | no n ↦ all at (omega arith) q
              | yes k ↦
                  let (frame, a, c) = walk_for-page write m cr3 va at phys (omega arith) w in
                  (frame + at % page_size, c)
            ],
          )
        ]
      ]
]

-- The cases of `validate_user_range`, by the walks.
pub validate_user_range-walks :
    (m : Mem) (cr3 addr len : ℕ) (write : Bool)
    → ((validate_user_range m cr3 addr len write ≡ some true)
        × ((len ≡ 0) ⊎ ((addr + len ≤ user_space_end) × AllUser write m cr3 addr (addr + len))))
      ⊎ ((validate_user_range m cr3 addr len write ≡ some false)
          × (0 < len)
          × ((user_space_end < addr + len) ⊎ SomeBad write m cr3 addr (addr + len)))
unfolding validate_user_range
validate_user_range-walks m cr3 addr len write = elim (dec_lt 0 len) [
  | no n ↦ inl (ground (arith, n), inl (omega arith))
  | yes y ↦ elim (dec_lt user_space_end (addr + len)) [
    | yes k ↦ inr (ground (arith, y, k), y, inl k)
    | no k ↦
        elim (validate_pages-cases (suc len) m cr3 addr (addr + len) write (omega arith)
          (omega arith) (omega arith)) [
            | inl (r, all) ↦ inl (ground (arith, y, k, r), inr (omega arith, all))
            | inr (r, bad) ↦ inr (ground (arith, y, k, r), y, inr bad)
          ]
  ]
]

-- What the tables say of an address, without a walk: the entry of each of the four levels is present
-- and for users, those of the second and of the third are not huge pages, and for writes that of the
-- last is writable.
pub record Accessible (write : Bool) (m : Mem) (pml4 virt : ℕ) : Type 0 where
  pub pdpt_entry : ℕ
  pub pd_entry : ℕ
  pub pt_entry : ℕ
  pub in_pml4 : pdpt_entry ≡ m.table pml4 (virt / 2 ^ 39 % 512)
  pub in_pdpt : pd_entry ≡ m.table (pdpt_entry / 4096 % 2 ^ 40 * 4096) (virt / 2 ^ 30 % 512)
  pub in_pd : pt_entry ≡ m.table (pd_entry / 4096 % 2 ^ 40 * 4096) (virt / 2 ^ 21 % 512)
  pub leaf : ℕ
  pub in_pt : leaf ≡ m.table (pt_entry / 4096 % 2 ^ 40 * 4096) (virt / 2 ^ 12 % 512)
  pub all_present : (pdpt_entry % 2 ≡ 1) × (pd_entry % 2 ≡ 1) × (pt_entry % 2 ≡ 1) × (leaf % 2 ≡ 1)
  pub all_user :
      (pdpt_entry / 4 % 2 ≡ 1)
      × (pd_entry / 4 % 2 ≡ 1)
      × (pt_entry / 4 % 2 ≡ 1)
      × (leaf / 4 % 2 ≡ 1)
  pub none_huge : (pd_entry / 128 % 2 ≡ 0) × (pt_entry / 128 % 2 ≡ 0)
  pub may_write : write ≡ true → leaf / 2 % 2 ≡ 1

walk_for-Accessible :
    (write : Bool) (m : Mem) (cr3 virt phys : ℕ)
    → walk_for write m cr3 virt ≡ some phys
    → Accessible write m cr3 virt
unfolding walk_for walk_user walk_user_write user_leaf present user writable huge frame_of index
walk_for-Accessible write m cr3 virt phys h =
    let e0 = m.table cr3 (index virt 0) in
    let e1 = m.table (frame_of e0) (index virt 1) in
    let e2 = m.table (frame_of e1) (index virt 2) in
    let e3 = m.table (frame_of e2) (index virt 3) in
    record {
      pdpt_entry = e0;
      pd_entry = e1;
      pt_entry = e2;
      leaf = e3;
      in_pml4 = refl;
      in_pdpt = refl;
      in_pd = refl;
      in_pt = refl;
      all_present = (ground (arith, h), ground (arith, h), ground (arith, h), ground (arith, h));
      all_user = (ground (arith, h), ground (arith, h), ground (arith, h), ground (arith, h));
      none_huge = (ground (arith, h), ground (arith, h));
      may_write = λ w. ground (arith, h, w);
    }

Accessible-leaf :
    (write : Bool) (m : Mem) (cr3 virt : ℕ)
    → (a : Accessible write m cr3 virt) → user_leaf m cr3 virt ≡ some a.leaf
unfolding user_leaf present user huge frame_of index
Accessible-leaf write m cr3 virt a =
    let (p0, p1, p2, p3) = a.all_present in
    let (u0, u1, u2, u3) = a.all_user in
    let (h1, h2) = a.none_huge in
    ground (arith, a.in_pml4, a.in_pdpt, a.in_pd, a.in_pt, p0, p1, p2, u0, u1, u2, h1, h2)

Accessible-walk_for :
    (write : Bool) (m : Mem) (cr3 virt : ℕ)
    → Accessible write m cr3 virt
    → (phys : ℕ) × (walk_for write m cr3 virt ≡ some phys)
unfolding walk_for walk_user walk_user_write present user writable
Accessible-walk_for true m cr3 virt a =
    let (p0, p1, p2, p3) = a.all_present in
    let (u0, u1, u2, u3) = a.all_user in
    let w = a.may_write refl in
    (
      frame_of a.leaf + virt % page_size,
      ground (arith, Accessible-leaf true m cr3 virt a, p3, u3, w),
    )
Accessible-walk_for false m cr3 virt a =
    let (p0, p1, p2, p3) = a.all_present in
    let (u0, u1, u2, u3) = a.all_user in
    (frame_of a.leaf + virt % page_size, ground (arith, Accessible-leaf false m cr3 virt a, p3, u3))

-- `validate_user_range` always returns. It returns true exactly when the range is empty, or ends in
-- user space and each of its addresses is accessible: present and for users in the entries of all
-- four levels, no huge page, and for writes writable in the last entry. Otherwise it returns false:
-- the range is not empty, and ends outside user space or has an address that is not accessible.
pub validate_user_range-cases :
    (m : Mem) (cr3 addr len : ℕ) (write : Bool)
    → ((validate_user_range m cr3 addr len write ≡ some true)
        × ((len ≡ 0)
            ⊎ ((addr + len ≤ user_space_end)
                × ((at : ℕ) → addr ≤ at → at < addr + len → Accessible write m cr3 at))))
      ⊎ ((validate_user_range m cr3 addr len write ≡ some false)
          × (0 < len)
          × ((user_space_end < addr + len)
              ⊎ ((at : ℕ) × (addr ≤ at) × (at < addr + len) × (¬ Accessible write m cr3 at))))
unfolding AllUser SomeBad
validate_user_range-cases m cr3 addr len write =
    elim (validate_user_range-walks m cr3 addr len write) [
      | inl (v, inl z) ↦ inl (v, inl z)
      | inl (v, inr (b, all)) ↦ inl (
        v,
        inr (b, λ at p q. let (phys, w) = all at p q in walk_for-Accessible write m cr3 at phys w),
      )
      | inr (v, y, inl k) ↦ inr (v, y, inl k)
      | inr (v, y, inr (at, p, q, n)) ↦ inr (
        v,
        y,
        inr (
          at,
          p,
          q,
          λ a.
              let (phys, w) = Accessible-walk_for write m cr3 at a in absurd (ground (arith, n, w)),
        ),
      )
    ]
