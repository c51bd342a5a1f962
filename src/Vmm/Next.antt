-- ===== src/Vmm/Next.antt =====
-- The way to the next table of src/vmm.rs: `child_table`, `split_huge`, `split_1g_huge`, `pd_for`
-- and `pt_for`.
use eonos.Prelude.{
  ℕ, ◌+◌, ◌*◌, ◌<◌, ◌≤◌, ◌≡◌, ◌≢◌, ◌⊎◌, sym, subst, true, false, some, arith, Bool-cases,
  Option-cases, inl, inr, ℕ_discrete,
}
use eonos.Pmm.{Pmm, alloc_one}
use eonos.Pmm.Valid.{Valid, Takes}
use eonos.Pmm.Alloc.{alloc_one_lem}
use eonos.Vmm.{
  Mem, present, huge, frame_of, put_table, zero_bytes, put_entry, write, alloc_zeroed, child_table,
  replace, walk,
}
use eonos.Vmm.Tree.{Level, Place, Tree}
use eonos.Vmm.Install.{Installed, KeepsBytes, KeepsBytes-zeroed}

-- Tables that hold the same translation, with `t2` behind entry `i` of `t`.
pub record Reached (root : ℕ) (place : Place) (m : Mem) (t i : ℕ) (p : Level × ℕ) (t2 : ℕ)
    (m2 : Mem) : Type 0 where
  pub place2 : Place
  pub tree2 : Tree root place2 m2
  pub walks : (virt : ℕ) → walk m2 root virt ≡ walk m root virt
  pub keeps : (t' : ℕ) (q : Level × ℕ) → place t' ≡ some q → place2 t' ≡ some q
  pub at2 : place2 t2 ≡ some p
  pub is_present : present (m2.table t i) ≡ true
  pub not_huge : huge (m2.table t i) ≡ false
  pub leads : frame_of (m2.table t i) ≡ t2
  pub links :
      (t' i' : ℕ) (q : Level × ℕ)
      → place t' ≡ some q
      → present (m.table t' i') ≡ true
      → huge (m.table t' i') ≡ false
      → m2.table t' i' ≡ m.table t' i'
  pub same_bytes : KeepsBytes m m2
  pub frames : m.pmm.free_frames ≤ m2.pmm.free_frames + 1

pub taken_frame :
    (p q : Pmm) (phys : ℕ)
    → Valid p
    → alloc_one p ≡ some (phys, q)
    → (f : ℕ) × (phys ≡ f * 4096) × Takes p f 1 q
taken_frame p q phys v h = elim (alloc_one_lem p v) [
  | inl (z, e) ↦ absurd (ground (arith, e, h))
  | inr (f, q', pos, e, t) ↦
      let same : q' ≡ q = ground (arith, e, h) in
      (f, ground (arith, e, h), subst (λ x. Takes p f 1 x) same t)
]

-- The memory with a new table.
abbrev linked : Mem → ℕ → ℕ → ℕ → (ℕ → ℕ) → Pmm → Mem
linked m t i phys new q = record m {
  table = put_entry (put_table m.table phys new) t i (phys + 7);
  bytes = zero_bytes m.bytes phys;
  pmm = q;
}

module _ (root : ℕ) (place : Place) (m : Mem) (tree : Tree root place m) (t i : ℕ) (p : Level × ℕ)
    (at : place t ≡ some p) where
  linked-Installed :
      (q : Pmm) (f : ℕ) (new : ℕ → ℕ)
      → Takes m.pmm f 1 q
      → Installed m (linked m t i (f * 4096) new q) t i f new
  linked-Installed q f new k = record {
    link = ground arith;
    filled_in = λ i'. ground (arith, apart);
    others = λ t' i' a b. other t' i' a b;
    takes = k;
    same_bytes =
        KeepsBytes-zeroed m (put_entry (put_table m.table (f * 4096) new) t i (f * 4096 + 7)) f q k;
  }
    where
      apart : t ≢ f * 4096
      apart e =
          let (g, at_g, set_g, small_g) = tree.taken t p at in
          let same : f ≡ g = omega arith in
          absurd (ground (arith, k.was_clear f (omega arith) (omega arith), same, set_g))

      other :
          (t' i' : ℕ)
          → t' ≢ f * 4096
          → (t' ≡ t → i' ≢ i)
          → put_entry (put_table m.table (f * 4096) new) t i (f * 4096 + 7) t' i' ≡ m.table t' i'
      other t' i' a b = elim (ℕ_discrete t' t) [
        | no n ↦ ground (arith, n, a)
        | yes e ↦ let n : i' ≢ i = b e in ground (arith, n, a)
      ]

  pub child_table-cases :
      (t2 : ℕ) (m2 : Mem)
      → child_table m t i ≡ some (t2, m2)
      → ((present (m.table t i) ≡ true)
          × (huge (m.table t i) ≡ false)
          × (t2 ≡ frame_of (m.table t i))
          × (m2 ≡ m))
        ⊎ ((present (m.table t i) ≡ false)
            × (f : ℕ) × (t2 ≡ f * 4096)
            × Installed m m2 t i f (λ k. 0))
  unfolding child_table alloc_zeroed write
  child_table-cases t2 m2 h = elim (Bool-cases (present (m.table t i))) [
    | inl e ↦ elim (Bool-cases (huge (m.table t i))) [
      | inl g ↦ absurd (ground (arith, e, g, h))
      | inr g ↦ inl (e, g, ground (arith, e, g, h), ground (arith, e, g, h))
    ]
    | inr e ↦ elim (Option-cases (alloc_one m.pmm)) [
      | inl n ↦ absurd (ground (arith, e, n, h))
      | inr ((phys, q), s) ↦
          let (f, a, k) = taken_frame m.pmm q phys tree.valid s in
          let to : linked m t i phys (λ k. 0) q ≡ m2 = ground (arith, e, s, h) in
          inr (
            e,
            f,
            ground (arith, e, s, h, a),
            subst (λ x. Installed m x t i f (λ k. 0)) to
                (subst (λ x. Installed m (linked m t i x (λ k. 0) q) t i f (λ k. 0)) (sym a)
                  (linked-Installed q f (λ k. 0) k)),
          )
    ]
  ]

  pub replace-Installed :
      (new : ℕ → ℕ) (m2 : Mem) → replace m t i new ≡ some m2 → (f : ℕ) × Installed m m2 t i f new
  unfolding replace alloc_zeroed write
  replace-Installed new m2 h = elim (Option-cases (alloc_one m.pmm)) [
    | inl n ↦ absurd (ground (arith, n, h))
    | inr ((phys, q), s) ↦
        let (f, a, k) = taken_frame m.pmm q phys tree.valid s in
        let to : record m {
          table = put_entry (put_table (put_table m.table phys (λ i. 0)) phys new) t i (phys + 7);
          bytes = zero_bytes m.bytes phys;
          pmm = q;
        }
            ≡ m2 =
          ground (arith, s, h) in
        (
          f,
          subst (λ x. Installed m x t i f new) to
              (subst
                (λ x.
                  Installed m
                    (record m {
                      table =
                          put_entry (put_table (put_table m.table x (λ i. 0)) x new) t i (x + 7);
                      bytes = zero_bytes m.bytes x;
                      pmm = q;
                    })
                    t i f new)
                (sym a) (twice q f new (linked-Installed q f new k))),
        )
  ]
    where
      twice :
          (q : Pmm) (f : ℕ) (new : ℕ → ℕ)
          → Installed m (linked m t i (f * 4096) new q) t i f new
          → Installed m
              (record m {
                table =
                    put_entry
                      (put_table (put_table m.table (f * 4096) (λ i. 0)) (f * 4096) new)
                      t
                      i
                      (f * 4096 + 7);
                bytes = zero_bytes m.bytes (f * 4096);
                pmm = q;
              })
              t
              i
              f
              new
      twice q f new k = record {
        link = ground arith;
        filled_in = λ i'. ground (arith, k.filled_in i');
        others = λ t' i' a b. ground (arith, k.others t' i' a b, a);
        takes = k.takes;
        same_bytes = record { marks = k.same_bytes.marks; same = k.same_bytes.same };
      }

  -- Neither runs out of memory while a frame is free.
  pub child_table-some :
      0 < m.pmm.free_frames
      → (present (m.table t i) ≡ true → huge (m.table t i) ≡ false)
      → (r : ℕ × Mem) × (child_table m t i ≡ some r)
  unfolding child_table alloc_zeroed write
  child_table-some free ok = elim (Bool-cases (present (m.table t i))) [
    | inl e ↦ ((frame_of (m.table t i), m), ground (arith, e, ok e))
    | inr e ↦ elim (alloc_one_lem m.pmm tree.valid) [
      | inl (z, k) ↦ absurd (omega arith)
      | inr (f, q, pos, k, w) ↦
          ((f * 4096, linked m t i (f * 4096) (λ k. 0) q), ground (arith, e, k))
    ]
  ]

  pub replace-some :
      0 < m.pmm.free_frames → (new : ℕ → ℕ) → (m2 : Mem) × (replace m t i new ≡ some m2)
  unfolding replace alloc_zeroed write
  replace-some free new = elim (alloc_one_lem m.pmm tree.valid) [
    | inl (z, k) ↦ absurd (omega arith)
    | inr (f, q, pos, k, w) ↦ (
      record m {
        table =
            put_entry (put_table (put_table m.table (f * 4096) (λ i. 0)) (f * 4096) new) t i
              (f * 4096 + 7);
        bytes = zero_bytes m.bytes (f * 4096);
        pmm = q;
      },
      ground (arith, k),
    )
  ]
