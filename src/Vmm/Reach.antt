-- ===== src/Vmm/Reach.antt =====
-- The way to the next table of src/vmm.rs: what `child_table`, `pd_for` and `pt_for` leave of the
-- tree and of the walks.
use eonos.Prelude.{
  ℕ, ◌+◌, ◌*◌, ◌<◌, ◌≡◌, ◌≢◌, refl, ap, sym, ◌∙◌, subst, true, false, none, some, arith, inl, inr,
}
use eonos.Vmm.{
  Mem, present, huge, frame_of, child_table, enter_pt, enter_pd, enter_pdpt, enter_pml4, index,
}
use eonos.Vmm.Entry.{zero-present, link-present, link-huge, link-frame_of}
use eonos.Vmm.Tree.{Level, pml4, pdpt, pd, pt, Place, Tree, enter, slot, prefix, walk_agrees}
use eonos.Vmm.Install.{
  next_level, next_number, Installed, KeepsBytes-refl, install-Tree, place', keeps_place, new_place,
  touches, below, f-lt,
}
use eonos.Vmm.Next.{Reached, child_table-cases}

-- An entry that is no link yet becomes one.
pub install_reaches :
    (root : ℕ) (place : Place) (m m' : Mem) (tree : Tree root place m) (t i v f : ℕ) (level : Level)
    (new : ℕ → ℕ)
    → (at : place t ≡ some (level, v)) → level ≢ pt
    → i < 512
    → Installed m m' t i f new
    → (level ≢ pd → (i' : ℕ) → i' < 512 → present (new i') ≡ true → huge (new i') ≡ true)
    → ((virt : ℕ)
        → v ≡ prefix level virt
        → i ≡ slot level virt
        → enter level m' (f * 4096 + 7) virt ≡ enter level m (m.table t i) virt)
    → (present (m.table t i) ≡ true → huge (m.table t i) ≡ true)
    → Reached root place m t i (next_level level, next_number level v i) (f * 4096) m'
install_reaches root place m m' tree t i v f level new at above lt ins no_links hit no_link =
    let small = f-lt root place m m' tree t i v f level new at above lt ins no_links in
    let touch = touches root place m m' tree t i v f level new at above lt ins no_links in
    record {
      place2 = place' root place m m' tree t i v f level new at above lt ins no_links;
      tree2 = install-Tree root place m m' tree t i v f level new at above lt ins no_links;
      walks = λ virt. walk_agrees root place m m' tree t i v level at touch virt (λ a b.
          subst (λ e. enter level m' e virt ≡ enter level m (m.table t i) virt) (sym ins.link)
            (hit virt a b));
      keeps = keeps_place root place m m' tree t i v f level new at above lt ins no_links;
      at2 = new_place root place m m' tree t i v f level new at above lt ins no_links;
      is_present = ap present ins.link ∙ link-present f;
      not_huge = ap huge ins.link ∙ link-huge f;
      leads = ap frame_of ins.link ∙ link-frame_of f small;
      links = λ t' i' q h p g.
          touch.same t' i' q h (λ e k. absurd (ground (arith, no_link, p, g, e, k)));
      same_bytes = ins.same_bytes;
      frames = omega (arith, ins.takes.fewer);
    }

-- Below a table with no entries there is nothing.
empty-enter :
    (level : Level) (m : Mem) (f virt : ℕ)
    → level ≢ pt
    → f < 0x100_0000_0000
    → ((i : ℕ) → m.table (f * 4096) i ≡ 0)
    → enter level m (f * 4096 + 7) virt ≡ none
unfolding enter_pml4 enter_pdpt enter_pd enter_pt present
empty-enter pml4 m f virt n h z =
    ground (arith, link-present f, link-frame_of f h, z (index virt 1))
empty-enter pdpt m f virt n h z =
    ground (arith, link-present f, link-huge f, link-frame_of f h, z (index virt 2))
empty-enter pd m f virt n h z =
    ground (arith, link-present f, link-huge f, link-frame_of f h, z (index virt 3))
empty-enter pt m f virt n h z = absurd (n refl)

absent-enter :
    (level : Level) (m : Mem) (e virt : ℕ) → present e ≡ false → enter level m e virt ≡ none
unfolding enter_pml4 enter_pdpt enter_pd enter_pt
absent-enter pml4 m e virt h = ground (arith, h)
absent-enter pdpt m e virt h = ground (arith, h)
absent-enter pd m e virt h = ground (arith, h)
absent-enter pt m e virt h = ground (arith, h)

module _ (root : ℕ) (place : Place) (m : Mem) (tree : Tree root place m) (t i v : ℕ) (level : Level)
    (at : place t ≡ some (level, v)) (above : level ≢ pt) (lt : i < 512) where
  -- A table that is there.
  pub here-Reached :
      present (m.table t i) ≡ true
      → huge (m.table t i) ≡ false
      → Reached root place m t i
          (next_level level, next_number level v i)
          (frame_of (m.table t i))
          m
  here-Reached p g = record {
    place2 = place;
    tree2 = tree;
    walks = λ virt. refl;
    keeps = λ t' q h. h;
    at2 = below root place m tree level t v i above at lt p g;
    is_present = p;
    not_huge = g;
    leads = refl;
    links = λ t' i' q h a b. refl;
    same_bytes = KeepsBytes-refl m;
    frames = omega arith;
  }

  pub child_table-Reached :
      (t2 : ℕ) (m2 : Mem)
      → child_table m t i ≡ some (t2, m2)
      → Reached root place m t i (next_level level, next_number level v i) t2 m2
  child_table-Reached t2 m2 h =
      elim (child_table-cases root place m tree t i (level, v) at t2 m2 h) [
        | inl (p, g, e, k) ↦
            subst (λ x. Reached root place m t i (next_level level, next_number level v i) x m2)
              (sym e)
              (subst
                (λ x.
                  Reached root place m t i (next_level level, next_number level v i)
                    (frame_of (m.table t i)) x)
                (sym k) (here-Reached p g))
        | inr (p, f, e, ins) ↦
            let no_links : level ≢ pd → (i' : ℕ) → i' < 512 → present 0 ≡ true → huge 0 ≡ true =
              λ n i' l q. absurd (ground (arith, zero-present, q)) in
            let small = f-lt root place m m2 tree t i v f level (λ k. 0) at above lt ins no_links in
            subst (λ x. Reached root place m t i (next_level level, next_number level v i) x m2)
              (sym e)
              (install_reaches root place m m2 tree t i v f level (λ k. 0) at above lt ins no_links
                (λ virt a b.
                  empty-enter level m2 f virt above small ins.filled_in
                  ∙ sym (absent-enter level m (m.table t i) virt p))
                (λ q. absurd (ground (arith, p, q))))
      ]
