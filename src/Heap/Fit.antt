-- ===== src/Heap/Fit.antt =====
-- `FreeList::find_and_remove` of src/heap.rs.
use eonos.Prelude.{
  ℕ, ◌+◌, ◌-◌, ◌*◌, ◌/◌, ◌%◌, ◌≤◌, ◌<◌, List, [], ◌∷◌, true, false, ◌≡◌, refl, arith, ap, sym,
  subst, ◌∙◌, leb, ◌⊎◌, ◌≢◌, inl, inr, Bool-cases, ◌&&◌, ◌||◌, some, none, Option-cases,
}
use native.Mathlib.Nat.{div-add-mod', mod-lt, mul-mod_left, mul_assoc}
use eonos.Heap.{
  FreeBlock, end_of, insert, insert_after, merge_next, find_fit, put_back, split_block,
  find_and_remove, align_up, block_size,
}
use eonos.Heap.Order.{Ordered, IsBlock, insert-Ordered, Ordered-lower}
use eonos.Heap.Bytes.{
  within, covers, insert-covers, Apart-of_covers, covers_below, total_size, total_size-insert,
}

-- What the search found: a block that fits, and the list without it.
record Fitting (lo : ℕ) (l : List FreeBlock) (size align : ℕ) (b : FreeBlock)
    (rest : List FreeBlock) : Type 0 where
  fits : align_up b.addr align - b.addr + size ≤ b.size
  above : lo ≤ b.addr
  block : IsBlock b.addr b.size
  ordered : Ordered lo rest
  bytes : (x : ℕ) → covers l x ≡ (within b.addr b.size x || covers rest x)
  alone : (x : ℕ) → within b.addr b.size x ≡ true → covers rest x ≡ false
  total : total_size l ≡ b.size + total_size rest

find_fit-Fitting :
    (lo : ℕ) (l : List FreeBlock) (size align : ℕ) (b : FreeBlock) (rest : List FreeBlock)
    → Ordered lo l
    → find_fit l size align ≡ some (b, rest)
    → Fitting lo l size align b rest
unfolding find_fit covers total_size
find_fit-Fitting lo [] size align b rest o h = absurd (cc)
find_fit-Fitting lo (cur ∷ more) size align b rest o h =
    elim (Bool-cases (leb (align_up cur.addr align - cur.addr + size) cur.size)) [
      | inl e ↦
          let same : cur ≡ b = ground arith in
          let left : more ≡ rest = ground arith in
          rw (← same, ← left)
            (record {
              fits = ground arith;
              above = o.0;
              block = o.1;
              ordered = Ordered-lower (end_of cur + 1) lo more (omega arith) o.2;
              bytes = λ x. refl;
              alone = λ x w. covers_below (end_of cur + 1) more x o.2 (ground arith);
              total = refl;
            })
      | inr e ↦ elim (Option-cases (find_fit more size align)) [
        | inl f ↦ absurd (ground arith)
        | inr ((b', l'), f) ↦
            let t = find_fit-Fitting (end_of cur + 1) more size align b' l' o.2 f in
            let same : b' ≡ b = ground arith in
            let left : cur ∷ l' ≡ rest = ground arith in
            rw (← same, ← left)
              (record {
                fits = t.fits;
                above = omega (arith, t.above);
                block = t.block;
                ordered = (o.0, o.1, t.ordered);
                bytes = λ x. ground (arith, t.bytes x);
                alone = λ x w. ground (arith, t.alone x w, t.above);
                total = omega (arith, t.total);
              })
      ]
    ]

-- `align_up` gives the first multiple of `align` at or above `addr`.
pub align_up_lem :
    (addr align : ℕ)
    → 0 < align
    → (addr ≤ align_up addr align)
      × (align_up addr align < addr + align)
      × (align_up addr align % align ≡ 0)
align_up_lem addr align h =
    let n = addr + align - 1 in
    (
      omega (arith, div-add-mod' n align, mod-lt n {m = align} h),
      omega (arith, div-add-mod' n align, mod-lt n {m = align} h),
      mul-mod_left (n / align) align,
    )

align_up-eight : (addr align : ℕ) → align % 8 ≡ 0 → align_up addr align % 8 ≡ 0
align_up-eight addr align h =
    let q = (addr + align - 1) / align in
    let e : align ≡ align / 8 * 8 = omega arith in
    let f : q * align ≡ q * (align / 8) * 8 = ap (λ k. q * k) e ∙ sym (mul_assoc q (align / 8) 8) in
    omega (arith, f, mul-mod_left (q * (align / 8)) 8)

put_back-covers :
    (l : List FreeBlock) (addr size x : ℕ)
    → covers (put_back l addr size) x ≡ ((leb block_size size && within addr size x) || covers l x)
unfolding put_back
put_back-covers l addr size x = ground (arith, insert-covers l addr size x)

put_back-Ordered :
    (lo : ℕ) (l : List FreeBlock) (addr size : ℕ)
    → Ordered lo l
    → lo ≤ addr
    → addr % 8 ≡ 0
    → size % 8 ≡ 0
    → ((x : ℕ) → addr ≤ x → x < addr + size → covers l x ≡ false)
    → Ordered lo (put_back l addr size)
unfolding put_back
put_back-Ordered lo l addr size o h a s free = elim (Bool-cases (leb block_size size)) [
  | inr e ↦ rw e o
  | inl e ↦ rw e (
      insert-Ordered lo l addr size o h (ground arith, a, s)
        (Apart-of_covers lo l addr size o (ground arith) free))
]

put_back-total_size :
    (l : List FreeBlock) (addr size : ℕ)
    → size % 8 ≡ 0
    → (total_size (put_back l addr size) ≤ size + total_size l)
      × (size + total_size l ≤ total_size (put_back l addr size) + 8)
unfolding put_back
put_back-total_size l addr size h = ground (arith, total_size-insert l addr size)

-- What a successful `find_and_remove` did: the region is aligned, was free, and is free no more; no
-- other byte has become free; the list is in order; and at most two slivers of 8 bytes are gone.
pub record Served (lo : ℕ) (l : List FreeBlock) (size align start : ℕ) (l' : List FreeBlock)
    : Type 0 where
  pub aligned : start % align ≡ 0
  pub was_free : (x : ℕ) → within start size x ≡ true → covers l x ≡ true
  pub taken : (x : ℕ) → within start size x ≡ true → covers l' x ≡ false
  pub no_other : (x : ℕ) → covers l' x ≡ true → covers l x ≡ true
  pub ordered : Ordered lo l'
  pub most : total_size l ≤ total_size l' + size + 16
  pub least : total_size l' + size ≤ total_size l

module _ (lo : ℕ) (l : List FreeBlock) (size align : ℕ) (b : FreeBlock) (rest : List FreeBlock)
    (pos : 0 < align) (al8 : align % 8 ≡ 0) (s8 : size % 8 ≡ 0)
    (t : Fitting lo l size align b rest) where
  start : ℕ
  start = align_up b.addr align

  padded : List FreeBlock
  padded = put_back rest b.addr (start - b.addr)

  tail_size : ℕ
  tail_size = b.size - (start - b.addr) - size

  facts : (b.addr ≤ start) × (start % 8 ≡ 0) × (start + size + tail_size ≡ b.addr + b.size)
  unfolding start tail_size
  facts =
      let a = align_up_lem b.addr align pos in
      (a.0, align_up-eight b.addr align al8, omega (arith, t.fits, a.0))

  padded-covers :
      (x : ℕ)
      → covers padded x
        ≡ ((leb block_size (start - b.addr) && within b.addr (start - b.addr) x) || covers rest x)
  unfolding padded
  padded-covers x = put_back-covers rest b.addr (start - b.addr) x

  padded-Ordered : Ordered lo padded
  unfolding padded
  padded-Ordered =
      put_back-Ordered lo rest b.addr (start - b.addr) t.ordered t.above t.block.1
        (omega (arith, facts, t.block.1)) (λ x p q. t.alone x (ground (arith, facts, p, q)))

  split-Served : Served lo l size align start (put_back padded (start + size) tail_size)
  unfolding start padded tail_size
  split-Served = record {
    aligned = (align_up_lem b.addr align pos).2;
    was_free = λ x w. ground (arith, t.bytes x, facts, w);
    taken = λ x w. ground (
      arith,
      put_back-covers padded (start + size) tail_size x,
      padded-covers x,
      t.alone x,
      facts,
      w,
    );
    no_other = λ x c. ground (
      arith,
      put_back-covers padded (start + size) tail_size x,
      padded-covers x,
      t.bytes x,
      facts,
      c,
    );
    ordered =
        put_back-Ordered lo padded (start + size) tail_size padded-Ordered
          (omega (arith, facts, t.above)) (omega (arith, facts))
          (omega (arith, facts, t.block.1, t.block.2))
          (λ x p q. ground (arith, padded-covers x, t.alone x, facts, p, q));
    most = omega (arith, pads, tails, t.total, facts);
    least = omega (arith, pads, tails, t.total, facts);
  }
    where
      pads :
          (total_size padded ≤ (start - b.addr) + total_size rest)
          × ((start - b.addr) + total_size rest ≤ total_size padded + 8)
      pads = put_back-total_size rest b.addr (start - b.addr) (omega (arith, facts, t.block.1))

      tails :
          (total_size (put_back padded (start + size) tail_size) ≤ tail_size + total_size padded)
          × (tail_size + total_size padded
              ≤ total_size (put_back padded (start + size) tail_size) + 8)
      tails =
          put_back-total_size padded (start + size) tail_size
            (omega (arith, facts, t.block.1, t.block.2))

-- A request that `adjust` made, served from an ordered free list: the region starts at a multiple
-- of `align`, all of its bytes were free and none is free any more, no byte has become free, the
-- list is still ordered, and besides the region at most 16 bytes have left the list.
pub find_and_remove-Served :
    (lo : ℕ) (l : List FreeBlock) (size align start' : ℕ) (l' : List FreeBlock)
    → Ordered lo l
    → 0 < align
    → align % 8 ≡ 0
    → size % 8 ≡ 0
    → find_and_remove l size align ≡ some (start', l')
    → Served lo l size align start' l'
unfolding find_and_remove split_block start padded tail_size
find_and_remove-Served lo l size align start' l' o pos al8 s8 h =
    elim (Option-cases (find_fit l size align)) [
      | inl e ↦ absurd (ground arith)
      | inr ((b, rest), e) ↦
          let t = find_fit-Fitting lo l size align b rest o e in
          let served = split-Served lo l size align b rest pos al8 s8 t in
          let at : split_block b rest size align ≡ (start', l') = ground arith in
          subst (λ r. Served lo l size align r.0 r.1) at served
    ]

-- Some block holds the whole region.
abbrev pub Holds : List FreeBlock → ℕ → ℕ → Type 0
Holds [] addr size = ⊥
Holds (b ∷ bs) addr size = ((b.addr ≤ addr) × (addr + size ≤ end_of b)) ⊎ Holds bs addr size

insert_after-Holds :
    (prev : FreeBlock) (l : List FreeBlock) (addr size : ℕ)
    → Holds (insert_after prev l addr size) addr size
unfolding insert_after merge_next
insert_after-Holds prev [] addr size = ground arith
insert_after-Holds prev (cur ∷ rest) addr size =
    ground (arith, insert_after-Holds cur rest addr size)

-- After `insert` one block holds the whole inserted region.
pub insert-Holds : (l : List FreeBlock) (addr size : ℕ) → Holds (insert l addr size) addr size
unfolding insert merge_next
insert-Holds [] addr size = inl (omega arith, omega arith)
insert-Holds (cur ∷ rest) addr size = ground (arith, insert_after-Holds cur rest addr size)

find_fit-Holds :
    (l : List FreeBlock) (addr room size align : ℕ)
    → 0 < align
    → Holds l addr room
    → size + align ≤ room
    → find_fit l size align ≢ none
unfolding find_fit
find_fit-Holds [] addr room size align pos h e = absurd h
find_fit-Holds (b ∷ bs) addr room size align pos (inl h) e =
    ground (arith, align_up_lem b.addr align pos)
find_fit-Holds (b ∷ bs) addr room size align pos (inr h) e =
    ground (arith, find_fit-Holds bs addr room size align pos h e)

-- A block that holds `size + align` bytes is enough for the search to succeed.
pub find_and_remove-Holds :
    (l : List FreeBlock) (addr room size align : ℕ)
    → 0 < align
    → Holds l addr room
    → size + align ≤ room
    → (r : ℕ × List FreeBlock) × (find_and_remove l size align ≡ some r)
unfolding find_and_remove
find_and_remove-Holds l addr room size align pos h e = elim (Option-cases (find_fit l size align)) [
  | inl f ↦ absurd (find_fit-Holds l addr room size align pos h e f)
  | inr ((b, rest), f) ↦ (split_block b rest size align, ground (arith, f))
]
