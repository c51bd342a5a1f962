-- ===== src/Elf/Accept.antt =====
-- What an image that `parse` of src/elf.rs accepts looks like.
use eonos.Prelude.{
  ℕ, zero, suc, ◌+◌, ◌-◌, ◌/◌, ◌≤◌, ◌<◌, ◌≡◌, ◌⊎◌, refl, subst, List, [], ◌∷◌, ◌++◌, true, false,
  not, ◌&&◌, ◌||◌, ◌==◌, length, All, All-append, length-append, get_elem?, some, arith, Bool-cases,
  inl, inr,
}
use eonos.Prelude.Results.{ok, Result-cases}
use eonos.Prelude.Vec.{any}
use eonos.Elf.{
  Segment, page_size, load_min, load_max, max_segments, max_pages, align_down, align_up, rd32, rd64,
  is_writable, is_executable, parse_header, check_segment, parse_phdr, parse_phdrs, overlaps,
  any_overlap, contains_entry, is_empty, check_image, parse,
}

-- A segment that may be loaded from a file of `len` bytes.
pub record Good (len : ℕ) (s : Segment) : Type 0 where
  pub above : load_min ≤ s.vaddr
  pub below : s.vaddr + s.memsz ≤ load_max
  pub nonempty : 0 < s.memsz
  pub file_part : s.filesz ≤ s.memsz
  pub in_file : s.offset + s.filesz ≤ len
  pub wx : (is_writable s.flags && is_executable s.flags) ≡ false

unfoldable pub pages_of : Segment → ℕ
pages_of s = (align_up (s.vaddr + s.memsz) - align_down s.vaddr) / page_size

unfoldable pub total_pages : List Segment → ℕ
unfolding pages_of
total_pages [] = 0
total_pages (s ∷ ss) = pages_of s + total_pages ss

-- The state of the loop.
record Loop (len : ℕ) (st : List Segment × ℕ) : Type 0 where
  good : All (Good len) st.0
  few : length st.0 ≤ max_segments
  pages : st.1 ≡ total_pages st.0
  small : st.1 ≤ max_pages

Good-check_segment :
    (len : ℕ) (s : Segment) (segments : List Segment) (total : ℕ) (st : List Segment × ℕ)
    → 0 < s.memsz
    → check_segment len s (segments, total) ≡ ok st
    → Good len s
unfolding check_segment
Good-check_segment len s segments total st n h = record {
  above = ground arith;
  below = ground arith;
  nonempty = n;
  file_part = ground arith;
  in_file = ground arith;
  wx = ground arith;
}

check_segment-ok :
    (len : ℕ) (s : Segment) (segments : List Segment) (total : ℕ) (st : List Segment × ℕ)
    → check_segment len s (segments, total) ≡ ok st
    → ((length segments == max_segments) ≡ false)
      × (total + pages_of s ≤ max_pages)
      × ((segments ++ (s ∷ []), total + pages_of s) ≡ st)
unfolding check_segment pages_of
check_segment-ok len s segments total st h = (ground arith, ground arith, ground arith)

total_pages-append :
    (ss : List Segment) (s : Segment) → total_pages (ss ++ (s ∷ [])) ≡ total_pages ss + pages_of s
unfolding total_pages
total_pages-append [] s = omega arith
total_pages-append (x ∷ ss) s = omega (arith, total_pages-append ss s)

check_segment-Loop :
    (len : ℕ) (s : Segment) (st st' : List Segment × ℕ)
    → 0 < s.memsz
    → Loop len st
    → check_segment len s st ≡ ok st'
    → Loop len st'
check_segment-Loop len s (segments, total) st' n l h =
    let (few, small, e) = check_segment-ok len s segments total st' h in
    subst (Loop len) e (record {
      good =
          All-append (Good len) segments (s ∷ []) l.good
            (Good-check_segment len s segments total st' n h, tt);
      few = ground (arith, length-append segments (s ∷ []), l.few, few);
      pages = omega (arith, l.pages, total_pages-append segments s);
      small = small;
    })

parse_phdr-Loop :
    (b : List ℕ) (o : ℕ) (st st' : List Segment × ℕ)
    → Loop (length b) st
    → parse_phdr b o st ≡ ok st'
    → Loop (length b) st'
unfolding parse_phdr
parse_phdr-Loop b o st st' l h =
    let s : Segment = record {
      vaddr = rd64 b (o + 16);
      offset = rd64 b (o + 8);
      filesz = rd64 b (o + 32);
      memsz = rd64 b (o + 40);
      flags = rd32 b (o + 4);
    } in
    elim (Bool-cases (not (rd32 b o == 1) || s.memsz == 0)) [
      | inl e ↦ let same : st ≡ st' = ground arith in subst (Loop (length b)) same l
      | inr e ↦ check_segment-Loop (length b) s st st' (ground arith) l (ground arith)
    ]

parse_phdrs-Loop :
    (n : ℕ) (b : List ℕ) (o : ℕ) (st st' : List Segment × ℕ)
    → Loop (length b) st
    → parse_phdrs n b o st ≡ ok st'
    → Loop (length b) st'
unfolding parse_phdrs
parse_phdrs-Loop zero b o st st' l h =
    let same : st ≡ st' = ground arith in subst (Loop (length b)) same l
parse_phdrs-Loop (suc n) b o st st' l h = elim (Result-cases (parse_phdr b o st)) [
  | inl (e, x) ↦ absurd (ground (arith, x))
  | inr (mid, x) ↦
      parse_phdrs-Loop n b (o + 56) mid st' (parse_phdr-Loop b o st mid l x) (ground (arith, x))
]

-- No address lies in both segments.
abbrev pub Disjoint : Segment → Segment → Type 0
Disjoint a b = (a.vaddr + a.memsz ≤ b.vaddr) ⊎ (b.vaddr + b.memsz ≤ a.vaddr)

abbrev pub Apart : List Segment → Type 0
Apart [] = Unit
Apart (a ∷ rest) = All (Disjoint a) rest × Apart rest

overlaps-Disjoint : (a b : Segment) → overlaps a b ≡ false → Disjoint a b
unfolding overlaps
overlaps-Disjoint a b h = ground arith

any-Disjoint : (a : Segment) (l : List Segment) → any (overlaps a) l ≡ false → All (Disjoint a) l
unfolding any
any-Disjoint a [] h = tt
any-Disjoint a (b ∷ l) h = (overlaps-Disjoint a b (ground arith), any-Disjoint a l (ground arith))

any_overlap-Apart : (l : List Segment) → any_overlap l ≡ false → Apart l
unfolding any_overlap
any_overlap-Apart [] h = tt
any_overlap-Apart (a ∷ l) h = (any-Disjoint a l (ground arith), any_overlap-Apart l (ground arith))

-- A segment of the list, executable, in which the entry point lies.
pub record Entry (entry : ℕ) (l : List Segment) : Type 0 where
  pub i : ℕ
  pub s : Segment
  pub at : get_elem? l i ≡ some s
  pub executable : is_executable s.flags ≡ true
  pub from : s.vaddr ≤ entry
  pub upto : entry < s.vaddr + s.memsz

any-Entry : (entry : ℕ) (l : List Segment) → any (contains_entry entry) l ≡ true → Entry entry l
unfolding any contains_entry
any-Entry entry [] h = absurd (cc)
any-Entry entry (s ∷ l) h = elim (Bool-cases (contains_entry entry s)) [
  | inl e ↦ record {
    i = 0;
    s = s;
    at = refl;
    executable = ground arith;
    from = ground arith;
    upto = ground arith;
  }
  | inr e ↦
      let r = any-Entry entry l (ground arith) in
      record {
        i = suc r.i;
        s = r.s;
        at = r.at;
        executable = r.executable;
        from = r.from;
        upto = r.upto;
      }
]

pub record Accepted (len entry : ℕ) (segments : List Segment) : Type 0 where
  pub good : All (Good len) segments
  pub apart : Apart segments
  pub some_segment : 1 ≤ length segments
  pub few : length segments ≤ max_segments
  pub small : total_pages segments ≤ max_pages
  pub start : Entry entry segments

check_image-Accepted :
    (len entry entry' total : ℕ) (l segments : List Segment)
    → Loop len (l, total)
    → check_image entry l ≡ ok (entry', segments)
    → Accepted len entry' segments
unfolding check_image is_empty
check_image-Accepted len entry entry' total [] segments p h = absurd (ground arith)
check_image-Accepted len entry entry' total (a ∷ l) segments p h =
    let no_overlap : any_overlap (a ∷ l) ≡ false = ground arith in
    let entered : any (contains_entry entry) (a ∷ l) ≡ true = ground arith in
    let same : a ∷ l ≡ segments = ground arith in
    let same_entry : entry ≡ entry' = ground arith in
    subst (λ e. Accepted len e segments) same_entry
      (subst (Accepted len entry) same (record {
        good = p.good;
        apart = any_overlap-Apart (a ∷ l) no_overlap;
        some_segment = omega arith;
        few = p.few;
        small = omega (arith, p.pages, p.small);
        start = any-Entry entry (a ∷ l) entered;
      }))

-- Every image that `parse` accepts is safe to load: each segment lies in `[LOAD_MIN, LOAD_MAX)`,
-- takes its bytes from inside the file, is not empty and is not both writable and executable; no two
-- segments overlap; there are between 1 and 16 of them, of at most `MAX_PAGES` pages together; and
-- the entry point lies in an executable one.
pub parse-Accepted :
    (b : List ℕ) (entry : ℕ) (segments : List Segment)
    → parse b ≡ ok (entry, segments)
    → Accepted (length b) entry segments
unfolding parse total_pages
parse-Accepted b entry segments h = elim (Result-cases (parse_header b)) [
  | inl (e, x) ↦ absurd (ground (arith, x))
  | inr (hd, x) ↦ elim (Result-cases (parse_phdrs hd.phnum b hd.phoff ([], 0))) [
    | inl (e, y) ↦ absurd (ground (arith, x, y))
    | inr ((l, total), y) ↦
        check_image-Accepted (length b) hd.entry entry total l segments
          (parse_phdrs-Loop hd.phnum b hd.phoff ([], 0) (l, total)
            (record { good = tt; few = omega arith; pages = refl; small = omega arith }) y)
          (ground (arith, x, y))
  ]
]
