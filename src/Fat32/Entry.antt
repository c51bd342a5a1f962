-- ===== src/Fat32/Entry.antt =====
-- `set_fat_entry` and `fat_entry` of src/fat32.rs on a device that keeps what is written.
use eonos.Prelude.{
  ℕ, zero, suc, ◌+◌, ◌*◌, ◌/◌, ◌%◌, ◌^◌, ◌<◌, ◌≤◌, ◌≡◌, ◌≢◌, ◌⊎◌, inl, inr, List, true, ◌&&◌, ◌==◌,
  arith, refl, ap, sym, ◌∙◌, subst, length, Bool-cases, Option-cases, ℕ_discrete, dec_lt,
}
use native.Mathlib.Nat.{mul-le-mul_right}
use eonos.Prelude.Results.{ok}
use eonos.Block.{BlockDevice, sector_size}
use eonos.Block.Laws.{Lawful}
use eonos.Fat32.{
  Geometry, Volume, u32le, le_bytes, store, read_sector, write_sector, entry_sector, fat_entry,
}
use eonos.Fat32.Mount.{Fits}
use eonos.Fat32.Word.{length-store, u32le-store, u32le-store_apart}
use eonos.Fat32.Write.{no_hints, new_word, invalidate_fsinfo_hint, set_copies, set_fat_entry}

length-new_word : (w : List ℕ) (at value : ℕ) → length (new_word w at value) ≡ length w
unfolding new_word
length-new_word w at value =
    length-store w at (le_bytes (u32le w at / 0x1000_0000 * 0x1000_0000 + value % 0x1000_0000))

-- The low 28 bits of the new word are the value's.
new_word-value :
    (w : List ℕ) (at value : ℕ)
    → at + 4 ≤ length w
    → u32le (new_word w at value) at % 0x1000_0000 ≡ value % 0x1000_0000
unfolding new_word
new_word-value w at value h =
    omega (arith, u32le-store w at (u32le w at / 0x1000_0000 * 0x1000_0000 + value % 0x1000_0000) h)

new_word-apart :
    (w : List ℕ) (at at' value : ℕ)
    → (at' + 4 ≤ at) ⊎ (at + 4 ≤ at')
    → u32le (new_word w at value) at' ≡ u32le w at'
unfolding new_word
new_word-apart w at at' value h =
    u32le-store_apart w at at' (u32le w at / 0x1000_0000 * 0x1000_0000 + value % 0x1000_0000) h

-- A volume that fits its device, whose sectors all have their full length.
pub record Ready {S : Type 0} (dev : BlockDevice S) (Valid : S → Type 0) (g : Geometry)
    (v : Volume S) : Type 0 where
  pub device : Valid v.disk
  pub fits : Fits g (dev.sector_count v.disk)
  pub small : dev.sector_count v.disk < 2 ^ 64
  pub sized : (lba : ℕ) (w : List ℕ) → dev.read_sector v.disk lba ≡ ok w → length w ≡ sector_size

module _ {S : Type 0} (dev : BlockDevice S) (Valid : S → Type 0) (law : Lawful dev Valid)
    (g : Geometry) where
  -- A sector that was written.
  pub record Wrote (v v' : Volume S) (lba : ℕ) (w : List ℕ) : Type 0 where
    pub ready : Ready dev Valid g v'
    pub now : read_sector dev v' lba ≡ ok w
    pub size : dev.sector_count v'.disk ≡ dev.sector_count v.disk
    pub others : (other : ℕ) → lba ≢ other → read_sector dev v' other ≡ read_sector dev v other

  pub write_step :
      (v : Volume S) (lba : ℕ) (w : List ℕ)
      → Ready dev Valid g v
      → lba < dev.sector_count v.disk
      → length w ≡ sector_size
      → (v' : Volume S) × (write_sector dev v lba w ≡ (v', ok tt)) × Wrote v v' lba w
  unfolding write_sector read_sector
  write_step v lba w r h n =
      let (s, e) = law.written v.disk lba w r.device h in
      let back = law.read_back v.disk s lba w r.device e in
      let size = law.same_size v.disk s lba w e in
      (
        record v { disk = s },
        ground (arith, e),
        record {
          ready = record {
            device = law.valid v.disk s lba w r.device e;
            fits = subst (λ k. Fits g k) (sym size) r.fits;
            small = omega (arith, r.small, size);
            sized = λ l x k. elim (ℕ_discrete lba l) [
              | yes z ↦ let same : w ≡ x = ground (arith, back, k, z) in ap length (sym same) ∙ n
              | no z ↦ r.sized l x (sym (law.others v.disk s lba l w r.device z e) ∙ k)
            ];
          };
          now = ground (arith, back);
          size = size;
          others = λ other z. ground (arith, law.others v.disk s lba other w r.device z e);
        },
      )

  pub read_step :
      (v : Volume S) (lba : ℕ)
      → Ready dev Valid g v
      → lba < dev.sector_count v.disk
      → (w : List ℕ) × (read_sector dev v lba ≡ ok w) × (length w ≡ sector_size)
  unfolding read_sector
  read_step v lba r h =
      let (w, e) = law.readable v.disk lba r.device h in (w, ground (arith, e), r.sized lba w e)

  -- Where the copies of a sector of the table are.
  abbrev copy : ℕ → ℕ → ℕ
  copy sector_in_fat fat = g.reserved_sectors + fat * g.sectors_per_fat + sector_in_fat

  copies_apart : (e i j : ℕ) → e < g.sectors_per_fat → i < j → copy e i ≢ copy e j
  copies_apart e i j h k z =
      let next : i + 1 ≤ j = omega arith in
      let rows : (i + 1) * g.sectors_per_fat ≤ j * g.sectors_per_fat =
        mul-le-mul_right g.sectors_per_fat next in
      absurd (omega (arith, rows, z))

  copy_on_device : (e i n : ℕ) → Fits g n → e < g.sectors_per_fat → i < g.fat_count → copy e i < n
  copy_on_device e i n f h k =
      let next : i + 1 ≤ g.fat_count = omega arith in
      let rows : (i + 1) * g.sectors_per_fat ≤ g.fat_count * g.sectors_per_fat =
        mul-le-mul_right g.sectors_per_fat next in
      omega (arith, rows, f.start, f.data_fits)

  -- The copies from `fat` on have the new word, and nothing else has changed.
  record Copied (v v' : Volume S) (left fat e at value : ℕ) : Type 0 where
    pub ready : Ready dev Valid g v'
    others :
        (lba : ℕ)
        → ((j : ℕ) → fat ≤ j → j < fat + left → copy e j ≢ lba)
        → read_sector dev v' lba ≡ read_sector dev v lba
    copies :
        (j : ℕ)
        → fat ≤ j
        → j < fat + left
        → (w : List ℕ) × (length w ≡ sector_size)
          × (read_sector dev v (copy e j) ≡ ok w)
          × (read_sector dev v' (copy e j) ≡ ok (new_word w at value))

  set_copies-Copied :
      (left fat : ℕ) (v : Volume S) (e at value : ℕ)
      → Ready dev Valid g v
      → fat + left ≤ g.fat_count
      → e < g.sectors_per_fat
      → (v' : Volume S) × (set_copies dev g left fat v e at value ≡ (v', ok tt))
        × Copied v v' left fat e at value
  unfolding set_copies
  set_copies-Copied zero fat v e at value r h k = (
    v,
    refl,
    record { ready = r; others = λ lba n. refl; copies = λ j a b. absurd (omega arith) },
  )
  set_copies-Copied (suc left) fat v e at value r h k =
      let inside = copy_on_device e fat (dev.sector_count v.disk) r.fits k (omega arith) in
      let (w, e1, n) = read_step v (copy e fat) r inside in
      let w' = new_word w at value in
      let (v1, e2, wrote) =
        write_step v (copy e fat) w' r inside (length-new_word w at value ∙ n) in
      let (v2, e3, rest) =
        set_copies-Copied left (fat + 1) v1 e at value wrote.ready (omega arith) k in
      (
        v2,
        ground (arith, e1, e2, e3),
        record {
          ready = rest.ready;
          others = λ lba z.
              rest.others lba (λ j a b. z j (omega arith) (omega arith))
              ∙ wrote.others lba (z fat (omega arith) (omega arith));
          copies = λ j a b. elim (ℕ_discrete j fat) [
            | yes z ↦ (
              w,
              n,
              ap (λ i. read_sector dev v (copy e i)) z ∙ e1,
              ap (λ i. read_sector dev v2 (copy e i)) z
                  ∙ rest.others (copy e fat)
                      (λ i c d x. copies_apart e fat i k (omega arith) (sym x))
                  ∙ wrote.now,
            )
            | no z ↦
                let (x, m, c, d) = rest.copies j (omega arith) (omega arith) in
                (x, m, sym (wrote.others (copy e j) (copies_apart e fat j k (omega arith))) ∙ c, d)
          ];
        },
      )

  -- Marking the free count as unknown changes nothing after the reserved sectors.
  invalidate-Ready :
      (v : Volume S)
      → Ready dev Valid g v
      → (v' : Volume S) × (invalidate_fsinfo_hint dev g v ≡ (v', ok tt))
        × Ready dev Valid g v'
        × ((lba : ℕ) → g.reserved_sectors ≤ lba → read_sector dev v' lba ≡ read_sector dev v lba)
  unfolding invalidate_fsinfo_hint read_sector
  invalidate-Ready v r =
      let marked : (u : Volume S)
          → Ready dev Valid g u
          → Ready dev Valid g (record u { fsinfo_invalidated = true }) =
        λ u q. record { device = q.device; fits = q.fits; small = q.small; sized = q.sized } in
      elim (Bool-cases v.fsinfo_invalidated) [
        | inl i ↦ (v, ground (arith, i), r, λ lba h. refl)
        | inr i ↦ elim (Option-cases g.fsinfo_sector) [
          | inl none_there ↦ (
            record v { fsinfo_invalidated = true },
            ground (arith, i, none_there),
            marked v r,
            λ lba h. refl,
          )
          | inr (no_at, is_at) ↦
              let before = r.fits.fsinfo_in no_at is_at in
              let inside : no_at < dev.sector_count v.disk =
                omega (arith, before, r.fits.start, r.fits.data_fits) in
              let (w, e1, n) = read_step v no_at r inside in
              let size =
                length-store (store w 488 (le_bytes 0xffff_ffff)) 492 (le_bytes 0xffff_ffff)
                ∙ length-store w 488 (le_bytes 0xffff_ffff)
                ∙ n in
              let (v1, e2, wrote) = write_step v no_at (no_hints w) r inside size in
              elim (Bool-cases (
                u32le w 0 == 0x4161_5252
                && u32le w 484 == 0x6141_7272
                && u32le w 508 == 0xaa55_0000)) [
                  | inl c ↦ (
                    record v1 { fsinfo_invalidated = true },
                    ground (arith, i, is_at, e1, c, e2),
                    marked v1 wrote.ready,
                    λ lba h. wrote.others lba (λ z. absurd (omega (arith, before, h, z))),
                  )
                  | inr c ↦ (
                    record v { fsinfo_invalidated = true },
                    ground (arith, i, is_at, e1, c),
                    marked v r,
                    λ lba h. refl,
                  )
                ]
        ]
      ]

  pub entry_sector-ok :
      (n cluster : ℕ)
      → Fits g n
      → cluster < g.cluster_count + 2
      → (entry_sector g cluster ≡ ok (cluster * 4 / sector_size))
        × (cluster * 4 / sector_size < g.sectors_per_fat)
  unfolding entry_sector
  entry_sector-ok n cluster f h =
      (ground (arith, f.entries_fit, h), omega (arith, f.entries_fit, h))

  -- The sector of another entry is not a copy of this one, unless it is the same.
  not_copy :
      (e o j : ℕ)
      → e < g.sectors_per_fat
      → o < g.sectors_per_fat
      → o ≢ e
      → copy e j ≢ g.reserved_sectors + o
  not_copy e o j low low' n z = elim (ℕ_discrete j 0) [
    | yes y ↦
        let none_before : j * g.sectors_per_fat ≡ 0 =
          ap (λ i. i * g.sectors_per_fat) y ∙ omega arith in
        absurd (n (omega (arith, z, none_before)))
    | no y ↦
        let one_up : 1 ≤ j = omega arith in
        let rows : 1 * g.sectors_per_fat ≤ j * g.sectors_per_fat =
          mul-le-mul_right g.sectors_per_fat one_up in
        absurd (omega (arith, rows, z))
  ]

  other_entry :
      (v v1 v2 : Volume S) (cluster value : ℕ) (w : List ℕ) (other : ℕ)
      → Ready dev Valid g v
      → cluster < g.cluster_count + 2
      → other < g.cluster_count + 2
      → other ≢ cluster
      → 512 ≤ length w
      → ((lba : ℕ) → g.reserved_sectors ≤ lba → read_sector dev v1 lba ≡ read_sector dev v lba)
      → Copied v1 v2 g.fat_count 0 (cluster * 4 / 512) (cluster * 4 % 512) value
      → read_sector dev v (g.reserved_sectors + cluster * 4 / 512) ≡ ok w
      → read_sector dev v2 (g.reserved_sectors + cluster * 4 / 512)
        ≡ ok (new_word w (cluster * 4 % 512) value)
      → fat_entry dev g v2 other ≡ fat_entry dev g v other
  unfolding fat_entry
  other_entry v v1 v2 cluster value w other r h k z n same1 c before after =
      let e = cluster * 4 / 512 in
      let o = other * 4 / 512 in
      let (found, low) = entry_sector-ok (dev.sector_count v.disk) cluster r.fits h in
      let (found', low') = entry_sector-ok (dev.sector_count v.disk) other r.fits k in
      elim (ℕ_discrete o e) [
        | yes q ↦
            let before' : read_sector dev v (g.reserved_sectors + o) ≡ ok w =
              ap (λ i. read_sector dev v (g.reserved_sectors + i)) q ∙ before in
            let after' : read_sector dev v2 (g.reserved_sectors + o)
                ≡ ok (new_word w (cluster * 4 % 512) value) =
              ap (λ i. read_sector dev v2 (g.reserved_sectors + i)) q ∙ after in
            let apart : (other * 4 % 512 + 4 ≤ cluster * 4 % 512)
                ⊎ (cluster * 4 % 512 + 4 ≤ other * 4 % 512) =
              elim (dec_lt other cluster) [
                | yes y ↦ inl (omega (arith, q, y))
                | no y ↦ inr (omega (arith, q, y, z))
              ] in
            ground (
              arith,
              found',
              before',
              after',
              new_word-apart w (cluster * 4 % 512) (other * 4 % 512) value apart,
            )
        | no q ↦
            let same : read_sector dev v2 (g.reserved_sectors + o)
                ≡ read_sector dev v (g.reserved_sectors + o) =
              c.others (g.reserved_sectors + o) (λ j a b. not_copy e o j low low' q)
              ∙ same1 (g.reserved_sectors + o) (omega arith) in
            ground (arith, found', same)
      ]

  -- On a device that keeps what is written, and a volume that fits it, `set_fat_entry` of a cluster
  -- of the volume succeeds. Then `fat_entry` of the cluster gives the low 28 bits of the value, and
  -- `fat_entry` of every other cluster what it gave; the volume still fits.
  pub fat_entry-set_fat_entry :
      (v : Volume S) (cluster value : ℕ)
      → Ready dev Valid g v
      → cluster < g.cluster_count + 2
      → (v' : Volume S) × (set_fat_entry dev g v cluster value ≡ (v', ok tt))
        × Ready dev Valid g v'
        × (fat_entry dev g v' cluster ≡ ok (value % 0x1000_0000))
        × ((other : ℕ)
            → other ≢ cluster
            → other < g.cluster_count + 2
            → fat_entry dev g v' other ≡ fat_entry dev g v other)
  unfolding set_fat_entry fat_entry
  fat_entry-set_fat_entry v cluster value r h =
      let e = cluster * 4 / 512 in
      let at = cluster * 4 % 512 in
      let (found, low) = entry_sector-ok (dev.sector_count v.disk) cluster r.fits h in
      let (v1, e1, r1, same1) = invalidate-Ready v r in
      let (v2, e2, c) = set_copies-Copied g.fat_count 0 v1 e at value r1 (omega arith) low in
      let (w, n, old, new) = c.copies 0 (omega arith) (omega (arith, r.fits.tables)) in
      let first : copy e 0 ≡ g.reserved_sectors + e = omega arith in
      let before : read_sector dev v (g.reserved_sectors + e) ≡ ok w =
        sym (same1 (g.reserved_sectors + e) (omega arith))
        ∙ ap (read_sector dev v1) (sym first)
        ∙ old in
      let after : read_sector dev v2 (g.reserved_sectors + e) ≡ ok (new_word w at value) =
        ap (read_sector dev v2) (sym first) ∙ new in
      (
        v2,
        ground (arith, found, e1, e2),
        c.ready,
        ground (arith, found, after, new_word-value w at value (omega (arith, n))),
        λ other z k.
            other_entry v v1 v2 cluster value w other r h k z (omega (arith, n)) same1 c before
              after,
      )
