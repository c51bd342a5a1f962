-- ===== src/Fat32/Word.antt =====
-- A word of a sector in src/fat32.rs: `u32le`, and `copy_from_slice` of its bytes.
use eonos.Prelude.{
  ℕ, ◌+◌, ◌/◌, ◌%◌, ◌^◌, ◌<◌, ◌≤◌, ◌≡◌, ◌⊎◌, inl, inr, List, [], ◌∷◌, arith, refl, ◌∙◌, length,
  get_or, set, get_or-set_self, get_or-set_ne, length-set,
}
use eonos.Prelude.Bytes.{rd}
use eonos.Fat32.{u32le, le_bytes, store}

abbrev four : ℕ → ℕ → ℕ → ℕ → List ℕ
four a b c d = a ∷ b ∷ c ∷ d ∷ []

pub length-store : (s : List ℕ) (at : ℕ) (bs : List ℕ) → length (store s at bs) ≡ length s
length-store s at [] = refl
length-store s at (b ∷ bs) = length-store (set s at b) (at + 1) bs ∙ length-set s at b

store-before :
    (s : List ℕ) (at j : ℕ) (bs : List ℕ) → j < at → get_or (store s at bs) j 0 ≡ get_or s j 0
store-before s at j [] h = refl
store-before s at j (b ∷ bs) h =
    store-before (set s at b) (at + 1) j bs (omega arith)
    ∙ get_or-set_ne s at j b 0 (λ e. absurd (omega arith))

pub store-outside :
    (s : List ℕ) (at j : ℕ) (bs : List ℕ)
    → (j < at) ⊎ (at + length bs ≤ j)
    → get_or (store s at bs) j 0 ≡ get_or s j 0
store-outside s at j bs (inl h) = store-before s at j bs h
store-outside s at j [] (inr h) = refl
store-outside s at j (b ∷ bs) (inr h) =
    store-outside (set s at b) (at + 1) j bs (inr (omega arith))
    ∙ get_or-set_ne s at j b 0 (λ e. absurd (omega arith))

store-first :
    (s : List ℕ) (at b : ℕ) (bs : List ℕ) → at < length s → get_or (store s at (b ∷ bs)) at 0 ≡ b
store-first s at b bs h =
    store-before (set s at b) (at + 1) at bs (omega arith) ∙ get_or-set_self s at b 0 h

-- The word that was stored is read back, without the bits above 32.
pub u32le-store :
    (s : List ℕ) (at x : ℕ) → at + 4 ≤ length s → u32le (store s at (le_bytes x)) at ≡ x % 2 ^ 32
unfolding u32le rd
u32le-store s at x h =
    let s1 = set s at (x % 256) in
    let s2 = set s1 (at + 1) (x / 256 % 256) in
    let s3 = set s2 (at + 1 + 1) (x / 65536 % 256) in
    let n1 = length-set s at (x % 256) in
    let n2 = length-set s1 (at + 1) (x / 256 % 256) in
    let n3 = length-set s2 (at + 1 + 1) (x / 65536 % 256) in
    let a =
      store-first s at (x % 256) (x / 256 % 256 ∷ x / 65536 % 256 ∷ x / 16777216 % 256 ∷ [])
        (omega arith) in
    let b =
      store-first s1 (at + 1) (x / 256 % 256) (x / 65536 % 256 ∷ x / 16777216 % 256 ∷ [])
        (omega (arith, n1)) in
    let c =
      store-first s2 (at + 1 + 1) (x / 65536 % 256) (x / 16777216 % 256 ∷ [])
        (omega (arith, n1, n2)) in
    let d = store-first s3 (at + 1 + 1 + 1) (x / 16777216 % 256) [] (omega (arith, n1, n2, n3)) in
    omega (arith, a, b, c, d)

-- A word that does not overlap the one stored stays.
pub u32le-store_apart :
    (s : List ℕ) (at at' x : ℕ)
    → (at' + 4 ≤ at) ⊎ (at + 4 ≤ at')
    → u32le (store s at (le_bytes x)) at' ≡ u32le s at'
unfolding u32le rd
u32le-store_apart s at at' x h = elim h [
  | inl k ↦ omega (
    arith,
    store-before s at at' (le_bytes x) (omega arith),
    store-before s at (at' + 1) (le_bytes x) (omega arith),
    store-before s at (at' + 1 + 1) (le_bytes x) (omega arith),
    store-before s at (at' + 1 + 1 + 1) (le_bytes x) (omega arith),
  )
  | inr k ↦ omega (
    arith,
    store-outside s at at' (le_bytes x) (inr (omega arith)),
    store-outside s at (at' + 1) (le_bytes x) (inr (omega arith)),
    store-outside s at (at' + 1 + 1) (le_bytes x) (inr (omega arith)),
    store-outside s at (at' + 1 + 1 + 1) (le_bytes x) (inr (omega arith)),
  )
]
