-- ===== src/Prelude/Vec.antt =====
-- Operations of Rust's `Vec` and iterators: `swap_remove`, `position`, `any`, and counting.
use eonos.Prelude.{
  ℕ, zero, suc, ◌+◌, ◌<◌, ◌≡◌, refl, subst, Bool, true, false, ◌||◌, Option, none, some, List, [],
  ◌∷◌, ◌++◌, inl, inr, arith, if◌then◌else◌, Bool-cases, Option-cases, length, get_elem?,
}

module _ {ℓ} {A : Type ℓ} where
  -- How many elements pass the test.
  unfoldable pub count_by : (A → Bool) → List A → ℕ
  count_by q [] = 0
  count_by q (x ∷ xs) = (if q x then 1 else 0) + count_by q xs

  -- The last element moves to the front; with `swap_remove` it fills the gap.
  unfoldable pub last_first : List A → List A
  last_first [] = []
  last_first (x ∷ []) = x ∷ []
  last_first (x ∷ y ∷ ys) = elim (last_first (y ∷ ys)) [ [] ↦ x ∷ [] | l ∷ rest ↦ l ∷ x ∷ rest ]

  -- The element at `i`, and the list with the last element in its place; `none` out of range.
  unfoldable pub swap_remove : List A → ℕ → Option (A × List A)
  unfolding last_first
  swap_remove [] i = none
  swap_remove (x ∷ xs) zero = some (x, last_first xs)
  swap_remove (x ∷ xs) (suc i) = elim (swap_remove xs i) [
    | none ↦ none
    | some (e, rest) ↦ some (e, x ∷ rest)
  ]

  unfoldable pub position : (A → Bool) → List A → Option ℕ
  position q [] = none
  position q (x ∷ xs) =
      let later : Option ℕ = elim (position q xs) [ none ↦ none | some i ↦ some (suc i) ] in
      if q x then some 0 else later

  unfoldable pub any : (A → Bool) → List A → Bool
  any q [] = false
  any q (x ∷ xs) = q x || any q xs

  pub count_by-append :
      (q : A → Bool) (xs ys : List A) → count_by q (xs ++ ys) ≡ count_by q xs + count_by q ys
  unfolding count_by
  count_by-append q [] ys = omega arith
  count_by-append q (x ∷ xs) ys = omega (arith, count_by-append q xs ys)

  pub count_by-last_first :
      (q : A → Bool) (xs : List A) → count_by q (last_first xs) ≡ count_by q xs
  unfolding count_by last_first
  count_by-last_first q [] = refl
  count_by-last_first q (x ∷ []) = refl
  count_by-last_first q (x ∷ y ∷ ys) = ground (arith, count_by-last_first q (y ∷ ys))

  pub count_by-swap_remove :
      (q : A → Bool) (xs : List A) (i : ℕ) (e : A) (rest : List A)
      → swap_remove xs i ≡ some (e, rest)
      → count_by q xs ≡ (if q e then 1 else 0) + count_by q rest
  unfolding count_by swap_remove
  count_by-swap_remove q [] i e rest h = absurd (cc)
  count_by-swap_remove q (x ∷ xs) zero e rest h = ground (arith, count_by-last_first q xs)
  count_by-swap_remove q (x ∷ xs) (suc i) e rest h = elim (Option-cases (swap_remove xs i)) [
    | inl n ↦ absurd (ground arith)
    | inr ((e', rest'), s) ↦ ground (arith, count_by-swap_remove q xs i e' rest' s)
  ]

  pub length-last_first : (xs : List A) → length (last_first xs) ≡ length xs
  unfolding last_first
  length-last_first [] = refl
  length-last_first (x ∷ []) = refl
  length-last_first (x ∷ y ∷ ys) = ground (arith, length-last_first (y ∷ ys))

  pub swap_remove-some :
      (xs : List A) (i : ℕ)
      → i < length xs
      → (e : A) × (rest : List A) × (swap_remove xs i ≡ some (e, rest))
        × (get_elem? xs i ≡ some e)
        × (length xs ≡ suc (length rest))
  unfolding swap_remove
  swap_remove-some [] i h = absurd (omega arith)
  swap_remove-some (x ∷ xs) zero h =
      (x, last_first xs, refl, refl, omega (arith, length-last_first xs))
  swap_remove-some (x ∷ xs) (suc i) h =
      let (e, rest, s, g, n) = swap_remove-some xs i (omega arith) in
      (e, x ∷ rest, rw s, g, omega (arith, n))

  pub position-some :
      (q : A → Bool) (xs : List A) (i : ℕ)
      → position q xs ≡ some i
      → (i < length xs) × (e : A) × (get_elem? xs i ≡ some e) × (q e ≡ true)
  unfolding position
  position-some q [] i h = absurd (cc)
  position-some q (x ∷ xs) i h = elim (Bool-cases (q x)) [
    | inl e ↦
        let at : 0 ≡ i = ground arith in
        subst
          (λ k. (k < length (x ∷ xs)) × (e : A) × (get_elem? (x ∷ xs) k ≡ some e) × (q e ≡ true)) at
          (omega arith, x, refl, e)
    | inr e ↦ elim (Option-cases (position q xs)) [
      | inl n ↦ absurd (ground arith)
      | inr (k, s) ↦
          let (lt, y, g, t) = position-some q xs k s in
          let at : suc k ≡ i = ground arith in
          subst
            (λ k. (k < length (x ∷ xs)) × (e : A) × (get_elem? (x ∷ xs) k ≡ some e) × (q e ≡ true))
            at (omega arith, y, g, t)
    ]
  ]

  pub position-none : (q : A → Bool) (xs : List A) → position q xs ≡ none → count_by q xs ≡ 0
  unfolding position count_by
  position-none q [] h = refl
  position-none q (x ∷ xs) h = ground (arith, position-none q xs)
