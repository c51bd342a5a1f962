-- ===== src/Vmm/User/Copy.antt =====
-- `copy_from_user` and `copy_to_user` of src/vmm.rs, next to copies of one byte after the other.
use eonos.Prelude.{
  ℕ, zero, suc, ◌+◌, ◌-◌, ◌%◌, ◌≤◌, ◌<◌, ◌≡◌, ◌⊎◌, inl, inr, refl, ap, sym, ◌∙◌, true, false,
  Option, none, some, arith, dec_lt, List, [], ◌∷◌, ◌++◌, length, take, drop, length-drop,
  length-take,
}
use mathlib.Core.List.{append_assoc, append-nil}
use eonos.Vmm.{Mem, page_size}
use eonos.Vmm.User.{
  user_leaf, walk_for, walk_user_write, validate_user_range, read_bytes, put_byte, write_bytes,
  chunk, copy_in, copy_from_user, copy_out, copy_to_user,
}
use eonos.Vmm.User.Range.{AllUser, walk_for-page, validate_user_range-walks}

-- The reference: byte by byte, each through its own walk.
byte_at : Mem → Option ℕ → ℕ
byte_at m none = 0
byte_at m (some phys) = m.bytes phys

unfoldable pub read_user : Mem → ℕ → ℕ → ℕ → List ℕ
unfolding byte_at
read_user m cr3 va zero = []
read_user m cr3 va (suc n) = byte_at m (walk_for false m cr3 va) ∷ read_user m cr3 (va + 1) n

put_at : Mem → Option ℕ → ℕ → Mem
put_at m none b = m
put_at m (some phys) b = put_byte m phys b

unfoldable pub write_user : Mem → ℕ → ℕ → List ℕ → Mem
unfolding put_at
write_user m cr3 va [] = m
write_user m cr3 va (b ∷ bs) = write_user (put_at m (walk_for true m cr3 va) b) cr3 (va + 1) bs

module _ (m : Mem) (cr3 : ℕ) where
  read_user-append :
      (va a b at : ℕ)
      → at ≡ va + a
      → read_user m cr3 va (a + b) ≡ read_user m cr3 va a ++ read_user m cr3 at b
  unfolding read_user
  read_user-append va zero b at e =
      let to : 0 + b ≡ b = omega arith in
      let here : va ≡ at = omega (arith, e) in
      ap (read_user m cr3 va) to ∙ ap (λ x. read_user m cr3 x b) here
  read_user-append va (suc a) b at e =
      let to : suc a + b ≡ suc (a + b) = omega arith in
      ap (read_user m cr3 va) to
      ∙ ap (λ r. byte_at m (walk_for false m cr3 va) ∷ r)
          (read_user-append (va + 1) a b at (omega arith))

  -- Inside a page the bytes stand side by side.
  read_bytes-page :
      (n va phys : ℕ)
      → walk_for false m cr3 va ≡ some phys
      → va % page_size + n ≤ page_size
      → read_bytes m phys n ≡ read_user m cr3 va n
  unfolding read_user byte_at
  read_bytes-page zero va phys w f = refl
  read_bytes-page (suc zero) va phys w f = ground (arith, w)
  read_bytes-page (suc (suc n)) va phys w f =
      let (frame, a, b) = walk_for-page false m cr3 va (va + 1) phys (omega arith) w in
      let next : frame + (va + 1) % page_size ≡ phys + 1 = omega arith in
      ground
        (arith, w, read_bytes-page (suc n) (va + 1) (phys + 1) (b ∙ ap some next) (omega arith))

chunk-bounds :
    (va left : ℕ)
    → 0 < left
    → (0 < chunk va left) × (chunk va left ≤ left) × (va % page_size + chunk va left ≤ page_size)
unfolding chunk
chunk-bounds va left h = (omega arith, omega arith, omega arith)

copy_in-all :
    (fuel : ℕ) (m : Mem) (cr3 va left : ℕ) (dst : List ℕ)
    → left < fuel
    → AllUser false m cr3 va (va + left)
    → copy_in fuel m cr3 va left dst ≡ some (true, dst ++ read_user m cr3 va left)
unfolding copy_in AllUser walk_for read_user
copy_in-all zero m cr3 va left dst f all = absurd (omega arith)
copy_in-all (suc fuel) m cr3 va left dst f all = elim (dec_lt 0 left) [
  | no z ↦
      let none_left : left ≡ 0 = omega arith in
      let empty : dst ++ read_user m cr3 va left ≡ dst =
        ap (λ k. dst ++ read_user m cr3 va k) none_left ∙ append-nil dst in
      rw empty (ground (arith, none_left))
  | yes y ↦
      let n = chunk va left in
      let (a, b, c) = chunk-bounds va left y in
      let (phys, w) = all va (omega arith) (omega arith) in
      let page = read_bytes-page m cr3 n va phys w c in
      let rec =
        copy_in-all fuel m cr3 (va + n) (left - n) (dst ++ read_bytes m phys n) (omega arith)
          (λ at p q. all at (omega arith) (omega arith)) in
      let split : n + (left - n) ≡ left = omega arith in
      let whole : (dst ++ read_bytes m phys n) ++ read_user m cr3 (va + n) (left - n)
          ≡ dst ++ read_user m cr3 va left =
        ap (λ r. (dst ++ r) ++ read_user m cr3 (va + n) (left - n)) page
        ∙ append_assoc dst (read_user m cr3 va n) (read_user m cr3 (va + n) (left - n))
        ∙ ap (λ r. dst ++ r)
            (sym (read_user-append m cr3 va n (left - n) (va + n) refl)
              ∙ ap (read_user m cr3 va) split) in
      ground (arith, y, w, rec, whole)
]

-- `copy_from_user` always returns. It returns true and the bytes of the range, each as a walk of
-- its own address finds it, or it returns false, where the range is not valid, and has copied
-- nothing.
pub copy_from_user-bytes :
    (m : Mem) (cr3 len src : ℕ)
    → ((copy_from_user m cr3 len src ≡ some (true, read_user m cr3 src len))
        × (validate_user_range m cr3 src len false ≡ some true))
      ⊎ ((copy_from_user m cr3 len src ≡ some (false, []))
          × (validate_user_range m cr3 src len false ≡ some false))
unfolding copy_from_user AllUser
copy_from_user-bytes m cr3 len src = elim (validate_user_range-walks m cr3 src len false) [
  | inr (v, y, bad) ↦ inr (ground (arith, v), v)
  | inl (v, ok) ↦
      let all : AllUser false m cr3 src (src + len) = elim ok [
        | inl z ↦ λ at p q. absurd (omega arith)
        | inr (b, a) ↦ a
      ] in
      inl (ground (arith, v, copy_in-all (suc len) m cr3 src len [] (omega arith) all), v)
]

-- The copies change no table, so no walk.
put_byte-walk :
    (m : Mem) (cr3 va phys b : ℕ)
    → walk_for true (put_byte m phys b) cr3 va ≡ walk_for true m cr3 va
unfolding walk_for walk_user_write user_leaf
put_byte-walk m cr3 va phys b = refl

write_bytes-walk :
    (bs : List ℕ) (m : Mem) (cr3 va phys : ℕ)
    → walk_for true (write_bytes m phys bs) cr3 va ≡ walk_for true m cr3 va
write_bytes-walk [] m cr3 va phys = refl
write_bytes-walk (b ∷ bs) m cr3 va phys =
    write_bytes-walk bs (put_byte m phys b) cr3 va (phys + 1) ∙ put_byte-walk m cr3 va phys b

write_user-append :
    (xs bs : List ℕ) (m : Mem) (cr3 va at : ℕ)
    → at ≡ va + length xs
    → write_user m cr3 va (xs ++ bs) ≡ write_user (write_user m cr3 va xs) cr3 at bs
unfolding write_user
write_user-append [] bs m cr3 va at e =
    let here : va ≡ at = omega (arith, e) in ap (λ x. write_user m cr3 x bs) here
write_user-append (a ∷ xs) bs m cr3 va at e =
    write_user-append xs bs (put_at m (walk_for true m cr3 va) a) cr3 (va + 1) at (omega (arith, e))

write_bytes-page :
    (bs : List ℕ) (m : Mem) (cr3 va phys : ℕ)
    → walk_for true m cr3 va ≡ some phys
    → va % page_size + length bs ≤ page_size
    → write_bytes m phys bs ≡ write_user m cr3 va bs
unfolding write_user put_at
write_bytes-page [] m cr3 va phys w f = refl
write_bytes-page (b ∷ []) m cr3 va phys w f = ap (λ o. put_at m o b) (sym w)
write_bytes-page (b ∷ c ∷ bs) m cr3 va phys w f =
    let (frame, a, k) = walk_for-page true m cr3 va (va + 1) phys (omega arith) w in
    let next : frame + (va + 1) % page_size ≡ phys + 1 = omega arith in
    write_bytes-page (c ∷ bs) (put_byte m phys b) cr3 (va + 1) (phys + 1)
      (put_byte-walk m cr3 (va + 1) phys b ∙ k ∙ ap some next) (omega arith)
    ∙ ap (λ o. write_user (put_at m o b) cr3 (va + 1) (c ∷ bs)) (sym w)

take-drop : (n : ℕ) (xs : List ℕ) → take n xs ++ drop n xs ≡ xs
take-drop zero xs = refl
take-drop (suc n) [] = refl
take-drop (suc n) (x ∷ xs) = ap (λ r. x ∷ r) (take-drop n xs)

copy_out-all :
    (fuel : ℕ) (m : Mem) (cr3 va : ℕ) (src : List ℕ)
    → length src < fuel
    → AllUser true m cr3 va (va + length src)
    → copy_out fuel m cr3 va src ≡ some (true, write_user m cr3 va src)
unfolding copy_out AllUser walk_for write_user
copy_out-all zero m cr3 va src f all = absurd (omega arith)
copy_out-all (suc fuel) m cr3 va [] f all = refl
copy_out-all (suc fuel) m cr3 va (b ∷ bs) f all =
    let src = b ∷ bs in
    let n = chunk va (length src) in
    let (p, q, c) = chunk-bounds va (length src) (omega arith) in
    let (phys, w) = all va (omega arith) (omega arith) in
    let taken : length (take n src) ≡ n = length-take n src ∙ omega arith in
    let left : length (drop n src) ≡ length src - n = length-drop n src in
    let page = write_bytes-page (take n src) m cr3 va phys w (omega arith) in
    let m1 = write_bytes m phys (take n src) in
    let rec = copy_out-all fuel m1 cr3 (va + n) (drop n src) (omega arith) (λ at h k.
      let (phys', w') = all at (omega arith) (omega arith) in
      (phys', write_bytes-walk (take n src) m cr3 at phys ∙ w')) in
    let whole : write_user m1 cr3 (va + n) (drop n src) ≡ write_user m cr3 va src =
      ap (λ x. write_user x cr3 (va + n) (drop n src)) page
      ∙ sym (write_user-append (take n src) (drop n src) m cr3 va (va + n) (omega arith))
      ∙ ap (write_user m cr3 va) (take-drop n src) in
    ground (arith, w, rec, whole)

-- `copy_to_user` always returns. It returns true and has written the bytes to the range, each where
-- a walk of its own address leads, or it returns false, where the range is not valid for writing,
-- and has changed no memory.
pub copy_to_user-bytes :
    (m : Mem) (cr3 dst : ℕ) (src : List ℕ)
    → ((copy_to_user m cr3 dst src ≡ some (true, write_user m cr3 dst src))
        × (validate_user_range m cr3 dst (length src) true ≡ some true))
      ⊎ ((copy_to_user m cr3 dst src ≡ some (false, m))
          × (validate_user_range m cr3 dst (length src) true ≡ some false))
unfolding copy_to_user AllUser
copy_to_user-bytes m cr3 dst src = elim (validate_user_range-walks m cr3 dst (length src) true) [
  | inr (v, y, bad) ↦ inr (ground (arith, v), v)
  | inl (v, ok) ↦
      let all : AllUser true m cr3 dst (dst + length src) = elim ok [
        | inl z ↦ λ at p q. absurd (omega arith)
        | inr (b, a) ↦ a
      ] in
      inl (ground (arith, v, copy_out-all (suc (length src)) m cr3 dst src (omega arith) all), v)
]
