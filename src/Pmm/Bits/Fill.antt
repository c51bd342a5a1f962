-- ===== src/Pmm/Bits/Fill.antt =====
-- `fill_range` of src/pmm.rs against its plain description, bit by bit.
use eonos.Prelude.{
  ℕ, zero, suc, subst, ◌⊎◌, ◌+◌, ◌-◌, ◌*◌, ◌/◌, ◌%◌, ◌≤◌, ◌<◌, [], Bool, true, false, ◌&&◌, get_or,
  set, length, ◌≡◌, refl, inl, inr, if◌then◌else◌, leb, ltb, ◌==◌, arith, length-set,
  get_or-set_self, get_or-set_ne, get_or-replicate, All-set, All-get_or, Bool-cases, ℕ_discrete,
  ◌∙◌,
}
use eonos.Pmm.Bits.{
  Word, Bitmap, full_word, zero_word, test_bit, write_bit, fill_head, fill_words, fill_tail,
  fill_range, IsWords,
}

-- The bits of `f` with those of `[lo, lo + n)` replaced by `v`.
abbrev pub filled : ℕ → ℕ → Bool → (ℕ → Bool) → ℕ → Bool
filled lo n v f j = if leb lo j && ltb j (lo + n) then v else f j

pub write_word : Bool → Word
write_word used = if used then full_word else zero_word

module _ (bm : Bitmap) (i : ℕ) (v : Bool) where
  unfoldable pub put : Bitmap
  put = set bm (i / 64) (set (get_or bm (i / 64) []) (i % 64) v)

pub write_bit-put : (bm : Bitmap) (i : ℕ) (v : Bool) → write_bit v bm i ≡ put bm i v
unfolding put write_bit
write_bit-put bm i true = refl
write_bit-put bm i false = refl

pub put-IsWords :
    (bm : Bitmap) (i : ℕ) (v : Bool) → IsWords bm → i < 64 * length bm → IsWords (put bm i v)
unfolding put
put-IsWords bm i v w h =
    All-set (λ x. length x ≡ 64) bm (i / 64) _ w
      (length-set (get_or bm (i / 64) []) (i % 64) v
        ∙ All-get_or (λ x. length x ≡ 64) bm (i / 64) [] w (omega arith))

pub length-put : (bm : Bitmap) (i : ℕ) (v : Bool) → length (put bm i v) ≡ length bm
unfolding put
length-put bm i v = length-set bm (i / 64) _

-- One bit written, every other one kept.
pub test_bit-put :
    (bm : Bitmap) (i j : ℕ) (v : Bool)
    → IsWords bm
    → i < 64 * length bm
    → test_bit (put bm i v) j ≡ (if i == j then v else test_bit bm j)
unfolding put test_bit
test_bit-put bm i j v w h = elim (ℕ_discrete (i / 64) (j / 64)) [
  | yes p ↦ elim (ℕ_discrete (i % 64) (j % 64)) [
    | yes q ↦ ground (
      arith,
      get_or-set_self bm (i / 64) (set (get_or bm (i / 64) []) (i % 64) v) [],
      get_or-set_self (get_or bm (i / 64) []) (i % 64) v true,
      All-get_or (λ (x : Word). length x ≡ 64) bm (i / 64) [] w,
    )
    | no q ↦ ground (
      arith,
      get_or-set_self bm (i / 64) (set (get_or bm (i / 64) []) (i % 64) v) [],
      get_or-set_ne (get_or bm (i / 64) []) (i % 64) (j % 64) v true q,
    )
  ]
  | no p ↦
      ground
        (arith, get_or-set_ne bm (i / 64) (j / 64) (set (get_or bm (i / 64) []) (i % 64) v) [] p)
]

pub length-write_word : (v : Bool) → length (write_word v) ≡ 64
unfolding write_word
length-write_word true = refl
length-write_word false = refl

get_or-write_word : (v : Bool) (k : ℕ) → k < 64 → get_or (write_word v) k true ≡ v
unfolding write_word
get_or-write_word true k h = get_or-replicate 64 k true true h
get_or-write_word false k h = get_or-replicate 64 k false true h

-- What a loop did that wrote `v` to the `n` bits from `lo` on.
pub record Fills (bm : Bitmap) (lo n : ℕ) (v : Bool) (out : Bitmap) : Type 0 where
  pub words : IsWords out
  pub same_length : length out ≡ length bm
  pub bits : (j : ℕ) → test_bit out j ≡ filled lo n v (test_bit bm) j

Fills-none : (bm : Bitmap) (lo : ℕ) (v : Bool) → IsWords bm → Fills bm lo 0 v bm
Fills-none bm lo v w = record { words = w; same_length = refl; bits = λ j. ground arith }

pub Fills-put :
    (bm : Bitmap) (i : ℕ) (v : Bool) → IsWords bm → i < 64 * length bm → Fills bm i 1 v (put bm i v)
Fills-put bm i v w h = record {
  words = put-IsWords bm i v w h;
  same_length = length-put bm i v;
  bits = λ j. ground (arith, test_bit-put bm i j v w h);
}

Fills-word :
    (bm : Bitmap) (lo : ℕ) (v : Bool)
    → IsWords bm
    → lo % 64 ≡ 0
    → lo < 64 * length bm
    → Fills bm lo 64 v (set bm (lo / 64) (write_word v))
unfolding test_bit
Fills-word bm lo v w a h = record {
  words = All-set (λ x. length x ≡ 64) bm (lo / 64) _ w (length-write_word v);
  same_length = length-set bm (lo / 64) (write_word v);
  bits = λ j. elim (ℕ_discrete (lo / 64) (j / 64)) [
    | yes p ↦
        ground (arith, get_or-set_self bm (lo / 64) (write_word v) [], get_or-write_word v (j % 64))
    | no p ↦ ground (arith, get_or-set_ne bm (lo / 64) (j / 64) (write_word v) [] p)
  ];
}

Fills-then :
    (bm bm1 bm2 : Bitmap) (lo n m : ℕ) (v : Bool)
    → Fills bm lo n v bm1
    → Fills bm1 (lo + n) m v bm2
    → Fills bm lo (n + m) v bm2
Fills-then bm bm1 bm2 lo n m v f g = record {
  words = g.words;
  same_length = g.same_length ∙ f.same_length;
  bits = λ j. ground (arith, f.bits j, g.bits j);
}

-- A loop that went on for `k` bits, and where it left `first` and `count`.
record Ran (bm : Bitmap) (first count : ℕ) (v : Bool) (out : Bitmap × ℕ × ℕ) : Type 0 where
  k : ℕ
  at_first : out.1 ≡ first + k
  at_count : count ≡ k + out.2
  fills : Fills bm first k v out.0

Ran-stop :
    (bm : Bitmap) (first count : ℕ) (v : Bool)
    → IsWords bm
    → Ran bm first count v (bm, first, count)
Ran-stop bm first count v w = record {
  k = 0;
  at_first = omega arith;
  at_count = omega arith;
  fills = Fills-none bm first v w;
}

Ran-next :
    (bm bm1 : Bitmap) (first n count : ℕ) (v : Bool) (out : Bitmap × ℕ × ℕ)
    → Fills bm first n v bm1
    → Ran bm1 (first + n) count v out
    → Ran bm first (n + count) v out
Ran-next bm bm1 first n count v out f r = record {
  k = n + r.k;
  at_first = omega (arith, r.at_first);
  at_count = omega (arith, r.at_count);
  fills = Fills-then bm bm1 out.0 first n r.k v f r.fills;
}

fill_head-Ran :
    (v : Bool) (bm : Bitmap) (first count : ℕ)
    → IsWords bm
    → first + count ≤ 64 * length bm
    → Ran bm first count v (fill_head v bm first count)
unfolding fill_head
fill_head-Ran v bm first zero w h = Ran-stop bm first 0 v w
fill_head-Ran v bm first (suc count) w h = elim (Bool-cases (first % 64 == 0)) [
  | inl e ↦ rw e (Ran-stop bm first (suc count) v w)
  | inr e ↦
      rw (e, write_bit-put bm first v)
        (let f = Fills-put bm first v w (omega arith) in
          let step =
            Ran-next bm (put bm first v) first 1 count v
              (fill_head v (put bm first v) (first + 1) count) f
              (fill_head-Ran v (put bm first v) (first + 1) count f.words
                (omega (arith, f.same_length))) in
          subst (λ c. Ran bm first c v (fill_head v (put bm first v) (first + 1) count))
            (omega arith) step)
]

fill_head-aligned :
    (v : Bool) (bm : Bitmap) (first count : ℕ)
    → let out = fill_head v bm first count in (out.2 ≡ 0) ⊎ (out.1 % 64 ≡ 0)
unfolding fill_head
fill_head-aligned v bm first zero = inl refl
fill_head-aligned v bm first (suc count) =
    ground (arith, fill_head-aligned v (write_bit v bm first) (first + 1) count)

fill_words-Ran :
    (fuel : ℕ) (v : Bool) (bm : Bitmap) (first count : ℕ)
    → IsWords bm
    → (count ≡ 0) ⊎ (first % 64 ≡ 0)
    → first + count ≤ 64 * length bm
    → Ran bm first count v (fill_words fuel v bm first count)
unfolding fill_words write_word
fill_words-Ran zero v bm first count w a h = Ran-stop bm first count v w
fill_words-Ran (suc fuel) v bm first count w a h = elim (Bool-cases (leb 64 count)) [
  | inr e ↦ rw e (Ran-stop bm first count v w)
  | inl e ↦ rw e (
      let f = Fills-word bm first v w (ground arith) (ground arith) in
      let next = set bm (first / 64) (write_word v) in
      let out = fill_words fuel v next (first + 64) (count - 64) in
      let step = Ran-next bm next first 64 (count - 64) v out f (
        fill_words-Ran fuel v next (first + 64) (count - 64) f.words (ground arith)
          (ground (arith, f.same_length))) in
      subst (λ c. Ran bm first c v out) (ground arith) step)
]

fill_tail-Fills :
    (v : Bool) (bm : Bitmap) (first count : ℕ)
    → IsWords bm
    → first + count ≤ 64 * length bm
    → Fills bm first count v (fill_tail v bm first count)
unfolding fill_tail
fill_tail-Fills v bm first zero w h = Fills-none bm first v w
fill_tail-Fills v bm first (suc count) w h = rw (write_bit-put bm first v) (
    let f = Fills-put bm first v w (omega arith) in
    let next = put bm first v in
    let step =
      Fills-then bm next (fill_tail v next (first + 1) count) first 1 count v f
        (fill_tail-Fills v next (first + 1) count f.words (omega (arith, f.same_length))) in
    subst (λ c. Fills bm first c v (fill_tail v next (first + 1) count)) (omega arith) step)

-- In a bitmap whose words have 64 bits, `fill_range` on a range inside it keeps the words and their
-- number, gives every bit of the range the value `used`, and leaves every other bit as it was.
pub fill_range-Fills :
    (bm : Bitmap) (first count : ℕ) (used : Bool)
    → IsWords bm
    → first + count ≤ 64 * length bm
    → Fills bm first count used (fill_range bm first count used)
unfolding fill_range
fill_range-Fills bm first count used w h =
    let (bm1, first1, count1) = fill_head used bm first count in
    let a = fill_head-Ran used bm first count w h in
    let (bm2, first2, count2) = fill_words count1 used bm1 first1 count1 in
    let b =
      fill_words-Ran count1 used bm1 first1 count1 a.fills.words
        (fill_head-aligned used bm first count)
        (omega (arith, a.at_first, a.at_count, a.fills.same_length)) in
    let c = fill_tail-Fills used bm2 first2 count2 b.fills.words (
      omega (
        arith, a.at_first, a.at_count, b.at_first, b.at_count, a.fills.same_length,
        b.fills.same_length,
      )) in
    let ab =
      Fills-then bm bm1 bm2 first a.k b.k used a.fills
        (subst (λ f. Fills bm1 f b.k used bm2) a.at_first b.fills) in
    let out = fill_tail used bm2 first2 count2 in
    let abc =
      Fills-then bm bm2 out first (a.k + b.k) count2 used ab
        (subst (λ f. Fills bm2 f count2 used out) (omega (arith, a.at_first, b.at_first)) c) in
    subst (λ n. Fills bm first n used out) (omega (arith, a.at_count, b.at_count)) abc
