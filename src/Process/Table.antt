-- ===== src/Process/Table.antt =====
-- The process table of src/process.rs: who can collect an exit status, and how often.
use eonos.Prelude.{
  ℕ, zero, suc, ◌≤◌, ◌≡◌, refl, subst, List, [], ◌∷◌, ◌++◌, Bool, true, false, ◌&&◌, none, some,
  ◌==◌, length, get_elem?, arith, Bool-cases, Option-cases, inl, inr,
}
use eonos.Prelude.Vec.{
  count_by, position, swap_remove, count_by-swap_remove, swap_remove-some, position-some,
  position-none,
}
use eonos.Process.{Record, modify, exit_current, is_some, take_exit_status}

abbrev pub has_pid : ℕ → Record → Bool
has_pid pid r = r.pid == pid

-- No pid occurs twice.
abbrev pub Unique : List Record → Type 0
Unique procs = (pid : ℕ) → count_by (has_pid pid) procs ≤ 1

pub count_by-modify_same :
    (q : Record → Bool) (procs : List Record) (i : ℕ) (f : Record → Record)
    → ((r : Record) → q (f r) ≡ q r)
    → count_by q (modify procs i f) ≡ count_by q procs
unfolding modify count_by
count_by-modify_same q [] i f h = refl
count_by-modify_same q (r ∷ rs) zero f h = ground (arith, h r)
count_by-modify_same q (r ∷ rs) (suc i) f h = ground (arith, count_by-modify_same q rs i f h)

pub count_by-pick :
    (q : Record → Bool) (procs : List Record) (i : ℕ) (r : Record)
    → get_elem? procs i ≡ some r
    → q r ≡ true
    → 1 ≤ count_by q procs
unfolding count_by
count_by-pick q [] i r h e = absurd (cc)
count_by-pick q (x ∷ xs) zero r h e = ground arith
count_by-pick q (x ∷ xs) (suc i) r h e = omega (arith, count_by-pick q xs i r h e)

-- The record that `position` finds and `swap_remove` then takes out.
pub record Found (q : Record → Bool) (procs : List Record) (i : ℕ) : Type 0 where
  pub r : Record
  pub rest : List Record
  pub removed : swap_remove procs i ≡ some (r, rest)
  pub passes : q r ≡ true

pub position-Found :
    (q : Record → Bool) (procs : List Record) (i : ℕ) → position q procs ≡ some i → Found q procs i
position-Found q procs i h =
    let (lt, r, g, t) = position-some q procs i h in
    let (r', rest, s, g', n) = swap_remove-some procs i lt in
    let same : r ≡ r' = ground arith in
    record { r = r'; rest = rest; removed = s; passes = subst (λ x. q x ≡ true) same t }

abbrev exited : ℕ → Record → Bool
exited pid r = r.pid == pid && is_some r.status

swap_remove-modify :
    (procs : List Record) (i : ℕ) (f : Record → Record) (r : Record) (rest : List Record)
    → swap_remove procs i ≡ some (r, rest)
    → swap_remove (modify procs i f) i ≡ some (f r, rest)
unfolding swap_remove modify
swap_remove-modify [] i f r rest h = absurd (cc)
swap_remove-modify (x ∷ xs) zero f r rest h = ground arith
swap_remove-modify (x ∷ xs) (suc i) f r rest h = elim (Option-cases (swap_remove xs i)) [
  | inl n ↦ absurd (ground arith)
  | inr ((r', rest'), s) ↦ ground (arith, swap_remove-modify xs i f r' rest' s)
]

position-modify :
    (pid code : ℕ) (procs : List Record) (i : ℕ)
    → position (λ r. r.pid == pid) procs ≡ some i
    → position (exited pid) (modify procs i (λ r. record r { status = some code })) ≡ some i
unfolding position modify is_some
position-modify pid code [] i h = absurd (cc)
position-modify pid code (x ∷ xs) i h = elim (Bool-cases (x.pid == pid)) [
  | inl e ↦
      let at : 0 ≡ i = ground arith in
      subst
        (λ j.
          position (exited pid) (modify (x ∷ xs) j (λ r. record r { status = some code })) ≡ some j)
        at (ground arith)
  | inr e ↦ elim (Option-cases (position (λ r. r.pid == pid) xs)) [
    | inl n ↦ absurd (ground arith)
    | inr (j, s) ↦
        let at : suc j ≡ i = ground arith in
        subst
          (λ k.
            position (exited pid) (modify (x ∷ xs) k (λ r. record r { status = some code }))
            ≡ some k)
          at (ground (arith, position-modify pid code xs j s))
  ]
]

position-new :
    (pid : ℕ) (procs : List Record) (x : Record)
    → position (λ r. r.pid == pid) procs ≡ none
    → exited pid x ≡ true
    → position (exited pid) (procs ++ (x ∷ [])) ≡ some (length procs)
unfolding position
position-new pid [] x h e = rw e refl
position-new pid (y ∷ ys) x h e = ground (arith, position-new pid ys x, e)

swap_remove-new :
    (procs : List Record) (x : Record)
    → swap_remove (procs ++ (x ∷ [])) (length procs) ≡ some (x, procs)
unfolding swap_remove
swap_remove-new [] x = refl
swap_remove-new (y ∷ ys) x = rw (swap_remove-new ys x) refl

position-gone :
    (pid : ℕ) (procs : List Record)
    → count_by (has_pid pid) procs ≡ 0
    → position (exited pid) procs ≡ none
position-gone pid procs z = elim (Option-cases (position (exited pid) procs)) [
  | inl n ↦ n
  | inr (i, s) ↦
      let (lt, r, g, t) = position-some (exited pid) procs i s in
      absurd (omega (arith, z, count_by-pick (has_pid pid) procs i r g (ground (arith, t))))
]

take_exit_status-from :
    (pid : ℕ) (procs : List Record) (i : ℕ) (r : Record) (rest : List Record)
    → position (exited pid) procs ≡ some i
    → swap_remove procs i ≡ some (r, rest)
    → take_exit_status pid procs ≡ (r.status, rest)
unfolding take_exit_status
take_exit_status-from pid procs i r rest p s = rw (p, take_exit_status, s) refl

take_exit_status-gone :
    (pid : ℕ) (procs : List Record)
    → count_by (has_pid pid) procs ≡ 0
    → take_exit_status pid procs ≡ (none, procs)
unfolding take_exit_status
take_exit_status-gone pid procs z = rw (position-gone pid procs z, take_exit_status) refl

-- What is left when the one record of `pid` has been taken.
pub record Forgotten (pid : ℕ) (procs rest : List Record) : Type 0 where
  pub gone : count_by (has_pid pid) rest ≡ 0
  pub others :
      (q : Record → Bool)
      → ((r : Record) → r.pid ≡ pid → q r ≡ false)
      → count_by q rest ≡ count_by q procs
  pub again : take_exit_status pid rest ≡ (none, rest)

removed-Forgotten :
    (pid : ℕ) (procs rest : List Record) (i : ℕ) (r : Record)
    → Unique procs
    → swap_remove procs i ≡ some (r, rest)
    → (r.pid == pid) ≡ true
    → Forgotten pid procs rest
removed-Forgotten pid procs rest i r u s e =
    let gone : count_by (has_pid pid) rest ≡ 0 =
      ground (arith, count_by-swap_remove (has_pid pid) procs i r rest s, u pid, e) in
    record {
      gone = gone;
      others =
          λ q h. ground (arith, count_by-swap_remove q procs i r rest s, h r (ground (arith, e)));
      again = take_exit_status-gone pid rest gone;
    }

-- An exit status is delivered exactly once: in a table where no pid occurs twice,
-- `take_exit_status` after `exit_current` returns the code that was exited with, whether the process
-- was registered or not; then the pid is forgotten, a second call finds nothing, and every other
-- record is still there as often as before.
pub take_exit_status-exit_current :
    (pid code : ℕ) (procs : List Record)
    → Unique procs
    → (rest : List Record) × (take_exit_status pid (exit_current pid code procs)
        ≡ (some code, rest))
      × Forgotten pid procs rest
unfolding exit_current
take_exit_status-exit_current pid code procs u =
    elim (Option-cases (position (λ r. r.pid == pid) procs)) [
      | inl n ↦
          let x : Record = record { pid = pid; parent = 0; name = []; status = some code } in
          (
            procs,
            rw (n, exit_current)
                (take_exit_status-from pid (procs ++ (x ∷ [])) (length procs) x procs
                  (position-new pid procs x n (unfold is_some in ground arith))
                  (swap_remove-new procs x)),
            record {
              gone = position-none (has_pid pid) procs n;
              others = λ q h. refl;
              again = take_exit_status-gone pid procs (position-none (has_pid pid) procs n);
            },
          )
      | inr (i, s) ↦
          let f = position-Found (λ r. r.pid == pid) procs i s in
          (
            f.rest,
            rw (s, exit_current)
                (take_exit_status-from pid (modify procs i (λ r. record r { status = some code })) i
                  (record (f.r) { status = some code }) f.rest (position-modify pid code procs i s)
                  (swap_remove-modify procs i (λ r. record r { status = some code }) f.r f.rest
                    f.removed)),
            removed-Forgotten pid procs f.rest i f.r u f.removed f.passes,
          )
    ]
