-- ===== src/Process/Reap.antt =====
-- `take_child_exit_status` of src/process.rs, and the table that its operations keep.
use eonos.Prelude.{
  ℕ, ◌+◌, ◌≤◌, ◌≡◌, refl, subst, List, [], ◌∷◌, ◌++◌, Bool, true, false, ◌&&◌, Option, none, some,
  if◌then◌else◌, ◌==◌, arith, Bool-cases, Option-cases, inl, inr,
}
use eonos.Prelude.Vec.{
  count_by, position, any, count_by-append, count_by-swap_remove, position-none,
}
use eonos.Process.{
  Record, register, exit_current, is_some, take_exit_status, Reaped, no_child, pending, reaped,
  is_child, take_child_exit_status,
}
use eonos.Process.Table.{has_pid, Unique, position-Found, count_by-modify_same}

abbrev pub is_dead_child : ℕ → ℕ → Record → Bool
is_dead_child parent pid r = is_child parent pid r && is_some r.status

-- What a call of `take_child_exit_status` may return, with the table it leaves.
pub data Outcome (parent pid : ℕ) (procs : List Record) : Reaped → List Record → Type 0 where
  childless : count_by (is_child parent pid) procs ≡ 0 → Outcome parent pid procs no_child procs
  waiting :
      1 ≤ count_by (is_child parent pid) procs
      → count_by (is_dead_child parent pid) procs ≡ 0
      → Outcome parent pid procs pending procs
  collected :
      (r : Record) (status : ℕ) (rest : List Record)
      → is_child parent pid r ≡ true
      → r.status ≡ some status
      → ((q : Record → Bool) → count_by q procs ≡ (if q r then 1 else 0) + count_by q rest)
      → Outcome parent pid procs (reaped r.pid status) rest

any-count_by : (q : Record → Bool) (l : List Record) → any q l ≡ false → count_by q l ≡ 0
unfolding any count_by
any-count_by q [] h = refl
any-count_by q (x ∷ xs) h = ground (arith, any-count_by q xs)

any-true : (q : Record → Bool) (l : List Record) → any q l ≡ true → 1 ≤ count_by q l
unfolding any count_by
any-true q [] h = absurd (cc)
any-true q (x ∷ xs) h = ground (arith, any-true q xs)

is_some-true : (o : Option ℕ) → is_some o ≡ true → (n : ℕ) × (o ≡ some n)
unfolding is_some
is_some-true none h = absurd (cc)
is_some-true (some n) h = (n, refl)

pub take_child_exit_status-Outcome :
    (parent pid : ℕ) (procs : List Record)
    → (out : Reaped) × (rest : List Record) × (take_child_exit_status parent pid procs
        ≡ some (out, rest))
      × Outcome parent pid procs out rest
unfolding take_child_exit_status
take_child_exit_status-Outcome parent pid procs =
    elim (Bool-cases (any (is_child parent pid) procs)) [
      | inr b ↦ (
        no_child,
        procs,
        rw (b, take_child_exit_status) refl,
        childless (any-count_by (is_child parent pid) procs b),
      )
      | inl b ↦ elim (Option-cases (position (is_dead_child parent pid) procs)) [
        | inl n ↦ (
          pending,
          procs,
          rw (b, take_child_exit_status, n) refl,
          waiting (any-true (is_child parent pid) procs b)
              (position-none (is_dead_child parent pid) procs n),
        )
        | inr (i, s) ↦
            let f = position-Found (is_dead_child parent pid) procs i s in
            let (status, e) = is_some-true f.r.status (ground (arith, f.passes)) in
            (
              reaped f.r.pid status,
              f.rest,
              rw (b, take_child_exit_status, s, f.removed, e) refl,
              collected f.r status f.rest (ground (arith, f.passes)) e
                  (λ q. count_by-swap_remove q procs i f.r f.rest f.removed),
            )
      ]
    ]

Unique-fewer :
    (procs rest : List Record)
    → ((pid : ℕ) → count_by (has_pid pid) rest ≤ count_by (has_pid pid) procs)
    → Unique procs
    → Unique rest
Unique-fewer procs rest h u pid = omega (arith, h pid, u pid)

Unique-new :
    (procs : List Record) (r : Record)
    → count_by (has_pid r.pid) procs ≡ 0
    → Unique procs
    → Unique (procs ++ (r ∷ []))
unfolding count_by
Unique-new procs r z u pid = elim (Bool-cases (r.pid == pid)) [
  | inl e ↦
      let same : r.pid ≡ pid = ground (arith, e) in
      let z' : count_by (has_pid pid) procs ≡ 0 =
        subst (λ p. count_by (has_pid p) procs ≡ 0) same z in
      ground (arith, count_by-append (has_pid pid) procs (r ∷ []), z')
  | inr e ↦ ground (arith, count_by-append (has_pid pid) procs (r ∷ []), u pid, e)
]

pub register-Unique :
    (pid parent : ℕ) (name : List ℕ) (procs : List Record)
    → Unique procs
    → Unique (register pid parent name procs)
unfolding register
register-Unique pid parent name procs u = elim (Option-cases (position (λ r. r.pid == pid) procs)) [
  | inl n ↦
      rw (n, register)
        (Unique-new procs (record { pid = pid; parent = parent; name = name; status = none })
          (position-none (has_pid pid) procs n) u)
  | inr (i, s) ↦
      rw (s, register)
        (λ p. omega (
          arith,
          u p,
          count_by-modify_same (has_pid p) procs i (λ r. record r { parent = parent; name = name })
              (λ r. refl),
        ))
]

pub exit_current-Unique :
    (pid code : ℕ) (procs : List Record) → Unique procs → Unique (exit_current pid code procs)
unfolding exit_current
exit_current-Unique pid code procs u = elim (Option-cases (position (λ r. r.pid == pid) procs)) [
  | inl n ↦
      rw (n, exit_current)
        (Unique-new procs (record { pid = pid; parent = 0; name = []; status = some code })
          (position-none (has_pid pid) procs n) u)
  | inr (i, s) ↦
      rw (s, exit_current)
        (λ p. omega (
          arith,
          u p,
          count_by-modify_same (has_pid p) procs i (λ r. record r { status = some code })
              (λ r. refl),
        ))
]

Outcome-Unique :
    (parent pid : ℕ) (procs rest : List Record) (out : Reaped)
    → Outcome parent pid procs out rest
    → Unique procs
    → Unique rest
Outcome-Unique parent pid procs rest out (childless z) u = u
Outcome-Unique parent pid procs rest out (waiting n z) u = u
Outcome-Unique parent pid procs rest out (collected r status l c e k) u =
    Unique-fewer procs l (λ p. omega (arith, k (has_pid p))) u

take_exit_status-Unique :
    (pid : ℕ) (procs : List Record) → Unique procs → Unique (take_exit_status pid procs).1
unfolding take_exit_status
take_exit_status-Unique pid procs u =
    elim (Option-cases (position (λ r. r.pid == pid && is_some r.status) procs)) [
      | inl n ↦ rw (n, take_exit_status) u
      | inr (i, s) ↦
          let f = position-Found (λ r. r.pid == pid && is_some r.status) procs i s in
          rw (s, take_exit_status, f.removed)
            (Unique-fewer procs f.rest
              (λ p. omega (arith, count_by-swap_remove (has_pid p) procs i f.r f.rest f.removed)) u)
    ]

take_child-Unique :
    (parent pid : ℕ) (procs rest : List Record) (out : Reaped)
    → take_child_exit_status parent pid procs ≡ some (out, rest)
    → Unique procs
    → Unique rest
take_child-Unique parent pid procs rest out h u =
    let (out', rest', e, o) = take_child_exit_status-Outcome parent pid procs in
    let same : rest' ≡ rest = ground arith in
    subst Unique same (Outcome-Unique parent pid procs rest' out' o u)

-- The tables that the operations make out of the empty one.
pub data Table : List Record → Type 0 where
  empty : Table []
  registered :
      (pid parent : ℕ) (name : List ℕ) {t : List Record}
      → Table t
      → Table (register pid parent name t)
  left : (pid code : ℕ) {t : List Record} → Table t → Table (exit_current pid code t)
  taken : (pid : ℕ) {t : List Record} → Table t → Table (take_exit_status pid t).1
  collected_child :
      (parent pid : ℕ) (out : Reaped) {t u : List Record}
      → take_child_exit_status parent pid t ≡ some (out, u)
      → Table t
      → Table u

-- In every table that the operations make, whatever their order and arguments, no pid occurs twice.
pub Table-Unique : {t : List Record} → Table t → Unique t
unfolding count_by
Table-Unique empty = λ pid. omega arith
Table-Unique (registered pid parent name h) = register-Unique pid parent name _ (Table-Unique h)
Table-Unique (left pid code h) = exit_current-Unique pid code _ (Table-Unique h)
Table-Unique (taken pid h) = take_exit_status-Unique pid _ (Table-Unique h)
Table-Unique (collected_child parent pid out e h) =
    take_child-Unique parent pid _ _ out e (Table-Unique h)
