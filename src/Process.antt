-- ===== src/Process.antt =====
-- The process table and the initial user stack, src/process.rs: `Record`, `register`, the part of
-- `exit_current` that records the status, `take_exit_status`, `take_child_exit_status`, `list` and
-- `build_stack`.
-- The table (the static `PROCS`) is a list of records. A status is the 64-bit word that `exit` was
-- given, a name is its bytes. Loading the executable, the address space and the files of a process
-- belong to src/elf.rs, src/vmm.rs and src/syscall.rs.
pub mod Table
pub mod Reap
pub mod Stack
mod Tests
use eonos.Prelude.{
  ℕ, zero, suc, ◌+◌, ◌-◌, ◌*◌, ◌/◌, ◌%◌, ◌^◌, List, [], ◌∷◌, ◌++◌, Bool, true, false, ◌&&◌, ◌||◌,
  Option, none, some, if◌then◌else◌, ltb, ◌==◌, length, map,
}
use mathlib.Core.List.{reverse}
use eonos.Prelude.Vec.{position, swap_remove, any}

pub record Record : Type 0 where
  pub pid : ℕ
  pub parent : ℕ
  pub name : List ℕ
  pub status : Option ℕ

pub record ProcessInfo : Type 0 where
  pub pid : ℕ
  pub name : List ℕ
  pub exit_status : Option ℕ

-- `procs[i]` changed in place.
unfoldable pub modify : List Record → ℕ → (Record → Record) → List Record
modify [] i f = []
modify (r ∷ rs) zero f = f r ∷ rs
modify (r ∷ rs) (suc i) f = r ∷ modify rs i f

unfoldable pub register : ℕ → ℕ → List ℕ → List Record → List Record
unfolding modify position
register pid parent name procs = elim (position (λ r. r.pid == pid) procs) [
  | some i ↦ modify procs i (λ r. record r { parent = parent; name = name })
  | none ↦ procs ++ (record { pid = pid; parent = parent; name = name; status = none } ∷ [])
]

-- What `exit_current` does to the table, for the current pid.
unfoldable pub exit_current : ℕ → ℕ → List Record → List Record
unfolding modify position
exit_current pid code procs = elim (position (λ r. r.pid == pid) procs) [
  | some i ↦ modify procs i (λ r. record r { status = some code })
  | none ↦ procs ++ (record { pid = pid; parent = 0; name = []; status = some code } ∷ [])
]

unfoldable pub is_some : Option ℕ → Bool
is_some none = false
is_some (some n) = true

unfoldable pub take_exit_status : ℕ → List Record → Option ℕ × List Record
unfolding position swap_remove is_some
take_exit_status pid procs = elim (position (λ r. r.pid == pid && is_some r.status) procs) [
  | none ↦ (none, procs)
  | some i ↦ elim (swap_remove procs i) [ none ↦ (none, procs) | some (r, rest) ↦ (r.status, rest) ]
]

-- `Err(())` is `no_child`; `Ok(None)` is `pending`.
pub data Reaped : Type 0 where
  no_child pending : Reaped
  reaped : ℕ → ℕ → Reaped

unfoldable pub is_child : ℕ → ℕ → Record → Bool
is_child parent pid r =
    r.parent == parent && ((pid == 0xffff_ffff_ffff_ffff || pid == 0) || r.pid == pid)

-- `status.unwrap()` on no status is a panic: `none`.
unfoldable pub take_child_exit_status : ℕ → ℕ → List Record → Option (Reaped × List Record)
unfolding position swap_remove any is_some is_child
take_child_exit_status parent pid procs =
    let found : Option (Reaped × List Record) =
      elim (position (λ r. is_child parent pid r && is_some r.status) procs) [
        | none ↦ some (pending, procs)
        | some i ↦ elim (swap_remove procs i) [
          | none ↦ none
          | some (r, rest) ↦ elim r.status [
            | none ↦ none
            | some status ↦ some (reaped r.pid status, rest)
          ]
        ]
      ] in
    if any (is_child parent pid) procs then found else some (no_child, procs)

unfoldable pub list : List Record → List ProcessInfo
list procs = map (λ r. record { pid = r.pid; name = r.name; exit_status = r.status }) procs

abbrev pub page_size : ℕ
page_size = 4096

abbrev pub user_stack_top : ℕ
user_stack_top = 0x7fff_ffff_f000

abbrev pub user_stack_pages : ℕ
user_stack_pages = 16

-- A write into the topmost stack page: its address and the number of its bytes.
pub record Write : Type 0 where
  pub at : ℕ
  pub size : ℕ

-- The inner loop over `values.iter().rev()`: the cursor, the pointers pushed and the writes made.
unfoldable pub push_strings :
    List (List ℕ) → ℕ → List ℕ → List Write → Option (ℕ × List ℕ × List Write)
push_strings [] cursor ptrs ws = some (cursor, ptrs, ws)
push_strings (v ∷ vs) cursor ptrs ws =
    let at = cursor - (length v + 1) in
    let rest =
      push_strings vs at (ptrs ++ (at ∷ [])) (ws ++ (record { at = at; size = length v } ∷ [])) in
    if ltb 255 (length v)
    then none
    else (if ltb cursor (length v + 1)
        then none
        else (if ltb at (user_stack_top - page_size) then none else rest))

-- The words from `argc` to the terminators.
unfoldable pub stack_words : ℕ → List ℕ → List ℕ → List ℕ
stack_words argc argv_ptrs env_ptrs = argc ∷ (argv_ptrs ++ (0 ∷ (env_ptrs ++ (0 ∷ 0 ∷ 0 ∷ []))))

unfoldable pub write_words : ℕ → List ℕ → List Write
write_words sp [] = []
write_words sp (w ∷ ws) = record { at = sp; size = 8 } ∷ write_words (sp + 8) ws

-- The stack pointer, the words on the stack and the writes, from the number of frames that
-- src/pmm.rs can give.
unfoldable pub build_stack : ℕ → List (List ℕ) → List (List ℕ) → Option (ℕ × List ℕ × List Write)
unfolding push_strings stack_words write_words
build_stack frames argv env =
    let strings : Option (ℕ × List ℕ × List Write) =
      elim (push_strings (reverse argv) user_stack_top [] []) [
        | none ↦ none
        | some (cursor, argv_rev, ws) ↦ elim (push_strings (reverse env) cursor [] ws) [
          | none ↦ none
          | some (cursor, env_rev, ws) ↦
              let words = stack_words (length argv) (reverse argv_rev) (reverse env_rev) in
              let sp = (cursor - length words * 8) / 16 * 16 in
              if ltb cursor (length words * 8)
              then none
              else (if ltb sp (user_stack_top - page_size)
                  then none
                  else some (sp, words, ws ++ write_words sp words))
        ]
      ] in
    if ltb frames user_stack_pages then none else strings
