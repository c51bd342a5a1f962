-- ===== src/Prelude/Bytes.antt =====
-- Little-endian numbers in a list of bytes.
use Prim.Native.Nat.{ℕ, zero, suc, ◌+◌, ◌*◌}
use mathlib.Core.List.{List}
use eonos.Prelude.Lists.{get_or}

-- `n` bytes at `o`, the lowest first; a byte out of range reads 0.
unfoldable pub rd : ℕ → List ℕ → ℕ → ℕ
rd zero b o = 0
rd (suc n) b o = get_or b o 0 + 256 * rd n b (o + 1)
