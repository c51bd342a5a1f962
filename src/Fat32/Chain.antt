-- ===== src/Fat32/Chain.antt =====
-- Chains of clusters in src/fat32.rs: `next_cluster` and `collect_chain`.
use eonos.Prelude.{ℕ, ◌≡◌, List, [], ◌∷◌, none, some}
use eonos.Prelude.Results.{ok}
use eonos.Block.{BlockDevice}
use eonos.Fat32.{Geometry, Volume, next_cluster}

-- The clusters from `c` on, as the table links them: each leads to the next, and the last has an
-- end mark.
pub data Linked {S : Type 0} (dev : BlockDevice S) (g : Geometry) (v : Volume S)
    : ℕ → List ℕ → Type 0 where
  last : (c : ℕ) → next_cluster dev g v c ≡ ok none → Linked dev g v c (c ∷ [])
  link :
      (c n : ℕ) (l : List ℕ)
      → next_cluster dev g v c ≡ ok (some n)
      → Linked dev g v n l
      → Linked dev g v c (c ∷ l)
