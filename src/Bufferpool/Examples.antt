-- ===== src/Bufferpool/Examples.antt =====
-- The theorems on the pool at a concrete pool.
use libnemesi.Common.{ℕ, ◌≡◌, ◌≢◌, ◌⊎◌, none, [], ◌∷◌, get_or}
use libnemesi.Bufferpool.{bpget, bpfree, zero_slot}
use libnemesi.Bufferpool.FreeList.{IsPool, range, bpinit-IsPool}
use libnemesi.Bufferpool.Get.{Taken, Full, bpget-Taken, one_held, one_held-IsPool}
use libnemesi.Bufferpool.Free.{bpfree-IsPool}

bpget-Taken_example :
    let (bp, made, v) = bpinit-IsPool in Taken bp [] (bpget none bp) ⊎ Full bp [] (bpget none bp)
bpget-Taken_example = bpget-Taken none (bpinit-IsPool.0) (range 0 150) [] (bpinit-IsPool.2)

bpfree-IsPool_example :
    IsPool (bpfree one_held 0) (0 ∷ range 1 149) []
    × ((i : ℕ)
        → 0 ≢ i
        → get_or (bpfree one_held 0).bufferpool i [] ≡ get_or one_held.bufferpool i [])
    × (get_or (bpfree one_held 0).bufferpool 0 [] ≡ zero_slot)
bpfree-IsPool_example = bpfree-IsPool one_held (range 1 149) [] 0 [] one_held-IsPool
