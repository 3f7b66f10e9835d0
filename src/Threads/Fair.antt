-- ===== src/Threads/Fair.antt =====
-- thread_yield of src/threads/thread.c, called again and again.
use csed.Common.{
  ℕ, zero, suc, ◌≡◌, false, List, [], ◌∷◌, ◌++◌, append_assoc, Option, some, arith, ◌>>=◌, length,
  Returns, Returns-bind, Returns-mono,
}
use csed.Threads.Kernel.{Kernel, points_to, thread_yield}
use csed.Threads.Invariant.{IsValid}
use csed.Threads.Switch.{thread_yield_lem}

-- `n` yields in a row, each by the thread that runs then.
pub yields : ℕ → Kernel → Option Kernel
yields zero k = some k
yields (suc n) k = thread_yield k >>= yields n

-- When every thread yields, a ready thread with `length xs` threads before it runs after
-- `length xs + 1` yields, and the threads before it then wait in their order behind the others.
pub round_robin :
    (xs ys : List ℕ) (t : ℕ) (k : Kernel)
    → IsValid k
    → k.in_external ≡ false
    → points_to k.idle_thread k.current ≡ false
    → k.ready_list ≡ xs ++ t ∷ ys
    → Returns
        (yields (suc (length xs)) k)
        λ k'. (k'.current ≡ t) × (k'.ready_list ≡ ys ++ k.current ∷ xs) × IsValid k'
unfolding yields
round_robin [] ys t k v internal busy e =
    Returns-bind _ _ (thread_yield k) (yields 0) (thread_yield_lem k v internal busy)
      λ k' h. (ground arith, ground arith, h.0)
round_robin (x ∷ xs) ys t k v internal busy e =
    Returns-bind _ _ (thread_yield k) (yields (suc (length xs)))
      (thread_yield_lem k v internal busy)
      λ k' h.
        let turned : k'.ready_list ≡ xs ++ t ∷ (ys ++ k.current ∷ []) =
          ground (arith, append_assoc xs (t ∷ ys) (k.current ∷ [])) in
        let awake : points_to k'.idle_thread k'.current ≡ false =
          ground (arith, v.lists.queued x) in
        Returns-mono _ _ (yields (suc (length xs)) k')
          (round_robin xs (ys ++ k.current ∷ []) t k' h.0 h.3 awake turned)
          λ k'' g. (g.0, ground (arith, append_assoc ys (k.current ∷ []) (x ∷ xs)), g.2)
