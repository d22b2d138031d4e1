-- ===== src/Pool/Executor.antt =====
-- What src/thread_pool.hpp promises, without its threads, its count and its flags: tasks start in the
-- order in which they were accepted, and those that run are a bag.
pub mod Bags
pub mod Refined
use apiserver_asymetric_encr.Base.{length, ℕ, ◌<◌, ◌≡◌, List, [], ◌∷◌, ◌++◌}
use apiserver_asymetric_encr.Pool.Executor.Bags.{Bag, no_items, bag_size, put}

pub record Executor (A : Type 0) : Type 0 where
  pub accepted : List A
  pub active : Bag A

-- `n` is the number of threads, `c` the capacity, where zero is none.
pub data Moves {A : Type 0} (n c : ℕ) : Executor A → Executor A → Type 0 where
  accepts :
      (e : Executor A) (a : A)
      → (0 < c → length e.accepted < c)
      → Moves n c e (record e { accepted = e.accepted ++ a ∷ [] })
  begins :
      (e : Executor A) (a : A) (rest : List A)
      → e.accepted ≡ a ∷ rest
      → bag_size e.active < n
      → Moves n c e (record { accepted = rest; active = put a e.active })
  ends :
      (e : Executor A) (a : A) (others : Bag A)
      → e.active ≡ put a others
      → Moves n c e (record e { active = others })

pub data Runs {A : Type 0} (n c : ℕ) : Executor A → Type 0 where
  idle : Runs n c (record { accepted = []; active = no_items })
  moved : {e f : Executor A} → Runs n c e → Moves n c e f → Runs n c f
