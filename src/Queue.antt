-- ===== src/Queue.antt =====
-- What the code relies on of DeDataQueue of libmmdecoder.so, which is not in the repository: the call
-- takes the oldest block, and returns 0 or less, `none` here, only where there is none.
use epoll_based_fault_diagno.Base.{◌≡◌, List, [], ◌∷◌, Option, none, some}

pub record IsFifo {ℓ} {A : Type ℓ} (dequeue : List A → Option (A × List A)) : Type ℓ where
  pub on_empty : dequeue [] ≡ none
  pub on_block : (b : A) (bs : List A) → dequeue (b ∷ bs) ≡ some (b, bs)
