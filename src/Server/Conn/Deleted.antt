-- ===== src/Server/Conn/Deleted.antt =====
-- The destructor of EpollMateData (audioserver/AudioDataUnit.h), which the program does not call: it
-- never deletes a connection.
use epoll_based_fault_diagno.Base.{
  ℕ, zero, suc, Bool, true, false, ◌≤◌, ◌≡◌, refl, ap, sym, ◌∙◌, List, [], ◌∷◌, ◌++◌, append_assoc,
  append-nil, Bytes, Option, none, some, length, arith,
}
use epoll_based_fault_diagno.Queue.{IsFifo}
use epoll_based_fault_diagno.Server.Conn.{Conn}

-- The receive buffer, and the blocks of the queue whose data is freed, in their order, the queue of results, and whether it is closed.
pub record Deletion : Type 0 where
  pub freed : List Bytes
  pub results : List Bytes
  pub queue_closed : Bool

module _ (dequeue : List Bytes → Option (Bytes × List Bytes)) where
  -- `while (iBytes > 0)`, for `fuel` rounds at most.
  unfoldable pub free_results : ℕ → Deletion → Deletion
  free_results zero d = d
  free_results (suc fuel) d = elim (dequeue d.results) as (λ _. Deletion) [
    | none ↦ d
    | some (block, rest) ↦
        free_results fuel (record d { freed = d.freed ++ (block ∷ []); results = rest })
  ]

  -- The receive buffer is freed first.
  unfoldable pub delete_epoll_mate_data : ℕ → Conn → List Bytes → Deletion
  unfolding free_results
  delete_epoll_mate_data fuel c results =
      let start : Deletion = record {
        freed = c.rcv_buf ∷ [];
        results = results;
        queue_closed = false;
      } in
      elim c.rs_que_wait4send as (λ _. Deletion) [
        | none ↦ start
        | some q ↦ (let d = free_results fuel start in record d { queue_closed = true })
      ]

  module _ (fifo : IsFifo dequeue) where
    free_results_lem :
        (fuel : ℕ) (d : Deletion) (results : List Bytes)
        → d.results ≡ results
        → length results ≤ fuel
        → ((free_results fuel d).freed ≡ d.freed ++ results) × ((free_results fuel d).results ≡ [])
    unfolding free_results
    free_results_lem zero d [] at enough = (sym (append-nil d.freed), at)
    free_results_lem zero d (b ∷ bs) at enough = absurd (omega (arith, enough))
    free_results_lem (suc fuel) d [] at enough =
        let nothing : dequeue d.results ≡ none = ap dequeue at ∙ fifo.on_empty in
        rw (nothing, free_results) (sym (append-nil d.freed), at)
    free_results_lem (suc fuel) d (b ∷ bs) at enough =
        let first : dequeue d.results ≡ some (b, bs) = ap dequeue at ∙ fifo.on_block b bs in
        let (freed, empty) =
          free_results_lem fuel (record d { freed = d.freed ++ (b ∷ []); results = bs }) bs refl
            (omega (arith, enough)) in
        rw (first, free_results) (freed ∙ append_assoc d.freed (b ∷ []) bs, empty)

    -- Where DeDataQueue takes the oldest block and the connection has a queue of results: in at most
    -- one round for each block the loop ends with an empty queue, the receive buffer and every block
    -- are freed, each once and in their order, and the queue is closed.
    pub delete_epoll_mate_data_lem :
        (c : Conn) (q : ℕ) (results : List Bytes)
        → c.rs_que_wait4send ≡ some q
        → let d = delete_epoll_mate_data (length results) c results in
          (d.freed ≡ c.rcv_buf ∷ results) × (d.results ≡ []) × (d.queue_closed ≡ true)
    unfolding delete_epoll_mate_data
    delete_epoll_mate_data_lem c q results has =
        let start : Deletion = record {
          freed = c.rcv_buf ∷ [];
          results = results;
          queue_closed = false;
        } in
        let (freed, empty) = free_results_lem (length results) start results refl (omega arith) in
        rw (has, delete_epoll_mate_data) (freed, empty, refl)
