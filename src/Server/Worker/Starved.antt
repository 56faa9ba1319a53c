-- ===== src/Server/Worker/Starved.antt =====
-- Which messages the worker threads get.
use epoll_based_fault_diagno.Base.{
  ℕ, zero, suc, ◌%◌, ◌≤◌, ◌≡◌, ◌≢◌, refl, sym, ap, subst, ◌∙◌, List, [], ◌∷◌, ◌++◌, append_assoc,
  append-nil, Option, none, some, length, ◌==◌, Bool-cases, inl, inr, arith, ne→==,
}
use epoll_based_fault_diagno.Queue.{IsFifo}
use epoll_based_fault_diagno.Wire.{read_header, dt_wav}
use epoll_based_fault_diagno.Server.Receive.{EnqueueCall, Env, Receiver}
use epoll_based_fault_diagno.Server.Receive.Loop.{Recv, read_loop}
use epoll_based_fault_diagno.Server.Receive.Queues.{
  OneQueue, no_calls, one_more, read_loop-OneQueue,
}
use epoll_based_fault_diagno.Server.Worker.{
  Worker, handle_block, accepted, worker_at, worker_round, worker_func,
}

-- The other queues get nothing.
accepted-OneQueue :
    (e : Env) (k idx : ℕ) (before cs : List EnqueueCall)
    → OneQueue k cs
    → idx ≢ k
    → accepted e idx before cs ≡ []
unfolding accepted
accepted-OneQueue e k idx before [] no_calls other = refl
accepted-OneQueue e k idx before (c ∷ cs) (one_more at rest) other =
    rw (ne→== c.queue_idx idx (λ same. other (sym same ∙ at)))
      (accepted-OneQueue e k idx (before ++ (c ∷ [])) cs rest other)

handle_block_fields :
    (c : EnqueueCall) (w : Worker)
    → ((handle_block c w).queue ≡ w.queue) × ((handle_block c w).taken ≡ w.taken ++ (c ∷ []))
unfolding handle_block
handle_block_fields c w = elim (Bool-cases (dt_wav == (read_header c.block).msg_type)) [
  | inl wav ↦ rw wav (refl, refl)
  | inr other ↦ rw other (refl, refl)
]

module _ (dequeue : List EnqueueCall → Option (EnqueueCall × List EnqueueCall))
    (oldest : IsFifo dequeue) where
  round_empty :
      (w : Worker)
      → w.queue ≡ []
      → ((worker_round dequeue w).queue ≡ []) × ((worker_round dequeue w).taken ≡ w.taken)
  unfolding worker_round
  round_empty w nothing =
      let none_left : dequeue w.queue ≡ none = ap dequeue nothing ∙ oldest.on_empty in
      rw (worker_round, none_left) (nothing, refl)

  round_block :
      (c : EnqueueCall) (cs : List EnqueueCall) (w : Worker)
      → w.queue ≡ c ∷ cs
      → ((worker_round dequeue w).queue ≡ cs)
        × ((worker_round dequeue w).taken ≡ w.taken ++ (c ∷ []))
  unfolding worker_round
  round_block c cs w at =
      let first : dequeue w.queue ≡ some (c, cs) = ap dequeue at ∙ oldest.on_block c cs in
      rw (worker_round, first) (handle_block_fields c (record w { queue = cs }))

  -- Where DeDataQueue takes the oldest block: after at least as many rounds as there are blocks in
  -- its queue, a worker has taken all of them, each once and in their order, and the queue is empty.
  pub worker_func-takes :
      (rounds : ℕ) (queue : List EnqueueCall) (w : Worker)
      → w.queue ≡ queue
      → length queue ≤ rounds
      → ((worker_func dequeue rounds w).queue ≡ [])
        × ((worker_func dequeue rounds w).taken ≡ w.taken ++ queue)
  unfolding worker_func
  worker_func-takes zero [] w at enough = (at, sym (append-nil w.taken))
  worker_func-takes zero (c ∷ cs) w at enough = absurd (omega (arith, enough))
  worker_func-takes (suc rounds) [] w at enough =
      let (still, same) = round_empty w at in
      let (empty, taken) =
        worker_func-takes rounds [] (worker_round dequeue w) still (omega arith) in
      (empty, taken ∙ ap (λ t. t ++ []) same)
  worker_func-takes (suc rounds) (c ∷ cs) w at enough =
      let (rest, one) = round_block c cs w at in
      let (empty, taken) =
        worker_func-takes rounds cs (worker_round dequeue w) rest (omega arith) in
      (empty, taken ∙ ap (λ t. t ++ cs) one ∙ append_assoc w.taken (c ∷ []) cs)

  -- A worker whose queue is not the one that all messages went to takes none.
  pub worker_func_unfed :
      (e : Env) (calls : List EnqueueCall) (idx rounds : ℕ)
      → OneQueue (1 % e.process_thread_cnt) calls
      → idx ≢ 1 % e.process_thread_cnt
      → (worker_func dequeue rounds (worker_at e idx calls)).taken ≡ []
  worker_func_unfed e calls idx rounds one other =
      (worker_func-takes rounds [] (worker_at e idx calls)
        (accepted-OneQueue e (1 % e.process_thread_cnt) idx [] calls one other) (omega arith)).1

  -- Where DeDataQueue takes the oldest block: a run of readFunc for a receiver that has enqueued
  -- nothing, whatever recv brings, and then any number of rounds of the worker threads: a worker
  -- whose index is not 1 modulo the number of threads has taken nothing.
  pub worker_func_starves :
      (e : Env) (rs : List Recv) (r : Receiver) (idx rounds : ℕ)
      → r.calls ≡ []
      → idx ≢ 1 % e.process_thread_cnt
      → (worker_func dequeue rounds (worker_at e idx (read_loop e rs r).1.calls)).taken ≡ []
  worker_func_starves e rs r idx rounds fresh other =
      worker_func_unfed e (read_loop e rs r).1.calls idx rounds
        (read_loop-OneQueue e rs r
          (subst (OneQueue (1 % e.process_thread_cnt)) (sym fresh) no_calls))
        other
