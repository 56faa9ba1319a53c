-- ===== src/Server/Receive/Queues.antt =====
-- The queues that AudioServer::readFunc puts messages into.
use epoll_based_fault_diagno.Base.{
  ℕ, zero, suc, ◌%◌, ◌≡◌, refl, List, [], ◌∷◌, ◌++◌, Bytes, arith, leb, not, ◌&&◌, ◌==◌, Bool-cases,
  inl, inr,
}
use epoll_based_fault_diagno.Wire.{read_header, dt_wav}
use epoll_based_fault_diagno.Server.Receive.{
  EnqueueCall, Receiver, at_pbuf, Env, find_header_once, take_message, judge_header, move_forward,
  fit_buffer, resync, accept_header, skip_bytes, note_header, note_length, drop_too_large, grow_to,
  to_front, deliver, consume, enqueue_block, call_of,
}
use epoll_based_fault_diagno.Server.Receive.Loop.{
  Recv, received, closed, failed, find_header, receive, store_received, read_loop,
}

-- All calls of EnDataQueue name the queue with this index.
pub data OneQueue (idx : ℕ) : List EnqueueCall → Type 0 where
  no_calls : OneQueue idx []
  one_more :
      {c : EnqueueCall} {cs : List EnqueueCall}
      → c.queue_idx ≡ idx
      → OneQueue idx cs
      → OneQueue idx (c ∷ cs)

append-OneQueue :
    {idx : ℕ} (cs : List EnqueueCall) (c : EnqueueCall)
    → c.queue_idx ≡ idx
    → OneQueue idx cs
    → OneQueue idx (cs ++ (c ∷ []))
append-OneQueue [] c h no_calls = one_more h no_calls
append-OneQueue (c' ∷ cs) c h (one_more h' o) = one_more h' (append-OneQueue cs c h o)

module _ (e : Env) where
  abbrev second : ℕ
  second = 1 % e.process_thread_cnt

  judge_header_calls : (r : Receiver) → (judge_header e r).calls ≡ r.calls
  unfolding judge_header accept_header note_header resync skip_bytes fit_buffer note_length
      drop_too_large grow_to
  judge_header_calls r = ground arith

  move_forward_calls : (r : Receiver) → (move_forward r).calls ≡ r.calls
  unfolding move_forward to_front
  move_forward_calls r = ground arith

  deliver-OneQueue : (r : Receiver) → OneQueue second r.calls → OneQueue second (deliver e r).calls
  unfolding deliver enqueue_block call_of
  deliver-OneQueue r o = elim (Bool-cases ((read_header (at_pbuf r)).msg_type == dt_wav)) [
    | inl wav ↦ rw wav (append-OneQueue r.calls (call_of e r) refl o)
    | inr other ↦ rw other o
  ]

  take_message-OneQueue :
      (r : Receiver) → OneQueue second r.calls → OneQueue second (take_message e r).1.calls
  unfolding take_message consume
  take_message-OneQueue r o =
      elim (Bool-cases (not (r.want_read_len == 0) && leb r.want_read_len r.read_len)) [
        | inl whole ↦ rw whole (deliver-OneQueue r o)
        | inr part ↦ rw part o
      ]

  find_header_once-OneQueue :
      (r : Receiver) → OneQueue second r.calls → OneQueue second (find_header_once e r).1.calls
  unfolding find_header_once
  find_header_once-OneQueue r o =
      take_message-OneQueue (move_forward (judge_header e r))
        (rw (move_forward_calls (judge_header e r), judge_header_calls r) o)

  find_header-OneQueue :
      (fuel : ℕ) (r : Receiver)
      → OneQueue second r.calls
      → OneQueue second (find_header e fuel r).calls
  unfolding find_header
  find_header-OneQueue zero r o = o
  find_header-OneQueue (suc fuel) r o =
      let next = find_header_once-OneQueue r o in
      elim (Bool-cases (find_header_once e r).0) [
        | inl again ↦ rw again (find_header-OneQueue fuel (find_header_once e r).1 next)
        | inr out ↦ rw out next
      ]

  receive-OneQueue :
      (bs : Bytes) (r : Receiver) → OneQueue second r.calls → OneQueue second (receive e bs r).calls
  unfolding receive store_received
  receive-OneQueue bs r o =
      find_header-OneQueue (suc (store_received bs r).read_len) (store_received bs r) o

  -- Whatever recv brings, and however many threads there are: when all messages so far went to the
  -- queue of index 1 modulo the number of threads, so do all those that a run of the loop enqueues.
  pub read_loop-OneQueue :
      (rs : List Recv) (r : Receiver)
      → OneQueue (1 % e.process_thread_cnt) r.calls
      → OneQueue (1 % e.process_thread_cnt) (read_loop e rs r).1.calls
  unfolding read_loop
  read_loop-OneQueue [] r o = o
  read_loop-OneQueue (received bs ∷ rs) r o =
      read_loop-OneQueue rs (receive e bs r) (receive-OneQueue bs r o)
  read_loop-OneQueue (closed err ∷ rs) r o = o
  read_loop-OneQueue (failed err ∷ rs) r o = o
