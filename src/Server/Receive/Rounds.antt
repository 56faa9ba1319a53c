-- ===== src/Server/Receive/Rounds.antt =====
-- `goto FindHeader` in AudioServer::readFunc comes to an end.
use epoll_based_fault_diagno.Base.{
  arith, ℕ, zero, suc, ◌<◌, ◌≤◌, ◌≡◌, true, false, Bytes, Bool-cases, inl, inr,
}
use epoll_based_fault_diagno.Server.Receive.{
  Receiver, Env, find_header_once, take_message, judge_header, move_forward, fit_buffer, resync,
  accept_header, skip_bytes, note_header, note_length, drop_too_large, grow_to, to_front, deliver,
  consume, enqueue_block,
}
use epoll_based_fault_diagno.Server.Receive.Loop.{find_header, receive, store_received}

-- The block under FindHeader is run until it does not jump back: from the first state to the last.
pub data Rounds (e : Env) : Receiver → Receiver → Type 0 where
  ends : {r : Receiver} → (find_header_once e r).0 ≡ false → Rounds e r (find_header_once e r).1
  goes_on :
      {r s : Receiver}
      → (find_header_once e r).0 ≡ true
      → Rounds e (find_header_once e r).1 s
      → Rounds e r s

module _ (e : Env) where
  accept_header_read_len : (r : Receiver) → (accept_header e r).read_len ≡ r.read_len
  unfolding accept_header note_header
  accept_header_read_len r = ground arith

  resync_read_len : (r : Receiver) → (resync e r).read_len ≤ r.read_len
  unfolding resync skip_bytes
  resync_read_len r = ground arith

  fit_buffer_read_len : (r : Receiver) → (fit_buffer e r).read_len ≤ r.read_len
  unfolding fit_buffer note_length drop_too_large grow_to
  fit_buffer_read_len r = ground arith

  move_forward_read_len : (r : Receiver) → (move_forward r).read_len ≡ r.read_len
  unfolding move_forward to_front
  move_forward_read_len r = ground arith

  deliver_read_len : (r : Receiver) → (deliver e r).read_len ≡ r.read_len
  unfolding deliver enqueue_block
  deliver_read_len r = ground arith

  deliver_want_read_len : (r : Receiver) → (deliver e r).want_read_len ≡ r.want_read_len
  unfolding deliver enqueue_block
  deliver_want_read_len r = ground arith

  judge_header_read_len : (r : Receiver) → (judge_header e r).read_len ≤ r.read_len
  unfolding judge_header
  judge_header_read_len r = ground (
    arith,
    fit_buffer_read_len (resync e (accept_header e r)),
    resync_read_len (accept_header e r),
    accept_header_read_len r,
  )

  looked_read_len : (r : Receiver) → (move_forward (judge_header e r)).read_len ≤ r.read_len
  looked_read_len r =
      ground (arith, move_forward_read_len (judge_header e r), judge_header_read_len r)

  take_message_read_len :
      (r : Receiver) → (take_message e r).0 ≡ true → (take_message e r).1.read_len < r.read_len
  unfolding take_message consume
  take_message_read_len r h = ground (arith, deliver_read_len r, deliver_want_read_len r)

  -- A round that jumps back leaves fewer bytes.
  find_header_once_read_len :
      (r : Receiver)
      → (find_header_once e r).0 ≡ true
      → (find_header_once e r).1.read_len < r.read_len
  unfolding find_header_once
  find_header_once_read_len r h =
      ground (arith, looked_read_len r, take_message_read_len (move_forward (judge_header e r)) h)

  find_header-Rounds :
      (fuel : ℕ) (r : Receiver) → r.read_len < fuel → Rounds e r (find_header e fuel r)
  unfolding find_header
  find_header-Rounds zero r h = absurd (omega arith)
  find_header-Rounds (suc fuel) r h = elim (Bool-cases (find_header_once e r).0) [
    | inl again ↦ rw again (
        goes_on again (
          find_header-Rounds fuel (find_header_once e r).1
            (omega (arith, h, find_header_once_read_len r again))))
    | inr out ↦ rw out (ends out)
  ]

  -- After any recv, in any state, the block under FindHeader is run until it does not jump back, and
  -- no longer: the fuel never runs out before.
  pub receive-Rounds : (bs : Bytes) (r : Receiver) → Rounds e (store_received bs r) (receive e bs r)
  unfolding receive
  receive-Rounds bs r =
      find_header-Rounds (suc (store_received bs r).read_len) (store_received bs r) (omega arith)
