-- ===== src/Client/Outgoing.antt =====
-- The sending half of ClientManagement::netWorkFunc (audioclient/ClientManage.cpp), from the label
-- SEND to the end of a round, and send_pcm of audioclient/AudioClient.cpp, which fills its queue.
--
-- The queue of libmmdecoder.so is the list of its blocks; DeDataQueue is a parameter, `none` where it
-- returns 0 or less. `iSentBytes` and `iWantSendLen` together never exceed the first value of the
-- latter, so the sum of 32 bits does not wrap around.
pub mod Conserved
pub mod Drained
pub mod Unframed
use epoll_based_fault_diagno.Base.{
  ℕ, ◌+◌, ◌-◌, Bool, true, false, ◌||◌, List, [], ◌∷◌, ◌++◌, Bytes, Option, none, some, ℤ, pos,
  negsuc, is_pos, add32, add64, length, take, drop, ltb, ◌==◌, if◌then◌else◌,
}
use epoll_based_fault_diagno.Socket.{Errno, would_block}
use epoll_based_fault_diagno.Wire.{read_header, net_msg_header_len, dt_wav}

-- What send answers: a count, with errno as it stands then, or -1.
pub data SendAnswer : Type 0 where
  gave : ℕ → Errno → SendAnswer
  failed : Errno → SendAnswer

pub record Outgoing : Type 0 where
  pub send_buf : Bytes
  pub want_send_len : ℕ
  pub sent_bytes : ℕ
  pub sleep_times : ℕ
  pub total_data_bytes : ℕ
  pub send_bytes : ℕ
  pub network_error : Bool
  pub queue : List Bytes

unfoldable pub note_idle : Outgoing → Outgoing
note_idle o = record o { sleep_times = if ltb 5 (o.sleep_times + 1) then 0 else o.sleep_times + 1 }

unfoldable pub load_message : Bytes → List Bytes → Outgoing → Outgoing
load_message block rest o = record o {
  queue = rest;
  sleep_times = 0;
  send_buf = block;
  want_send_len = add32 (read_header block).msg_len net_msg_header_len;
  sent_bytes = 0;
  total_data_bytes =
      add64 o.total_data_bytes (add32 (read_header block).msg_len net_msg_header_len);
}

-- Behind a send of `n > 0` bytes.
unfoldable pub note_sent_bytes : ℕ → Outgoing → Outgoing
note_sent_bytes n o = record o {
  want_send_len = o.want_send_len - n;
  sent_bytes = if o.want_send_len - n == 0 then 0 else o.sent_bytes + n;
  send_bytes = add64 o.send_bytes n;
}

unfoldable pub give_up : Outgoing → Outgoing
give_up o = record o { network_error = true; want_send_len = 0; sent_bytes = 0 }

-- The branches on what send answers, with the bytes that go over the network.
unfoldable pub after_send : SendAnswer → Outgoing → Bytes × Outgoing
unfolding note_sent_bytes give_up
after_send (gave n errno) o =
    if n == 0
    then (if would_block errno then ([], o) else ([], give_up o))
    else (take n (drop o.sent_bytes o.send_buf), note_sent_bytes n o)
after_send (failed errno) o = ([], o)

-- "send message": the `if (iWantSendLen > 0)`.
unfoldable pub send_pending : SendAnswer → Outgoing → Bytes × Outgoing
unfolding after_send
send_pending answer o = if o.want_send_len == 0 then ([], o) else after_send answer o

module _ (dequeue : List Bytes → Option (Bytes × List Bytes)) where
  -- From SEND to the end of the round.
  unfoldable pub send_round : SendAnswer → Outgoing → Bytes × Outgoing
  unfolding note_idle load_message send_pending
  send_round answer o =
      if o.want_send_len == 0
      then (elim (dequeue o.queue) as (λ _. Bytes × Outgoing) [
        | none ↦ ([], note_idle o)
        | some (block, rest) ↦ send_pending answer (load_message block rest o)
      ])
      else send_pending answer o

  unfoldable pub send_rounds : List SendAnswer → Outgoing → Bytes × Outgoing
  unfolding send_round
  send_rounds [] o = ([], o)
  send_rounds (answer ∷ answers) o =
      let (wire, o') = send_round answer o in
      let (wires, o'') = send_rounds answers o' in (wire ++ wires, o'')

-- Counters of send_pcm.
pub record PcmStats : Type 0 where
  pub wrong_block_cnt : ℕ
  pub pcm_block_cnt : ℕ

-- send_pcm, up to its call of EnDataQueue, whose two blocks are the data and the caller's header; the
-- NetMsgHeader that the function fills in is given to no one. What follows the call compares with a
-- variable that is never set, and is left out.
unfoldable pub send_pcm : ℕ → Option Bytes → Bytes → PcmStats → ℤ × PcmStats × Option Bytes
send_pcm data_type none my_header s =
    (negsuc 0, record s { wrong_block_cnt = add64 s.wrong_block_cnt 1 }, none)
send_pcm data_type (some block) my_header s = (
  pos 0,
  (if data_type == dt_wav then record s { pcm_block_cnt = add64 s.pcm_block_cnt 1 } else s),
  some (block ++ my_header),
)
