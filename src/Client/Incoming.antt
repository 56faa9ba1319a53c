-- ===== src/Client/Incoming.antt =====
-- The receiving half of ClientManagement::netWorkFunc (audioclient/ClientManage.cpp), up to the label
-- SEND.
--
-- `none` is an access outside the buffer, where C++ gives the program no meaning. `pNetMsgHeader`
-- always stands where `pBuf` does. A memcpy between overlapping regions is taken to move the bytes.
pub mod Step
pub mod Stream
pub mod Overrun
use epoll_based_fault_diagno.Base.{
  ℕ, zero, suc, ◌+◌, ◌-◌, ◌*◌, ◌/◌, Bool, true, false, not, ◌&&◌, ◌||◌, List, [], ◌∷◌, ◌++◌, Bytes,
  Option, none, some, add32, sub32, sub64, add64, length, take, drop, splice, leb, ltb, ◌==◌,
  if◌then◌else◌, and_then,
}
use epoll_based_fault_diagno.Socket.{Errno, would_block}
use epoll_based_fault_diagno.Wire.{read_header, confirm_num, net_msg_header_len}

pub record Incoming : Type 0 where
  pub rcv_buf : Bytes
  pub rcv_buf_size : ℕ
  pub rcv_start_pos : ℕ
  pub pbuf : ℕ
  pub available : ℕ
  -- `iRcvMsgBytes`, a uint32_t, as is `iReadLen`.
  pub msg_bytes : ℕ
  pub read_len : ℕ
  pub head_err : Bool
  pub header_err_cnt : ℕ
  pub header_err_bytes : ℕ
  pub total_rcv_bytes : ℕ
  pub rcv_buf_size_mb : ℕ
  pub network_error : Bool
  -- The blocks given to EnDataQueue.
  pub blocks : List Bytes

abbrev pub memory : Incoming → Bytes
memory i = drop i.pbuf i.rcv_buf

abbrev pub received : Incoming → Bytes
received i = take i.read_len (memory i)

-- The two fields of a header, where the memory goes as far.
unfoldable pub confirm_of : Bytes → Option ℕ
confirm_of p = if ltb (length p) 4 then none else some (read_header p).confirm

unfoldable pub length_of : Bytes → Option ℕ
length_of p = if ltb (length p) 8 then none else some (read_header p).msg_len

-- The buffer and its offsets at the start, and after an error of the connection.
unfoldable pub reset_offsets : Incoming → Incoming
reset_offsets i = record i {
  read_len = 0;
  msg_bytes = 0;
  rcv_start_pos = 0;
  pbuf = 0;
  available = i.rcv_buf_size;
}

-- recv is offered `iRcvBufSize - iReadLen` bytes at `pBuf + iReadLen`.
abbrev pub offered_room : Incoming → ℕ
offered_room i = i.rcv_buf_size - i.read_len

unfoldable pub put_incoming : Bytes → Incoming → Incoming
put_incoming bs i = record i {
  rcv_buf = splice (i.pbuf + i.read_len) bs i.rcv_buf;
  read_len = add32 i.read_len (length bs);
  total_rcv_bytes = add64 i.total_rcv_bytes (length bs);
}

unfoldable pub store_incoming : Bytes → Incoming → Option Incoming
unfolding put_incoming
store_incoming bs i =
    if ltb (length i.rcv_buf) (i.pbuf + i.read_len + length bs)
    then none
    else some (put_incoming bs i)

-- The search loop at index `i`, with the memory from there and its limit, which is unsigned; the flag
-- is whether it broke off at a header.
unfoldable pub search_confirm : ℕ → Bytes → ℕ → Option (ℕ × Bool)
unfolding confirm_of
search_confirm limit [] i = if ltb i limit then none else some (i, false)
search_confirm limit (c ∷ p) i =
    let rest = search_confirm limit p (suc i) in
    if ltb i limit
    then and_then (confirm_of (c ∷ p)) (λ n. if confirm_num == n then some (i, true) else rest)
    else some (i, false)

unfoldable pub note_message : ℕ → Incoming → Incoming
note_message len i = record i { msg_bytes = add32 len net_msg_header_len; head_err = false }

-- "right header"
unfoldable pub accept_confirm : Incoming → Option Incoming
unfolding confirm_of length_of note_message
accept_confirm i = and_then (confirm_of (memory i)) (λ n.
    if confirm_num == n
    then and_then (length_of (memory i)) (λ len. some (note_message len i))
    else some i)

unfoldable pub skip_incoming : ℕ → Incoming → Incoming
skip_incoming k i = record i {
  read_len = sub32 i.read_len k;
  rcv_start_pos = add32 i.rcv_start_pos k;
  pbuf = i.pbuf + k;
  available = i.rcv_buf_size - add32 i.rcv_start_pos k;
  header_err_bytes = add64 i.header_err_bytes k;
}

-- "wrong header"
unfoldable pub resync_incoming : Incoming → Option Incoming
unfolding search_confirm length_of note_message skip_incoming
resync_incoming i =
    let i' = record i {
      header_err_cnt = if i.head_err then i.header_err_cnt else add64 i.header_err_cnt 1;
      head_err = true;
    } in
    and_then (search_confirm (sub64 i.read_len net_msg_header_len) (drop 1 (memory i)) 1) (λ r.
      if r.1
      then and_then (length_of (drop r.0 (memory i)))
          (λ len. some (skip_incoming r.0 (note_message len i')))
      else some (skip_incoming r.0 i'))

abbrev pub whole_megabytes : ℕ → ℕ
whole_megabytes need = (need / 1048576 + 1) * 1048576

-- Whether the received bytes stand in the buffer, for memcpy to read them.
abbrev pub in_buffer : Incoming → Bool
in_buffer i = leb (i.pbuf + i.read_len) (length i.rcv_buf)

unfoldable pub front_incoming : Incoming → Incoming
front_incoming i = record i {
  rcv_buf = splice 0 (take i.read_len (drop i.rcv_start_pos i.rcv_buf)) i.rcv_buf;
  rcv_start_pos = 0;
  pbuf = 0;
  available = i.rcv_buf_size;
}

module _ (mem : ℕ → Bytes) where
  unfoldable pub grow_incoming : ℕ → Incoming → Incoming
  grow_incoming size i = record i {
    rcv_buf = splice 0 (received i) (mem size);
    rcv_buf_size = size;
    rcv_start_pos = 0;
    pbuf = 0;
    available = size;
    rcv_buf_size_mb =
        if ltb i.rcv_buf_size_mb (size / 1048576) then size / 1048576 else i.rcv_buf_size_mb;
  }

  -- "buf is enough?", for a message of `need` bytes.
  unfoldable pub fit_incoming : ℕ → Incoming → Option Incoming
  unfolding reset_offsets grow_incoming
  fit_incoming need i =
      if leb need i.rcv_buf_size
      then some i
      else (if ltb (512 * 1024 * 1024) need
          then some
              (reset_offsets (record i { header_err_bytes = add64 i.header_err_bytes i.read_len }))
          else (if in_buffer i then some (grow_incoming (whole_megabytes need) i) else none))

  -- The block under FindHeader.
  unfoldable pub judge_incoming : Incoming → Option Incoming
  unfolding accept_confirm resync_incoming length_of fit_incoming
  judge_incoming i =
      if i.msg_bytes == 0
      then and_then (accept_confirm i) (λ i1.
        and_then (if i1.msg_bytes == 0 then resync_incoming i1 else some i1) (λ i2.
          if i2.msg_bytes == 0
          then some i2
          else and_then (length_of (memory i2))
              (λ len. fit_incoming (len + net_msg_header_len) i2)))
      else some i

  unfoldable pub move_incoming : Incoming → Option Incoming
  unfolding front_incoming
  move_incoming i =
      if ltb i.available (if i.msg_bytes == 0 then i.rcv_buf_size / 2 else i.msg_bytes)
      then (if in_buffer i then some (front_incoming i) else none)
      else some i

  unfoldable pub take_block : Incoming → Incoming
  take_block i = record i {
    blocks = i.blocks ++ (take i.msg_bytes (memory i) ∷ []);
    rcv_start_pos = add32 i.rcv_start_pos i.msg_bytes;
    pbuf = add32 i.rcv_start_pos i.msg_bytes;
    available = i.rcv_buf_size - add32 i.rcv_start_pos i.msg_bytes;
    read_len = i.read_len - i.msg_bytes;
    msg_bytes = 0;
  }

  -- "judge message body"; the flag is `goto FindHeader`.
  unfoldable pub take_incoming : Incoming → Bool × Incoming
  unfolding take_block
  take_incoming i =
      if not (i.msg_bytes == 0) && leb i.msg_bytes i.read_len
      then (leb net_msg_header_len (take_block i).read_len, take_block i)
      else (false, i)

  unfoldable pub incoming_once : Incoming → Option (Bool × Incoming)
  unfolding judge_incoming move_incoming take_incoming
  incoming_once i =
      and_then (judge_incoming i)
        (λ i1. and_then (move_incoming i1) (λ i2. some (take_incoming i2)))

  -- `fuel` bounds the times that `goto FindHeader` is taken: each uses up at least one of the received
  -- bytes, so one above their number is enough where `iReadLen` has not wrapped around.
  unfoldable pub find_incoming : ℕ → Incoming → Option Incoming
  unfolding incoming_once
  find_incoming zero i = some i
  find_incoming (suc fuel) i =
      and_then (incoming_once i)
        (λ r. let rest = find_incoming fuel r.1 in if r.0 then rest else some r.1)

  -- A round in which recv brings bytes.
  unfoldable pub receive_incoming : Bytes → Incoming → Option Incoming
  unfolding store_incoming find_incoming
  receive_incoming bs i = and_then (store_incoming bs i) (λ i'. find_incoming (suc i'.read_len) i')

-- A round in which recv brings none: `zero_ret` is the return value 0.
unfoldable pub receive_nothing : Bool → Errno → Incoming → Incoming
unfolding reset_offsets
receive_nothing zero_ret errno i =
    if zero_ret || not (would_block errno)
    then record (reset_offsets i) { network_error = true }
    else i
