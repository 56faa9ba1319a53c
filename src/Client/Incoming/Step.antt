-- ===== src/Client/Incoming/Step.antt =====
-- One round through FindHeader at a whole message.
use epoll_based_fault_diagno.Base.{
  ℕ, ◌+◌, ◌-◌, ◌≤◌, ◌<◌, ◌≡◌, refl, sym, ap, ◌∙◌, false, [], ◌∷◌, ◌++◌, append_assoc, Bytes, some,
  add32, length, length-append, length-take, length-drop, take, drop, take-append-drop, take-append,
  drop-append, drop-take, drop-drop, leb, le→leb, not_lt→ltb, ne→==, ◌==◌, arith,
}
use epoll_based_fault_diagno.Wire.{
  read_header, new_header, confirm_num, net_msg_header_len, Msg, IsSendable, frame,
}
use epoll_based_fault_diagno.Wire.Codec.{read_header-frame, length-frame}
use epoll_based_fault_diagno.Client.Incoming.{
  Incoming, memory, received, confirm_of, length_of, note_message, accept_confirm, fit_incoming,
  judge_incoming, move_incoming, take_block, take_incoming, incoming_once,
}

-- The offsets stand in the buffer, whose size is a uint32_t.
pub record Sound (i : Incoming) : Type 0 where
  pub synced : i.pbuf ≡ i.rcv_start_pos
  pub room : i.available + i.pbuf ≡ i.rcv_buf_size
  pub sized : length i.rcv_buf ≡ i.rcv_buf_size
  pub bounded : i.pbuf + i.read_len ≤ i.rcv_buf_size
  pub word : i.rcv_buf_size < 0x1_0000_0000

-- A message whose length with its header is a uint32_t.
abbrev pub max_body : ℕ
max_body = 0x1_0000_0000 - net_msg_header_len

pub length-received : (i : Incoming) → Sound i → length (received i) ≡ i.read_len
length-received i v =
    omega
      (arith, length-take i.read_len (memory i), length-drop i.pbuf i.rcv_buf, v.sized, v.bounded)

module _ (mem : ℕ → Bytes) (i : Incoming) (v : Sound i) (m : Msg) (rest : Bytes)
    (s : IsSendable max_body m) (idle : i.msg_bytes ≡ 0) (at : received i ≡ frame m ++ rest) where
  size : ℕ
  size = length (frame m)

  read_len_is : i.read_len ≡ length (frame m) + length rest
  read_len_is = sym (length-received i v) ∙ ap length at ∙ length-append (frame m) rest

  memory_is : memory i ≡ frame m ++ (rest ++ drop i.read_len (memory i))
  memory_is =
      sym (take-append-drop i.read_len (memory i))
      ∙ ap (λ r. r ++ drop i.read_len (memory i)) at
      ∙ append_assoc (frame m) rest (drop i.read_len (memory i))

  header_is : read_header (memory i) ≡ new_header m.type (length m.body)
  header_is =
      ap read_header memory_is ∙ read_header-frame max_body m (rest ++ drop i.read_len (memory i)) s

  long : net_msg_header_len ≤ length (memory i)
  long =
      omega (arith, length-frame m, read_len_is, length-drop i.pbuf i.rcv_buf, v.sized, v.bounded)

  confirm_is : confirm_of (memory i) ≡ some confirm_num
  unfolding confirm_of
  confirm_is =
      rw (confirm_of, not_lt→ltb (length (memory i)) 4 (omega (arith, long)))
        (ap (λ h. some h.confirm) header_is)

  length_is : length_of (memory i) ≡ some (length m.body)
  unfolding length_of
  length_is =
      rw (length_of, not_lt→ltb (length (memory i)) 8 (omega (arith, long)))
        (ap (λ h. some h.msg_len) header_is)

  msg_bytes_is : add32 (length m.body) net_msg_header_len ≡ length (frame m)
  msg_bytes_is = omega (arith, length-frame m, s.len_below)

  nonzero : (add32 (length m.body) net_msg_header_len == 0) ≡ false
  nonzero =
      ne→== (add32 (length m.body) net_msg_header_len) 0
        (omega (arith, msg_bytes_is, length-frame m))

  fits : length m.body + net_msg_header_len ≤ i.rcv_buf_size
  fits = omega (arith, length-frame m, read_len_is, v.bounded)

  judged : judge_incoming mem i ≡ some (note_message (length m.body) i)
  unfolding judge_incoming accept_confirm note_message fit_incoming
  judged =
      rw (judge_incoming, idle, accept_confirm, confirm_is, length_is, nonzero)
        (rw
          (
            nonzero,
            length_is,
            fit_incoming,
            le→leb (length m.body + net_msg_header_len) i.rcv_buf_size fits,
          )
          refl)

  kept : move_incoming mem (note_message (length m.body) i) ≡ some (note_message (length m.body) i)
  unfolding move_incoming note_message
  kept =
      rw
        (
          move_incoming,
          nonzero,
          not_lt→ltb i.available (add32 (length m.body) net_msg_header_len)
              (omega (arith, msg_bytes_is, read_len_is, v.room, v.bounded)),
        )
        refl

  -- The connection behind the message.
  behind : Incoming
  behind = take_block mem (note_message (length m.body) i)

  taken :
      take_incoming mem (note_message (length m.body) i)
      ≡ (leb net_msg_header_len (behind).read_len, behind)
  unfolding take_incoming note_message behind
  taken =
      rw
        (
          take_incoming,
          nonzero,
          le→leb (add32 (length m.body) net_msg_header_len) i.read_len
              (omega (arith, msg_bytes_is, read_len_is)),
        )
        refl

  once : incoming_once mem i ≡ some (leb net_msg_header_len (behind).read_len, behind)
  unfolding incoming_once
  once = rw (incoming_once, judged, kept, taken) refl

  start_is :
      add32 i.rcv_start_pos (add32 (length m.body) net_msg_header_len) ≡ i.pbuf + length (frame m)
  start_is = omega (arith, msg_bytes_is, v.synced, v.bounded, v.word, read_len_is)

  behind_read_len : behind.read_len ≡ length rest
  unfolding behind take_block note_message
  behind_read_len = omega (arith, msg_bytes_is, read_len_is)

  behind-Sound : Sound behind
  unfolding behind take_block note_message
  behind-Sound = record {
    synced = refl;
    room = omega (arith, start_is, read_len_is, v.bounded);
    sized = v.sized;
    bounded = omega (arith, start_is, read_len_is, msg_bytes_is, v.bounded);
    word = v.word;
  }

  behind_blocks : behind.blocks ≡ i.blocks ++ (frame m ∷ [])
  unfolding behind take_block note_message
  behind_blocks =
      ap (λ b. i.blocks ++ (b ∷ []))
        (ap (λ n. take n (memory i)) msg_bytes_is
          ∙ ap (take (length (frame m))) memory_is
          ∙ take-append (length (frame m)) (frame m) (rest ++ drop i.read_len (memory i)) refl)

  behind-received : received behind ≡ rest
  unfolding behind take_block note_message
  behind-received =
      ap (λ p. take (i.read_len - add32 (length m.body) net_msg_header_len) (drop p i.rcv_buf))
        start_is
      ∙ ap (take (i.read_len - add32 (length m.body) net_msg_header_len))
          (sym (drop-drop i.pbuf (length (frame m)) (i.pbuf + length (frame m)) i.rcv_buf refl))
      ∙ sym (
          drop-take (length (frame m)) i.read_len
            (i.read_len - add32 (length m.body) net_msg_header_len) (memory i)
            (omega (arith, msg_bytes_is, read_len_is)))
      ∙ ap (drop (length (frame m))) at
      ∙ drop-append (length (frame m)) (frame m) rest refl

  -- The message is enqueued whole, and what stands behind it is received still.
  pub incoming_once-frame :
      (i' : Incoming) × (incoming_once mem i ≡ some (leb net_msg_header_len (length rest), i'))
      × Sound i'
      × (i'.msg_bytes ≡ 0)
      × (received i' ≡ rest)
      × (i'.blocks ≡ i.blocks ++ (frame m ∷ []))
  unfolding behind take_block
  incoming_once-frame = (
    behind,
    once ∙ ap (λ n. some (leb net_msg_header_len n, behind)) behind_read_len,
    behind-Sound,
    refl,
    behind-received,
    behind_blocks,
  )
