-- ===== src/Client/Incoming/Stream.antt =====
-- What the client makes of the stream of the server, and where it reads or writes outside its buffer.
use epoll_based_fault_diagno.Base.{
  ℕ, zero, suc, ◌+◌, ◌≤◌, ◌<◌, ◌≡◌, refl, sym, ap, ◌∙◌, List, [], ◌∷◌, ◌++◌, map, append_assoc,
  Bytes, some, length, length-append, length-take, length-splice, take, drop, splice, take-append,
  take-append-take, drop-append, le→leb, not_le→leb, not_lt→ltb, arith,
}
use epoll_based_fault_diagno.Wire.{net_msg_header_len, Msg, frame, frames}
use epoll_based_fault_diagno.Wire.Codec.{length-frame}
use epoll_based_fault_diagno.Framing.Messages.{AllSendable, length-frames}
use epoll_based_fault_diagno.Client.Incoming.{
  Incoming, received, put_incoming, store_incoming, find_incoming, receive_incoming,
}
use epoll_based_fault_diagno.Client.Incoming.Step.{
  Sound, max_body, length-received, incoming_once-frame,
}

absurd_frames : (m : Msg) (ms : List Msg) → net_msg_header_len ≤ length (frames (m ∷ ms))
unfolding frames
absurd_frames m ms = omega (arith, length-append (frame m) (frames ms), length-frame m)

-- What find_incoming leaves behind messages that it finds.
abbrev pub Found : Incoming → List Msg → Bytes → Incoming → Type 0
Found i ms rest i' =
    Sound i' × (i'.msg_bytes ≡ 0) × (received i' ≡ rest) × (i'.blocks ≡ i.blocks ++ map frame ms)

module _ (mem : ℕ → Bytes) where
  find_incoming-frames :
      (fuel : ℕ) (i : Incoming) (m : Msg) (ms : List Msg) (rest : Bytes)
      → Sound i
      → AllSendable max_body (m ∷ ms)
      → i.msg_bytes ≡ 0
      → received i ≡ frames (m ∷ ms) ++ rest
      → length rest < net_msg_header_len
      → length (m ∷ ms) ≤ fuel
      → (i' : Incoming) × (find_incoming mem fuel i ≡ some i') × Found i (m ∷ ms) rest i'
  unfolding find_incoming frames
  find_incoming-frames zero i m ms rest v s idle at short enough = ground arith
  find_incoming-frames (suc fuel) i m [] rest v (s, s') idle at short enough =
      let (i', e, v', idle', at', blocks') =
        incoming_once-frame mem i v m rest s idle (at ∙ append_assoc (frame m) [] rest) in
      (
        i',
        rw (e, not_le→leb net_msg_header_len (length rest) short) refl,
        (v', idle', at', blocks'),
      )
  find_incoming-frames (suc fuel) i m (m' ∷ ms) rest v (s, s') idle at short enough =
      let (i', e, v', idle', at', blocks') =
        incoming_once-frame mem i v m (frames (m' ∷ ms) ++ rest) s idle
          (at ∙ append_assoc (frame m) (frames (m' ∷ ms)) rest) in
      let (i'', e', (v'', idle'', at'', blocks'')) =
        find_incoming-frames fuel i' m' ms rest v' s' idle' at' short (omega arith) in
      (
        i'',
        rw
            (
              e,
              le→leb net_msg_header_len (length (frames (m' ∷ ms) ++ rest))
                  (omega (arith, length-append (frames (m' ∷ ms)) rest, absurd_frames m' ms)),
            )
            e',
        (
          v'',
          idle'',
          at'',
          blocks''
              ∙ ap (λ bs. bs ++ map frame (m' ∷ ms)) blocks'
              ∙ append_assoc i.blocks (frame m ∷ []) (map frame (m' ∷ ms)),
        ),
      )

-- The bytes of a recv join those received before.
Joined : Bytes → Incoming → Incoming → Type 0
Joined bs i i' =
    Sound i'
    × (received i' ≡ received i ++ bs)
    × (i'.msg_bytes ≡ i.msg_bytes)
    × (i'.blocks ≡ i.blocks)

drop-take_append :
    (a n : ℕ) (xs ys : Bytes)
    → a + n ≤ length xs
    → drop a (take (a + n) xs ++ ys) ≡ take n (drop a xs) ++ ys
drop-take_append a n xs ys h =
    ap (λ t. drop a (t ++ ys)) (sym (take-append-take a n (a + n) xs refl))
    ∙ ap (drop a) (append_assoc (take a xs) (take n (drop a xs)) ys)
    ∙ drop-append a (take a xs) (take n (drop a xs) ++ ys) (omega (arith, length-take a xs))

store_incoming-Joined :
    (bs : Bytes) (i : Incoming)
    → Sound i
    → i.pbuf + i.read_len + length bs ≤ i.rcv_buf_size
    → (i' : Incoming) × (store_incoming bs i ≡ some i') × Joined bs i i'
unfolding store_incoming put_incoming splice Joined
store_incoming-Joined bs i v room = (
  put_incoming bs i,
  rw
      (
        store_incoming,
        not_lt→ltb (length i.rcv_buf) (i.pbuf + i.read_len + length bs)
            (omega (arith, v.sized, room)),
      )
      refl,
  (
    record {
      synced = v.synced;
      room = v.room;
      sized =
          length-splice (i.pbuf + i.read_len) bs i.rcv_buf (omega (arith, v.sized, room)) ∙ v.sized;
      bounded = omega (arith, room, v.word);
      word = v.word;
    },
    ap (λ n. take n (drop i.pbuf (splice (i.pbuf + i.read_len) bs i.rcv_buf)))
          (omega (arith, room, v.word))
        ∙ ap (take (i.read_len + length bs)) (
            drop-take_append i.pbuf i.read_len i.rcv_buf
              (bs ++ drop (i.pbuf + i.read_len + length bs) i.rcv_buf)
              (omega (arith, v.sized, v.bounded))
            ∙ sym (append_assoc (received i) bs (drop (i.pbuf + i.read_len + length bs) i.rcv_buf)))
        ∙ take-append (i.read_len + length bs) (received i ++ bs)
            (drop (i.pbuf + i.read_len + length bs) i.rcv_buf)
            (omega (arith, length-append (received i) bs, length-received i v)),
    refl,
    refl,
  ),
)

-- One recv that fits the buffer, to a client whose offsets are in its buffer and which waits for no
-- body: where the bytes left from before and the new ones together are one or more whole messages,
-- with fewer bytes than a header behind them, every message is enqueued once, whole and in order,
-- those few bytes are left for the next recv, and the offsets are in the buffer. Pieces of a message
-- that arrive one after another are joined.
pub receive_incoming-frames :
    (mem : ℕ → Bytes) (bs : Bytes) (i : Incoming) (m : Msg) (ms : List Msg) (rest : Bytes)
    → Sound i
    → i.msg_bytes ≡ 0
    → i.pbuf + i.read_len + length bs ≤ i.rcv_buf_size
    → received i ++ bs ≡ frames (m ∷ ms) ++ rest
    → AllSendable max_body (m ∷ ms)
    → length rest < net_msg_header_len
    → (i' : Incoming) × (receive_incoming mem bs i ≡ some i') × Found i (m ∷ ms) rest i'
unfolding receive_incoming Joined
receive_incoming-frames mem bs i m ms rest v idle room stream s short =
    let (i1, e, (v1, at1, idle1, blocks1)) = store_incoming-Joined bs i v room in
    let at : received i1 ≡ frames (m ∷ ms) ++ rest = at1 ∙ stream in
    let enough : length (m ∷ ms) ≤ suc i1.read_len = omega (
      arith,
      length-received i1 v1,
      ap length at,
      length-append (frames (m ∷ ms)) rest,
      length-frames (m ∷ ms),
    ) in
    let (i2, e2, (v2, idle2, at2, blocks2)) =
      find_incoming-frames mem (suc i1.read_len) i1 m ms rest v1 s (idle1 ∙ idle) at short enough in
    (
      i2,
      rw (receive_incoming, e) e2,
      (v2, idle2, at2, blocks2 ∙ ap (λ bs. bs ++ map frame (m ∷ ms)) blocks1),
    )
