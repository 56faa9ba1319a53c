-- ===== src/Server/Receive/Delivery.antt =====
-- What AudioServer::readFunc makes of the bytes that one recv brings.
use epoll_based_fault_diagno.Base.{
  ℕ, suc, ◌+◌, ◌*◌, ◌≤◌, ◌<◌, ◌≡◌, ◌≢◌, refl, ap, sym, subst, ◌∙◌, inl, inr, List, [], ◌∷◌, ◌++◌,
  map, append-nil, Bytes, arith, length, length-append, length-take, length-splice, take, drop,
  splice, take-append, drop-append, get_or, get_or-take, get_or-append, Bool-cases, ◌==◌,
  if◌then◌else◌,
}
use epoll_based_fault_diagno.Wire.{
  NetMsgHeader, read_header, net_msg_header_len, dt_wav, Msg, frame, frames, IsSendable,
}
use epoll_based_fault_diagno.Wire.Codec.{read_header-frame}
use epoll_based_fault_diagno.Framing.{scan}
use epoll_based_fault_diagno.Framing.Messages.{AllSendable, scan-frames, length-frames}
use epoll_based_fault_diagno.Server.Conn.{IsAllocator}
use epoll_based_fault_diagno.Server.Receive.{Receiver, Env, at_pbuf, window}
use epoll_based_fault_diagno.Server.Receive.Loop.{store_received, receive, find_header}
use epoll_based_fault_diagno.Server.Receive.Window.{InBounds, length-window}
use epoll_based_fault_diagno.Server.Receive.Window.Refine.{
  blocks, is_wav, wav_only, Framed, find_header-Framed,
}

-- The messages that the server passes on.
unfoldable pub only_wav : List Msg → List Msg
only_wav [] = []
only_wav (m ∷ ms) = if m.type == dt_wav then m ∷ only_wav ms else only_wav ms

is_wav-frame : (max : ℕ) (m : Msg) → IsSendable max m → is_wav (frame m) ≡ (m.type == dt_wav)
is_wav-frame max m s =
    ap (λ (h : NetMsgHeader). h.msg_type == dt_wav)
      (ap read_header (sym (append-nil (frame m))) ∙ read_header-frame max m [] s)

pub wav_only-map-frame :
    (max : ℕ) (ms : List Msg)
    → AllSendable max ms
    → wav_only (map frame ms) ≡ map frame (only_wav ms)
unfolding wav_only only_wav
wav_only-map-frame max [] s = refl
wav_only-map-frame max (m ∷ ms) s =
    rw (is_wav-frame max m s.0, wav_only-map-frame max ms s.1)
      (elim (Bool-cases (m.type == dt_wav)) [ inl wav ↦ rw wav | inr other ↦ rw other ])

-- recv writes at `pBuf`: the bytes from there on are the new ones.
pub at_pbuf-store_received :
    (bs : Bytes) (r : Receiver)
    → r.pbuf ≤ length r.rcv_buf
    → at_pbuf (store_received bs r) ≡ bs ++ drop (r.pbuf + length bs) r.rcv_buf
unfolding store_received splice
at_pbuf-store_received bs r h =
    drop-append r.pbuf (take r.pbuf r.rcv_buf) _ (omega (arith, length-take r.pbuf r.rcv_buf))

-- With nothing left over, the bytes of one recv become the window.
pub store_received-InBounds :
    (bs : Bytes) (r : Receiver)
    → InBounds r
    → r.read_len ≡ 0
    → length bs ≤ r.buf_size
    → InBounds (store_received bs r) × (window (store_received bs r) ≡ bs)
unfolding store_received
store_received-InBounds bs r v empty fits = (
  record {
    synced = v.synced;
    room = v.room;
    sized = length-splice r.pbuf bs r.rcv_buf (omega (arith, v.room, v.sized)) ∙ v.sized;
    bounded = omega (arith, v.room, empty, fits);
    want_len = v.want_len;
  },
  ap (take (r.read_len + length bs))
        (unfold store_received in at_pbuf-store_received bs r (omega (arith, v.room, v.sized)))
      ∙ take-append (r.read_len + length bs) bs _ (omega (arith, empty)),
)

module _ (e : Env) (ok_mem : IsAllocator e.mem)
    (limited : e.max_net_msg_byte + net_msg_header_len ≤ 512 * 1024 * 1024) where
  received-Framed :
      (bs : Bytes) (r : Receiver)
      → InBounds r
      → r.read_len ≡ 0
      → r.want_read_len ≡ 0
      → length bs ≤ r.buf_size
      → Framed (scan e.max_net_msg_byte (suc (length bs)) 0 bs) (blocks r.calls) (receive e bs r)
  unfolding receive store_received
  received-Framed bs r v empty idle fits =
      let (v', w) = store_received-InBounds bs r v empty fits in
      let counted : length bs ≡ r.read_len + length bs = omega (arith, empty) in
      subst
        (λ n.
          Framed (scan e.max_net_msg_byte (suc (length bs)) 0 bs) (blocks r.calls)
            (find_header e (suc n) (store_received bs r)))
        counted
        (subst
          (λ x.
            Framed (scan e.max_net_msg_byte (suc (length bs)) 0 x) (blocks r.calls)
              (find_header e (suc (length bs)) (store_received bs r)))
          w
          (subst
            (λ n.
              Framed (scan e.max_net_msg_byte (suc (length bs)) n (window (store_received bs r)))
                (blocks r.calls) (find_header e (suc (length bs)) (store_received bs r)))
            idle (find_header-Framed e ok_mem limited (suc (length bs)) (store_received bs r) v')))

  -- Where `new` returns blocks of the size asked for and `g_iMaxNetMsgByte` and a header are at
  -- most 512 MB together: one recv that fits the room behind `pBuf` and brings whole messages below
  -- the limit, and at most a few bytes of the next header, to a connection whose offsets are in its
  -- buffer and which has nothing left over. Then every audio message is enqueued once, whole and in
  -- order, the offsets stay in the buffer, and exactly the bytes behind the last message are left.
  pub receive-frames :
      (r : Receiver) (ms : List Msg) (rest : Bytes)
      → InBounds r
      → r.read_len ≡ 0
      → r.want_read_len ≡ 0
      → AllSendable e.max_net_msg_byte ms
      → length rest < net_msg_header_len
      → length (frames ms ++ rest) ≤ r.buf_size
      → let r' = receive e (frames ms ++ rest) r in
        InBounds r'
        × (blocks r'.calls ≡ blocks r.calls ++ map frame (only_wav ms))
        × (r'.want_read_len ≡ 0)
        × (window r' ≡ rest)
  receive-frames r ms rest v empty idle sendable short fits =
      let f =
        subst (λ x. Framed x (blocks r.calls) (receive e (frames ms ++ rest) r))
          (scan-frames e.max_net_msg_byte (suc (length (frames ms ++ rest))) ms rest sendable
            (omega (arith, length-append (frames ms) rest, length-frames ms)) short)
          (received-Framed (frames ms ++ rest) r v empty idle fits) in
      (
        f.in_bounds,
        f.enqueued ∙ ap (◌++◌ (blocks r.calls)) (wav_only-map-frame e.max_net_msg_byte ms sendable),
        f.awaited,
        f.left,
      )

-- A recv of some bytes that fit the buffer, after one that left bytes over, with the offsets in the
-- buffer: the bytes that count as received are then not the old ones followed by the new ones,
-- whenever the two pieces begin with different bytes.
pub receive_overwrites :
    (bs : Bytes) (r : Receiver)
    → InBounds r
    → 0 < r.read_len
    → 0 < length bs
    → length bs ≤ r.buf_size
    → get_or (window r) 0 0 ≢ get_or bs 0 0
    → window (store_received bs r) ≢ window r ++ bs
receive_overwrites bs r v left some_bytes fits differ same = differ (
    sym (get_or-append 0 (window r) bs 0 (omega (arith, length-window r v)))
    ∙ ap (λ w. get_or w 0 0) (sym same)
    ∙ first)
  where
    first : get_or (window (store_received bs r)) 0 0 ≡ get_or bs 0 0
    first =
        get_or-take 0 (store_received bs r).read_len (at_pbuf (store_received bs r)) 0
          (unfold store_received in omega (arith, left))
        ∙ ap (λ w. get_or w 0 0) (at_pbuf-store_received bs r (omega (arith, v.room, v.sized)))
        ∙ get_or-append 0 bs (drop (r.pbuf + length bs) r.rcv_buf) 0 some_bytes
