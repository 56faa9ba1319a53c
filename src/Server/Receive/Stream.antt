-- ===== src/Server/Receive/Stream.antt =====
-- One run of AudioServer::readFunc over several recvs, up to the one that ends it.
use epoll_based_fault_diagno.Base.{
  ℕ, ◌+◌, ◌*◌, ◌≤◌, ◌≡◌, refl, ap, sym, subst, ◌∙◌, if◌then◌else◌, List, [], ◌∷◌, ◌++◌, map,
  map-append, append_assoc, append-nil, Bytes, arith, length, ℤ, pos, negsuc, Bool-cases, inl, inr,
  ◌==◌,
}
use epoll_based_fault_diagno.Wire.{net_msg_header_len, dt_wav, Msg, frame, frames}
use epoll_based_fault_diagno.Framing.Messages.{AllSendable}
use epoll_based_fault_diagno.Server.Conn.{IsAllocator}
use epoll_based_fault_diagno.Server.Receive.{Receiver, Env, window}
use epoll_based_fault_diagno.Socket.{Errno, would_block}
use epoll_based_fault_diagno.Server.Receive.Loop.{Recv, received, failed, receive, read_loop}
use epoll_based_fault_diagno.Server.Receive.Window.{InBounds, length-window}
use epoll_based_fault_diagno.Server.Receive.Window.Refine.{blocks}
use epoll_based_fault_diagno.Server.Receive.Delivery.{only_wav, receive-frames}

-- Rounds that bring whole messages.
unfoldable pub rounds_of : List (List Msg) → List Recv → List Recv
rounds_of [] last = last
rounds_of (ms ∷ mss) last = received (frames ms) ∷ rounds_of mss last

unfoldable pub concat : List (List Msg) → List Msg
concat [] = []
concat (ms ∷ mss) = ms ++ concat mss

abbrev pub AllSendables : ℕ → List (List Msg) → Type 0
AllSendables max [] = Unit {0}
AllSendables max (ms ∷ mss) = AllSendable max ms × AllSendables max mss

pub only_wav-append : (xs ys : List Msg) → only_wav (xs ++ ys) ≡ only_wav xs ++ only_wav ys
unfolding only_wav
only_wav-append [] ys = refl
only_wav-append (m ∷ xs) ys =
    rw (only_wav-append xs ys)
      (elim (Bool-cases (m.type == dt_wav)) [ inl wav ↦ rw wav | inr skipped ↦ rw skipped ])

-- What readFunc returns for the recv that ends it: 0 for a call that would block or was
-- interrupted, and -1, upon which the connection is closed, for all others.
abbrev pub end_code : Errno → ℤ
end_code err = if would_block err then pos 0 else negsuc 0

module _ (e : Env) where
  -- recv is never asked for more than the room behind `pBuf`: what each round brings fits there.
  abbrev pub Fits : List (List Msg) → Receiver → Type 0
  Fits [] r = Unit {0}
  Fits (ms ∷ mss) r = (length (frames ms) ≤ r.buf_size) × Fits mss (receive e (frames ms) r)

module _ (e : Env) (ok_mem : IsAllocator e.mem)
    (limited : e.max_net_msg_byte + net_msg_header_len ≤ 512 * 1024 * 1024) where
  -- Where `new` returns blocks of the size asked for and `g_iMaxNetMsgByte` and a header are at
  -- most 512 MB together: when every recv but the last fits and brings whole messages below the
  -- limit, to a connection whose offsets are in its buffer and which has nothing left over, and the
  -- last one fails, then all audio messages are enqueued, whole and in the order of the stream,
  -- nothing is left over, the offsets stay in the buffer, and the code is 0 if the failed call
  -- would block or was interrupted and -1 otherwise.
  pub read_loop-frames :
      (r : Receiver) (mss : List (List Msg)) (err : Errno)
      → InBounds r
      → r.read_len ≡ 0
      → r.want_read_len ≡ 0
      → AllSendables e.max_net_msg_byte mss
      → Fits e mss r
      → let out = read_loop e (rounds_of mss (failed err ∷ [])) r in
        (out.0 ≡ end_code err)
        × (blocks out.1.calls ≡ blocks r.calls ++ map frame (only_wav (concat mss)))
        × InBounds out.1
        × (out.1.read_len ≡ 0)
        × (out.1.want_read_len ≡ 0)
  unfolding read_loop rounds_of concat only_wav
  read_loop-frames r [] err v empty idle sendable fits =
      (refl, sym (append-nil (blocks r.calls)), v, empty, idle)
  read_loop-frames r (ms ∷ mss) err v empty idle sendable fits =
      let (v', enq, idle', left) = at_end in
      let done =
        read_loop-frames (receive e (frames ms) r) mss err v'
          (sym (length-window (receive e (frames ms) r) v') ∙ ap length left) idle' sendable.1
          fits.1 in
      (
        done.0,
        done.1
            ∙ ap (λ l. l ++ map frame (only_wav (concat mss))) enq
            ∙ append_assoc (blocks r.calls) (map frame (only_wav ms)) _
            ∙ ap (◌++◌ (blocks r.calls)) (
                sym (map-append frame (only_wav ms) (only_wav (concat mss)))
                ∙ ap (map frame) (sym (only_wav-append ms (concat mss)))),
        done.2,
        done.3,
        done.4,
      )
    where
      at_end :
          let r' = receive e (frames ms) r in
          InBounds r'
          × (blocks r'.calls ≡ blocks r.calls ++ map frame (only_wav ms))
          × (r'.want_read_len ≡ 0)
          × (window r' ≡ [])
      at_end =
          let whole =
            receive-frames e ok_mem limited r ms [] v empty idle sendable.0 (omega arith) in
          rw (append-nil (frames ms)) at (
            whole
              (subst (λ (b : Bytes). length b ≤ r.buf_size) (sym (append-nil (frames ms))) fits.0))
