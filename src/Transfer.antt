-- ===== src/Transfer.antt =====
-- From the queue of the client to the queues of the server: ClientManagement::netWorkFunc
-- (audioclient/ClientManage.cpp) on one side and AudioServer::readFunc (audioserver/AudioServer.cpp)
-- on the other, with a network between them that keeps the order of the bytes.
pub mod Clients
use epoll_based_fault_diagno.Base.{
  ℕ, ◌+◌, ◌*◌, ◌≤◌, ◌≡◌, refl, ap, sym, subst, ◌∙◌, List, [], ◌∷◌, ◌++◌, map, append_assoc,
  append-nil, Bytes, Option, arith, add32, length,
}
use epoll_based_fault_diagno.Socket.{Errno}
use epoll_based_fault_diagno.Wire.{
  NetMsgHeader, net_msg_header_len, read_header, Msg, frame, frames, IsSendable,
}
use epoll_based_fault_diagno.Wire.Codec.{read_header-frame, length-frame}
use epoll_based_fault_diagno.Framing.{Framing, scan}
use epoll_based_fault_diagno.Framing.Messages.{AllSendable, scan-frames}
use epoll_based_fault_diagno.Client.Outgoing.{SendAnswer, Outgoing, send_rounds}
use epoll_based_fault_diagno.Client.Outgoing.Conserved.{
  IsBlock, AllBlocks, joined, due_idle, AllTake,
}
use epoll_based_fault_diagno.Queue.{IsFifo}
use epoll_based_fault_diagno.Client.Outgoing.Drained.{gives, send_rounds_drain}
use epoll_based_fault_diagno.Server.Conn.{IsAllocator}
use epoll_based_fault_diagno.Server.Receive.{Receiver, Env}
use epoll_based_fault_diagno.Server.Receive.Loop.{failed, read_loop}
use epoll_based_fault_diagno.Server.Receive.Window.{InBounds}
use epoll_based_fault_diagno.Server.Receive.Window.Refine.{blocks, wav_only}
use epoll_based_fault_diagno.Server.Receive.Delivery.{only_wav, wav_only-map-frame}
use epoll_based_fault_diagno.Server.Receive.Stream.{
  rounds_of, concat, AllSendables, Fits, read_loop-frames,
}

frame-IsBlock :
    (max : ℕ) (m : Msg)
    → max + net_msg_header_len ≤ 512 * 1024 * 1024
    → IsSendable max m
    → IsBlock (frame m)
unfolding IsBlock
frame-IsBlock max m limited s =
    ap (λ b. add32 (read_header b).msg_len net_msg_header_len) (sym (append-nil (frame m)))
    ∙ ap (λ (h : NetMsgHeader). add32 h.msg_len net_msg_header_len) (read_header-frame max m [] s)
    ∙ omega (arith, length-frame m, s.len_below)

map-frame-AllBlocks :
    (max : ℕ) (ms : List Msg)
    → max + net_msg_header_len ≤ 512 * 1024 * 1024
    → AllSendable max ms
    → AllBlocks (map frame ms)
unfolding AllBlocks
map-frame-AllBlocks max [] limited s = refl
map-frame-AllBlocks max (m ∷ ms) limited s =
    (frame-IsBlock max m limited s.0, map-frame-AllBlocks max ms limited s.1)

joined-map-frame : (ms : List Msg) → joined (map frame ms) ≡ frames ms
unfolding joined frames
joined-map-frame [] = refl
joined-map-frame (m ∷ ms) = ap (λ b. frame m ++ b) (joined-map-frame ms)

frames-append : (xs ys : List Msg) → frames (xs ++ ys) ≡ frames xs ++ frames ys
unfolding frames
frames-append [] ys = refl
frames-append (m ∷ xs) ys =
    ap (λ b. frame m ++ b) (frames-append xs ys)
    ∙ sym (append_assoc (frame m) (frames xs) (frames ys))

pub joined-map-frames : (mss : List (List Msg)) → joined (map frames mss) ≡ frames (concat mss)
unfolding joined concat frames
joined-map-frames [] = refl
joined-map-frames (ms ∷ mss) =
    ap (λ b. frames ms ++ b) (joined-map-frames mss) ∙ sym (frames-append ms (concat mss))

append-AllSendable :
    (max : ℕ) (xs ys : List Msg)
    → AllSendable max xs
    → AllSendable max ys
    → AllSendable max (xs ++ ys)
append-AllSendable max [] ys s t = t
append-AllSendable max (m ∷ xs) ys s t = (s.0, append-AllSendable max xs ys s.1 t)

pub concat-AllSendable :
    (max : ℕ) (mss : List (List Msg)) → AllSendables max mss → AllSendable max (concat mss)
unfolding concat
concat-AllSendable max [] s = tt
concat-AllSendable max (ms ∷ mss) s =
    append-AllSendable max ms (concat mss) s.0 (concat-AllSendable max mss s.1)

-- The bytes of a stream determine its messages.
pub frames_unique :
    (max : ℕ) (xs ys : List Msg)
    → AllSendable max xs
    → AllSendable max ys
    → frames xs ≡ frames ys
    → map frame xs ≡ map frame ys
frames_unique max xs ys s t same =
    ap (λ (f : Framing). f.found)
      (sym (scan-frames max (length xs + length ys) xs [] s (omega arith) (omega arith))
        ∙ ap (λ b. scan max (length xs + length ys) 0 (b ++ [])) same
        ∙ scan-frames max (length xs + length ys) ys [] t (omega arith) (omega arith))

module _ (e : Env) (ok_mem : IsAllocator e.mem)
    (limited : e.max_net_msg_byte + net_msg_header_len ≤ 512 * 1024 * 1024)
    (dequeue : List Bytes → Option (Bytes × List Bytes)) (fifo : IsFifo dequeue) where
  -- The client puts the frames of its messages on the network.
  pub sent-frames :
      (ms : List Msg) (o : Outgoing) (answers : List SendAnswer)
      → o.want_send_len ≡ 0
      → o.queue ≡ map frame ms
      → AllSendable e.max_net_msg_byte ms
      → AllTake dequeue fifo answers o
      → length (frames ms) ≤ gives answers
      → (send_rounds dequeue answers o).0 ≡ frames ms
  sent-frames ms o answers idle queued sendable takes enough =
      (send_rounds_drain dequeue fifo answers o
        (subst AllBlocks (sym queued) (map-frame-AllBlocks e.max_net_msg_byte ms limited sendable))
        takes (omega (arith, idle, enough, ap length waiting))).0
      ∙ due_idle dequeue fifo o idle
      ∙ waiting
    where
      waiting : joined o.queue ≡ frames ms
      waiting = ap joined queued ∙ joined-map-frame ms

  -- The client has messages below the server's limit in its queue and nothing in sending, and sends
  -- until as many calls of send did not fail as there are bytes, each taking between one and all of
  -- the bytes it is offered. What went out arrives at a server with nothing left over, in pieces that
  -- fit its buffer and hold whole messages each, and then recv fails. Then the blocks that the server
  -- enqueues are the client's audio messages, each once, whole and in order.
  pub transfer-delivers :
      (ms : List Msg) (o : Outgoing) (answers : List SendAnswer) (mss : List (List Msg))
      (r : Receiver) (err : Errno)
      → o.want_send_len ≡ 0
      → o.queue ≡ map frame ms
      → AllSendable e.max_net_msg_byte ms
      → AllTake dequeue fifo answers o
      → length (frames ms) ≤ gives answers
      → joined (map frames mss) ≡ (send_rounds dequeue answers o).0
      → InBounds r
      → r.read_len ≡ 0
      → r.want_read_len ≡ 0
      → AllSendables e.max_net_msg_byte mss
      → Fits e mss r
      → blocks (read_loop e (rounds_of mss (failed err ∷ [])) r).1.calls
        ≡ blocks r.calls ++ map frame (only_wav ms)
  transfer-delivers ms o answers mss r err idle queued sendable takes enough arrives v empty
        none_wanted sendables fits =
      (read_loop-frames e ok_mem limited r mss err v empty none_wanted sendables fits).1
      ∙ ap (λ l. blocks r.calls ++ l) same_wav
    where
      max : ℕ
      max = e.max_net_msg_byte

      same_stream : frames (concat mss) ≡ frames ms
      same_stream =
          sym (joined-map-frames mss)
          ∙ arrives
          ∙ sent-frames ms o answers idle queued sendable takes enough

      same_wav : map frame (only_wav (concat mss)) ≡ map frame (only_wav ms)
      same_wav =
          sym (wav_only-map-frame max (concat mss) (concat-AllSendable max mss sendables))
          ∙ ap wav_only (
              frames_unique max (concat mss) ms (concat-AllSendable max mss sendables) sendable
                same_stream)
          ∙ wav_only-map-frame max ms sendable
