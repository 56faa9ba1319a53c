-- ===== src/Tests/Transfers.antt =====
-- From a client with one message of an empty body to the server.
use epoll_based_fault_diagno.Base.{
  Bytes, ◌+◌, ◌≤◌, ◌≡◌, refl, inl, inr, List, [], ◌∷◌, map, replicate, length, arith,
}
use epoll_based_fault_diagno.Socket.{eintr, other}
use epoll_based_fault_diagno.Wire.{Msg, frame, frames, header_bytes, read_header}
use epoll_based_fault_diagno.Framing.Messages.{AllSendable}
use epoll_based_fault_diagno.Client.Outgoing.{
  PcmStats, SendAnswer, gave, failed, Outgoing, send_rounds, send_round, send_pending, after_send,
  note_sent_bytes, load_message, note_idle,
}
use epoll_based_fault_diagno.Client.Outgoing.Conserved.{
  AllTake, Takes, offered, joined, due, AllBlocks, IsBlock,
}
use epoll_based_fault_diagno.Client.Outgoing.Drained.{gives, send_rounds_drain}
use epoll_based_fault_diagno.Tests.Clients.{head_first, head_first-IsFifo, one_queued}

abbrev empty_msg : Msg
empty_msg = record { type = 0; body = [] }

abbrev pub one_msg : List Msg
one_msg = empty_msg ∷ []

abbrev pub sender : Outgoing
sender = record one_queued { queue = map frame one_msg }

-- The message goes out in two pieces, with a failure between them.
abbrev pub answers : List SendAnswer
answers = gave 5 eintr ∷ failed other ∷ gave 7 eintr ∷ replicate 10 (gave 1 eintr)

pub one_msg-AllSendable : AllSendable 100 one_msg
one_msg-AllSendable =
    (record { type_byte = omega arith; len_word = omega arith; len_below = omega arith }, tt)

pub answers-AllTake : AllTake head_first head_first-IsFifo answers sender
unfolding AllTake Takes offered send_round send_pending after_send note_sent_bytes load_message
    read_header frame header_bytes note_idle
answers-AllTake = (
  inr (omega arith, omega arith),
  (
    refl,
    (
      inr (omega arith, omega arith),
      (
        inl refl,
        (
          inl refl,
          (
            inl refl,
            (
              inl refl,
              (inl refl, (inl refl, (inl refl, (inl refl, (inl refl, (inl refl, refl)))))),
            ),
          ),
        ),
      ),
    ),
  ),
)

sender-AllBlocks : AllBlocks sender.queue
unfolding AllBlocks IsBlock read_header frame header_bytes
sender-AllBlocks = (refl, refl)

enough : 0 + length (joined sender.queue) ≤ gives answers
unfolding gives joined frame header_bytes
enough = omega arith

send_rounds_drain_example :
    ((send_rounds head_first answers sender).0 ≡ due sender)
    × (due (send_rounds head_first answers sender).1 ≡ [])
send_rounds_drain_example =
    send_rounds_drain head_first head_first-IsFifo answers sender sender-AllBlocks answers-AllTake
      enough

pub as_frames : length (frames one_msg) ≤ gives answers
unfolding gives frames frame header_bytes
as_frames = omega arith

-- "hello world" with its newline and the zero behind it, as the client's main sends it.
abbrev hello : Bytes
hello = 104 ∷ 101 ∷ 108 ∷ 108 ∷ 111 ∷ 32 ∷ 119 ∷ 111 ∷ 114 ∷ 108 ∷ 100 ∷ 10 ∷ 0 ∷ []

abbrev no_pcm : PcmStats
no_pcm = record { wrong_block_cnt = 0; pcm_block_cnt = 0 }
