-- ===== src/Client/Outgoing/Drained.antt =====
-- The client gets rid of its queue.
use epoll_based_fault_diagno.Base.{
  ℕ, suc, ◌+◌, ◌-◌, ◌≤◌, ◌<◌, ◌≡◌, refl, sym, ap, subst, ◌⊎◌, ◌∙◌, true, List, [], ◌∷◌, ◌++◌,
  append-nil, Bytes, Option, none, some, add32, length, length-append, ◌==◌, Bool-cases, inl, inr,
  arith, ==→eq, ne→==,
}
use epoll_based_fault_diagno.Socket.{Errno}
use epoll_based_fault_diagno.Wire.{read_header, net_msg_header_len}
use epoll_based_fault_diagno.Client.Outgoing.{
  SendAnswer, gave, failed, Outgoing, note_idle, load_message, note_sent_bytes, after_send,
  send_pending, send_round, send_rounds,
}
use epoll_based_fault_diagno.Client.Outgoing.Conserved.{
  IsBlock, AllBlocks, Takes, pending, joined, due, offered, AllTake, send_round-Keeps,
  send_rounds-Keeps, List-cases,
}
use epoll_based_fault_diagno.Queue.{IsFifo}

length-eq-zero : (xs : Bytes) → length xs ≡ 0 → xs ≡ []
length-eq-zero [] h = refl
length-eq-zero (x ∷ xs) h = absurd (omega (arith, h))

-- The sends that did not fail.
unfoldable pub gives : List SendAnswer → ℕ
gives [] = 0
gives (gave n errno ∷ answers) = suc (gives answers)
gives (failed errno ∷ answers) = gives answers

-- The bytes that wait, by the counters.
abbrev pub remaining : Outgoing → ℕ
remaining o = o.want_send_len + length (joined o.queue)

-- No block is empty: an empty one would begin with a header of zeros.
block_nonempty : (b : Bytes) → IsBlock b → 0 < length b
unfolding IsBlock read_header
block_nonempty [] h = ground (arith, h)
block_nonempty (x ∷ b) h = omega arith

wanted-block : (b : Bytes) → IsBlock b → 0 < add32 (read_header b).msg_len net_msg_header_len
unfolding IsBlock
wanted-block b h = omega (arith, block_nonempty b h, h)

-- Behind a send that did not fail, fewer bytes wait.
send_pending_gave :
    (n : ℕ) (errno : Errno) (o : Outgoing)
    → 0 < o.want_send_len
    → Takes (gave n errno) o.want_send_len
    → remaining (send_pending (gave n errno) o).1 < remaining o
unfolding send_pending after_send note_sent_bytes Takes
send_pending_gave n errno o busy (inl idle) = absurd (omega arith)
send_pending_gave n errno o busy (inr (some_bytes, most)) =
    rw (ne→== o.want_send_len 0 (omega arith), ne→== n 0 (omega arith)) (omega arith)

send_pending_failed : (errno : Errno) (o : Outgoing) → (send_pending (failed errno) o).1 ≡ o
unfolding send_pending after_send
send_pending_failed errno o = ground arith

module _ (dequeue : List Bytes → Option (Bytes × List Bytes)) (fifo : IsFifo dequeue) where
  -- A round with nothing in sending, on the queue that there is.
  idle_round :
      (answer : SendAnswer) (o : Outgoing)
      → (o.want_send_len == 0) ≡ true
      → ((o.queue ≡ [])
          × (send_round dequeue answer o ≡ ([], note_idle o))
          × (offered dequeue fifo o ≡ 0))
        ⊎ ((b : Bytes) × (bs : List Bytes) × (o.queue ≡ b ∷ bs)
            × (send_round dequeue answer o ≡ send_pending answer (load_message b bs o))
            × (offered dequeue fifo o ≡ add32 (read_header b).msg_len net_msg_header_len))
  unfolding send_round offered
  idle_round answer o idle = elim (List-cases o.queue) [
    | inl nothing ↦
        let none_left : dequeue o.queue ≡ none = ap dequeue nothing ∙ fifo.on_empty in
        inl (nothing, rw (send_round, idle, none_left) refl, rw (offered, idle, none_left) refl)
    | inr (b, bs, at) ↦
        let taken : dequeue o.queue ≡ some (b, bs) = ap dequeue at ∙ fifo.on_block b bs in
        inr (b, bs, at, rw (send_round, idle, taken) refl, rw (offered, idle, taken) refl)
  ]

  remaining-load :
      (b : Bytes) (bs : List Bytes) (o : Outgoing)
      → o.want_send_len ≡ 0
      → o.queue ≡ b ∷ bs
      → IsBlock b
      → remaining (load_message b bs o) ≡ remaining o
  unfolding load_message IsBlock joined
  remaining-load b bs o idle at block =
      omega (arith, ap (λ q. length (joined q)) at, length-append b (joined bs), block, idle)

  -- A round finds nothing to send, or it is a send for a client with as much to send.
  Progress : SendAnswer → Outgoing → Type 0
  Progress answer o =
      ((remaining o ≡ 0) × (remaining (send_round dequeue answer o).1 ≡ 0))
      ⊎ ((o' : Outgoing) × (send_round dequeue answer o ≡ send_pending answer o')
          × (offered dequeue fifo o ≡ o'.want_send_len)
          × (0 < o'.want_send_len)
          × (remaining o' ≡ remaining o))

  send_round-Progress : (answer : SendAnswer) (o : Outgoing) → AllBlocks o.queue → Progress answer o
  unfolding Progress AllBlocks joined load_message note_idle
  send_round-Progress answer o blocks = elim (Bool-cases (o.want_send_len == 0)) [
    | inl idle ↦ elim (idle_round answer o idle) [
      | inl (nothing, round, offers) ↦ inl (
        ground (arith, ap (λ q. length (joined q)) nothing, idle),
        rw round (ground (arith, ap (λ q. length (joined q)) nothing, idle)),
      )
      | inr (b, bs, at, round, offers) ↦
          let fine : AllBlocks (b ∷ bs) = subst AllBlocks at blocks in
          inr (
            load_message b bs o,
            round,
            offers,
            wanted-block b fine.0,
            remaining-load b bs o (==→eq o.want_send_len 0 idle) at fine.0,
          )
    ]
    | inr busy ↦ inr (
      o,
      (unfold send_round in rw busy refl),
      (unfold offered in rw busy refl),
      ground (arith, busy),
      refl,
    )
  ]

  send_round_failed :
      (errno : Errno) (o : Outgoing)
      → AllBlocks o.queue
      → remaining (send_round dequeue (failed errno) o).1 ≤ remaining o
  unfolding Progress
  send_round_failed errno o blocks = elim (send_round-Progress (failed errno) o blocks) [
    | inl (nothing, still) ↦ omega (arith, still)
    | inr (o', round, offers, busy, same) ↦
        rw (round, send_pending_failed errno o') (omega (arith, same))
  ]

  send_round_gave :
      (n : ℕ) (errno : Errno) (o : Outgoing)
      → AllBlocks o.queue
      → Takes (gave n errno) (offered dequeue fifo o)
      → remaining (send_round dequeue (gave n errno) o).1 ≤ remaining o - 1
  unfolding Progress
  send_round_gave n errno o blocks takes = elim (send_round-Progress (gave n errno) o blocks) [
    | inl (nothing, still) ↦ omega (arith, still)
    | inr (o', round, offers, busy, same) ↦
        rw round (omega (arith, same, send_pending_gave n errno o' busy (rw offers at takes)))
  ]

  remaining-send_rounds :
      (answers : List SendAnswer) (o : Outgoing)
      → AllBlocks o.queue
      → AllTake dequeue fifo answers o
      → remaining (send_rounds dequeue answers o).1 ≤ remaining o - gives answers
  unfolding send_rounds AllTake gives
  remaining-send_rounds [] o blocks takes = omega arith
  remaining-send_rounds (gave n errno ∷ answers) o blocks (take_one, take_more) = omega (
    arith,
    send_round_gave n errno o blocks take_one,
    remaining-send_rounds answers (send_round dequeue (gave n errno) o).1
        (send_round-Keeps dequeue fifo (gave n errno) o blocks take_one).1 take_more,
  )
  remaining-send_rounds (failed errno ∷ answers) o blocks (take_one, take_more) = omega (
    arith,
    send_round_failed errno o blocks,
    remaining-send_rounds answers (send_round dequeue (failed errno) o).1
        (send_round-Keeps dequeue fifo (failed errno) o blocks take_one).1 take_more,
  )

  drained_due : (o : Outgoing) → remaining o ≡ 0 → due o ≡ []
  unfolding due pending
  drained_due o empty = ground (arith, empty, length-eq-zero (joined o.queue))

  -- Over rounds in which DeDataQueue takes the oldest block, the blocks begin with headers for what
  -- follows, and send takes between one and all of the bytes it is offered or fails with -1: when at
  -- least as many sends do not fail as there are bytes in sending and in the queue, then, however
  -- many others fail in between, all that was due has gone over the network, in order, and nothing
  -- is due any more.
  pub send_rounds_drain :
      (answers : List SendAnswer) (o : Outgoing)
      → AllBlocks o.queue
      → AllTake dequeue fifo answers o
      → o.want_send_len + length (joined o.queue) ≤ gives answers
      → ((send_rounds dequeue answers o).0 ≡ due o) × (due (send_rounds dequeue answers o).1 ≡ [])
  send_rounds_drain answers o blocks takes enough =
      let nothing =
        drained_due (send_rounds dequeue answers o).1
          (omega (arith, remaining-send_rounds answers o blocks takes)) in
      (
        sym (append-nil (send_rounds dequeue answers o).0)
            ∙ ap (λ d. (send_rounds dequeue answers o).0 ++ d) (sym nothing)
            ∙ send_rounds-Keeps dequeue fifo answers o blocks takes,
        nothing,
      )
