-- ===== src/Client/Outgoing/Conserved.antt =====
-- The stream of bytes that the client sends is that of its queue.
use epoll_based_fault_diagno.Base.{
  ℕ, ◌+◌, ◌-◌, ◌≤◌, ◌<◌, ◌≡◌, refl, sym, ap, subst, ◌⊎◌, ◌∙◌, true, false, List, [], ◌∷◌, ◌++◌,
  append_assoc, append-nil, Bytes, Option, none, some, add32, length, take, drop, take-append-take,
  drop-drop, take-all, ◌==◌, if◌then◌else◌, Bool-cases, inl, inr, if-cases, arith, ==→eq, ne→==,
}
use epoll_based_fault_diagno.Queue.{IsFifo}
use epoll_based_fault_diagno.Socket.{would_block}
use epoll_based_fault_diagno.Wire.{read_header, net_msg_header_len}
use epoll_based_fault_diagno.Client.Outgoing.{
  SendAnswer, gave, failed, Outgoing, note_idle, load_message, note_sent_bytes, give_up, after_send,
  send_pending, send_round, send_rounds,
}

-- A block that begins with a header for what follows it.
unfoldable pub IsBlock : Bytes → Type 0
IsBlock b = add32 (read_header b).msg_len net_msg_header_len ≡ length b

unfoldable pub AllBlocks : List Bytes → Type 0
unfolding IsBlock
AllBlocks [] = true ≡ true
AllBlocks (b ∷ bs) = IsBlock b × AllBlocks bs

-- send, where it is offered any bytes, takes at least one and no more than those, or fails with -1.
unfoldable pub Takes : SendAnswer → ℕ → Type 0
Takes (gave n errno) want = (want ≡ 0) ⊎ ((0 < n) × (n ≤ want))
Takes (failed errno) want = true ≡ true

-- The bytes of the message in sending that have not gone out.
unfoldable pub pending : Outgoing → Bytes
pending o = take o.want_send_len (drop o.sent_bytes o.send_buf)

unfoldable pub joined : List Bytes → Bytes
joined [] = []
joined (b ∷ bs) = b ++ joined bs

-- What is still to go out.
unfoldable pub due : Outgoing → Bytes
due o = pending o ++ joined o.queue

pending-after_send :
    (answer : SendAnswer) (o : Outgoing)
    → (o.want_send_len == 0) ≡ false
    → Takes answer o.want_send_len
    → (after_send answer o).0 ++ pending (after_send answer o).1 ≡ pending o
unfolding pending after_send Takes note_sent_bytes
pending-after_send (failed errno) o busy takes = refl
pending-after_send (gave n errno) o busy (inl none_left) = ground (arith, none_left, busy)
pending-after_send (gave n errno) o busy (inr (some_bytes, most)) =
    rw (ne→== n 0 (omega arith)) (elim (Bool-cases (o.want_send_len - n == 0)) [
      | inl done ↦
          rw (done, ==→eq (o.want_send_len - n) 0 done)
            (append-nil (take n (drop o.sent_bytes o.send_buf))
              ∙ ap (λ i. take i (drop o.sent_bytes o.send_buf))
                  (omega (arith, ==→eq (o.want_send_len - n) 0 done, most)))
      | inr more ↦ rw more (
          ap (λ rest. take n (drop o.sent_bytes o.send_buf) ++ take (o.want_send_len - n) rest)
            (sym (drop-drop o.sent_bytes n (o.sent_bytes + n) o.send_buf refl))
          ∙ take-append-take n (o.want_send_len - n) o.want_send_len (drop o.sent_bytes o.send_buf)
              (omega arith))
    ])

queue-after_send : (answer : SendAnswer) (o : Outgoing) → (after_send answer o).1.queue ≡ o.queue
unfolding after_send note_sent_bytes give_up
queue-after_send (failed errno) o = refl
queue-after_send (gave n errno) o = elim (Bool-cases (n == 0)) [
  | inl nothing ↦ elim (Bool-cases (would_block errno)) [
    | inl wait ↦ rw (nothing, wait) refl
    | inr broken ↦ rw (nothing, broken) refl
  ]
  | inr some_bytes ↦ rw some_bytes refl
]

-- What a step has put on the network, and what is due after it, is what was due.
abbrev pub Keeps : Outgoing → Bytes × Outgoing → Type 0
Keeps o (wire, o') = (wire ++ due o' ≡ due o) × AllBlocks o'.queue

send_pending-Keeps :
    (answer : SendAnswer) (o : Outgoing)
    → Takes answer o.want_send_len
    → AllBlocks o.queue
    → Keeps o (send_pending answer o)
unfolding send_pending due
send_pending-Keeps answer o takes blocks =
    if-cases (Keeps o) (o.want_send_len == 0) ([], o) (after_send answer o) (λ idle. (refl, blocks))
      (λ busy. (
        sym (
              append_assoc (after_send answer o).0 (pending (after_send answer o).1)
                (joined (after_send answer o).1.queue))
            ∙ ap (λ p. p ++ joined (after_send answer o).1.queue)
                (pending-after_send answer o busy takes)
            ∙ ap (λ q. pending o ++ joined q) (queue-after_send answer o),
        subst AllBlocks (sym (queue-after_send answer o)) blocks,
      ))

pub List-cases {ℓ} :
    {A : Type ℓ} (xs : List A) → (xs ≡ []) ⊎ ((y : A) × (ys : List A) × (xs ≡ y ∷ ys))
List-cases [] = inl refl
List-cases (x ∷ xs) = inr (x, xs, refl)

module _ (dequeue : List Bytes → Option (Bytes × List Bytes)) (fifo : IsFifo dequeue) where
  -- The bytes that send is offered in a round.
  unfoldable pub offered : Outgoing → ℕ
  offered o =
      if o.want_send_len == 0
      then (elim (dequeue o.queue) as (λ _. ℕ) [
        | none ↦ 0
        | some (block, rest) ↦ add32 (read_header block).msg_len net_msg_header_len
      ])
      else o.want_send_len

  pub due_idle : (o : Outgoing) → o.want_send_len ≡ 0 → due o ≡ joined o.queue
  unfolding due pending
  due_idle o idle = rw idle refl

  -- A block that is loaded is due as it was.
  load-Keeps :
      (answer : SendAnswer) (o : Outgoing) (b : Bytes) (bs : List Bytes)
      → o.want_send_len ≡ 0
      → o.queue ≡ b ∷ bs
      → AllBlocks (b ∷ bs)
      → Takes answer (add32 (read_header b).msg_len net_msg_header_len)
      → Keeps o (send_pending answer (load_message b bs o))
  unfolding AllBlocks IsBlock load_message due pending joined
  load-Keeps answer o b bs idle at (block, blocks) takes =
      let (same_due, blocks') = send_pending-Keeps answer (load_message b bs o) takes blocks in
      (same_due ∙ loaded_due ∙ sym (due_idle o idle ∙ ap joined at), blocks')
    where
      loaded_due : due (load_message b bs o) ≡ b ++ joined bs
      loaded_due =
          ap (λ n. take n b ++ joined bs) block
          ∙ ap (λ p. p ++ joined bs) (take-all (length b) b (omega arith))

  idle_round-Keeps :
      (answer : SendAnswer) (o : Outgoing)
      → o.want_send_len ≡ 0
      → AllBlocks o.queue
      → Takes answer (elim (dequeue o.queue) as (λ _. ℕ) [
        | none ↦ 0
        | some (block, rest) ↦ add32 (read_header block).msg_len net_msg_header_len
      ])
      → Keeps o (elim (dequeue o.queue) as (λ _. Bytes × Outgoing) [
        | none ↦ ([], note_idle o)
        | some (block, rest) ↦ send_pending answer (load_message block rest o)
      ])
  unfolding note_idle due pending
  idle_round-Keeps answer o idle blocks takes = elim (List-cases o.queue) [
    | inl nothing ↦ rw (ap dequeue nothing ∙ fifo.on_empty) (refl, blocks)
    | inr (b, bs, at) ↦
        let taken : dequeue o.queue ≡ some (b, bs) = ap dequeue at ∙ fifo.on_block b bs in
        rw taken (load-Keeps answer o b bs idle at (subst AllBlocks at blocks) (rw taken at takes))
  ]

  pub send_round-Keeps :
      (answer : SendAnswer) (o : Outgoing)
      → AllBlocks o.queue
      → Takes answer (offered o)
      → Keeps o (send_round dequeue answer o)
  unfolding send_round offered
  send_round-Keeps answer o blocks takes =
      if-cases (Keeps o) (o.want_send_len == 0)
        (elim (dequeue o.queue) as (λ _. Bytes × Outgoing) [
          | none ↦ ([], note_idle o)
          | some (block, rest) ↦ send_pending answer (load_message block rest o)
        ])
        (send_pending answer o)
        (λ idle.
          idle_round-Keeps answer o (==→eq o.want_send_len 0 idle) blocks
            (rw (offered, idle) at takes))
        (λ busy. send_pending-Keeps answer o (rw (offered, busy) at takes) blocks)

  -- Each send of the rounds takes what it may.
  unfoldable pub AllTake : List SendAnswer → Outgoing → Type 0
  unfolding Takes offered
  AllTake [] o = true ≡ true
  AllTake (answer ∷ answers) o =
      Takes answer (offered o) × AllTake answers (send_round dequeue answer o).1

  -- Over any number of rounds, where DeDataQueue takes the oldest block, the blocks begin with
  -- headers for what follows, and send takes between one and all of the bytes it is offered or fails
  -- with -1 (for whatever reason): what has gone over the network, then what is left of the message
  -- in sending, then the queue, is the stream of bytes that was due before. Nothing is lost,
  -- repeated or out of order.
  pub send_rounds-Keeps :
      (answers : List SendAnswer) (o : Outgoing)
      → AllBlocks o.queue
      → AllTake answers o
      → (send_rounds dequeue answers o).0 ++ due (send_rounds dequeue answers o).1 ≡ due o
  unfolding send_rounds AllTake
  send_rounds-Keeps [] o blocks takes = refl
  send_rounds-Keeps (answer ∷ answers) o blocks (take_one, take_more) =
      let (same_due, blocks') = send_round-Keeps answer o blocks take_one in
      append_assoc (send_round dequeue answer o).0 _ _
      ∙ ap (◌++◌ (send_round dequeue answer o).0)
          (send_rounds-Keeps answers (send_round dequeue answer o).1 blocks' take_more)
      ∙ same_due
