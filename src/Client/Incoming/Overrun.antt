-- ===== src/Client/Incoming/Overrun.antt =====
-- Where the client reads or writes outside its buffer.
use epoll_based_fault_diagno.Base.{
  ℕ, suc, ◌+◌, ◌<◌, ◌≡◌, refl, sym, ap, ◌∙◌, false, [], ◌∷◌, Bytes, none, some, sub64, length, drop,
  drop-drop, length-drop, Option-cases, inl, inr, lt→ltb, ◌==◌, arith,
}
use epoll_based_fault_diagno.Wire.{confirm_num, net_msg_header_len}
use epoll_based_fault_diagno.Client.Incoming.{
  Incoming, memory, offered_room, store_incoming, confirm_of, search_confirm, accept_confirm,
  resync_incoming, judge_incoming, receive_incoming,
}
use epoll_based_fault_diagno.Client.Incoming.Step.{Sound}

-- Behind messages that were consumed (`pBuf` is not at the front), a recv that brings all the bytes it
-- is offered writes past the end of the buffer.
pub receive_incoming_overruns :
    (mem : ℕ → Bytes) (bs : Bytes) (i : Incoming)
    → Sound i
    → 0 < i.pbuf
    → length bs ≡ offered_room i
    → receive_incoming mem bs i ≡ none
unfolding receive_incoming store_incoming
receive_incoming_overruns mem bs i v moved full =
    rw
      (
        receive_incoming,
        store_incoming,
        lt→ltb (length i.rcv_buf) (i.pbuf + i.read_len + length bs)
            (omega (arith, v.sized, v.bounded, moved, full)),
      )
      refl

-- No position of the memory holds the number that headers begin with.
unfoldable pub Silent : Bytes → Type 0
Silent p = (k n : ℕ) → confirm_of (drop k p) ≡ some n → (confirm_num == n) ≡ false

search_confirm-overruns :
    (limit : ℕ) (p : Bytes) (i : ℕ)
    → i + length p < limit
    → Silent p
    → search_confirm limit p i ≡ none
unfolding search_confirm Silent
search_confirm-overruns limit [] i far silent = rw (lt→ltb i limit (omega arith)) refl
search_confirm-overruns limit (c ∷ p) i far silent =
    let rest = search_confirm-overruns limit p (suc i) (omega arith) (λ k n. silent (suc k) n) in
    elim (Option-cases (confirm_of (c ∷ p))) [
      | inl outside ↦ rw (lt→ltb i limit (omega arith), outside) refl
      | inr (n, at) ↦ rw (lt→ltb i limit (omega arith), at, silent 0 n at) rest
    ]

-- With fewer bytes received than a header has, and no header anywhere in the memory behind `pBuf`,
-- the search for a header, whose limit wraps around, runs past the end of the buffer.
pub judge_incoming_overruns :
    (mem : ℕ → Bytes) (i : Incoming)
    → Sound i
    → i.msg_bytes ≡ 0
    → i.read_len < net_msg_header_len
    → Silent (memory i)
    → judge_incoming mem i ≡ none
unfolding judge_incoming accept_confirm resync_incoming Silent
judge_incoming_overruns mem i v idle short silent =
    let lost : search_confirm (sub64 i.read_len net_msg_header_len) (drop 1 (memory i)) 1 ≡ none =
      search_confirm-overruns (sub64 i.read_len net_msg_header_len) (drop 1 (memory i)) 1
        (omega
          (arith, length-drop 1 (memory i), length-drop i.pbuf i.rcv_buf, v.sized, v.word, short))
        (λ k n e.
          silent (suc k) n
            (ap confirm_of (sym (drop-drop 1 k (suc k) (memory i) (omega arith))) ∙ e)) in
    elim (Option-cases (confirm_of (memory i))) [
      | inl outside ↦ rw (judge_incoming, idle, accept_confirm, outside) refl
      | inr (n, at) ↦
          rw (judge_incoming, idle, accept_confirm, at, silent 0 n at, resync_incoming, lost) refl
    ]
