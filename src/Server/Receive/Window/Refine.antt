-- ===== src/Server/Receive/Window/Refine.antt =====
-- The loop under FindHeader computes the framing of the window: it enqueues the messages that stand
-- whole in it and leaves the rest, wherever in the buffer the bytes stand.
use epoll_based_fault_diagno.Base.{
  ℕ, zero, suc, ◌+◌, ◌-◌, ◌*◌, ◌≤◌, ◌≡◌, ◌≢◌, refl, ap, sym, subst, ◌∙◌, Bool, true, not, ◌&&◌, inl,
  inr, List, [], ◌∷◌, ◌++◌, map, map-append, append_assoc, append-nil, Bytes, arith, length, take,
  drop, drop-take, drop-drop, take-take, Bool-cases, leb, ◌==◌, if◌then◌else◌,
}
use epoll_based_fault_diagno.Wire.{net_msg_header_len, read_header, dt_wav}
use epoll_based_fault_diagno.Wire.Codec.{read_header-take}
use epoll_based_fault_diagno.Framing.{Framing, cut, scan}
use epoll_based_fault_diagno.Server.Conn.{IsAllocator}
use epoll_based_fault_diagno.Server.Receive.{
  Receiver, Env, EnqueueCall, at_pbuf, window, judge_header, move_forward, deliver, consume,
  take_message, find_header_once, call_of, enqueue_block,
}
use epoll_based_fault_diagno.Server.Receive.Loop.{find_header}
use epoll_based_fault_diagno.Server.Receive.Window.{InBounds, length-window, move_forward-Moved}
use epoll_based_fault_diagno.Server.Receive.Window.Judge.{Judged, judge_header-Judged}

-- The messages given to EnDataQueue so far, header included.
abbrev pub blocks : List EnqueueCall → List Bytes
blocks = map (λ c. c.block)

-- The server passes on messages of type DT_WAV and drops the others.
abbrev pub is_wav : Bytes → Bool
is_wav b = (read_header b).msg_type == dt_wav

unfoldable pub wav_only : List Bytes → List Bytes
wav_only [] = []
wav_only (b ∷ bs) = if is_wav b then b ∷ wav_only bs else wav_only bs

wav_only-cons : (b : Bytes) (bs : List Bytes) → wav_only (b ∷ bs) ≡ wav_only (b ∷ []) ++ wav_only bs
unfolding wav_only
wav_only-cons b bs = ground arith

deliver-calls :
    (e : Env) (r : Receiver)
    → net_msg_header_len ≤ r.want_read_len
    → blocks (deliver e r).calls
      ≡ blocks r.calls ++ wav_only (take r.want_read_len (at_pbuf r) ∷ [])
unfolding deliver enqueue_block call_of wav_only
deliver-calls e r h =
    rw (read_header-take r.want_read_len (at_pbuf r) h)
      (elim (Bool-cases ((read_header (at_pbuf r)).msg_type == dt_wav)) [
        | inl wav ↦ rw wav (map-append (λ c. c.block) r.calls (call_of e r ∷ []))
        | inr other ↦ rw other (sym (append-nil (blocks r.calls)))
      ])

-- Delivering leaves the connection and the pointers alone.
pub record SameBuffer (r r' : Receiver) : Type 0 where
  pub conn_eq : r'.conn ≡ r.conn
  pub pbuf_eq : r'.pbuf ≡ r.pbuf
  pub buf_size_eq : r'.buf_size ≡ r.buf_size

pub deliver-SameBuffer : (e : Env) (r : Receiver) → SameBuffer r (deliver e r)
unfolding deliver enqueue_block
deliver-SameBuffer e r = elim (Bool-cases ((read_header (at_pbuf r)).msg_type == dt_wav)) [
  | inl wav ↦ rw wav (record { conn_eq = refl; pbuf_eq = refl; buf_size_eq = refl })
  | inr other ↦ rw other (record { conn_eq = refl; pbuf_eq = refl; buf_size_eq = refl })
]

SameBuffer-InBounds : (r r' : Receiver) → SameBuffer r r' → InBounds r → InBounds r'
SameBuffer-InBounds r r' s v = record {
  synced = rw (s.conn_eq, s.pbuf_eq) v.synced;
  room = rw (s.conn_eq, s.pbuf_eq, s.buf_size_eq) v.room;
  sized = rw s.conn_eq v.sized;
  bounded = rw (s.conn_eq, s.pbuf_eq) v.bounded;
  want_len = rw s.conn_eq v.want_len;
}

consume-InBounds : (r : Receiver) → InBounds r → r.want_read_len ≤ r.read_len → InBounds (consume r)
unfolding consume
consume-InBounds r v h = record {
  synced = refl;
  room = omega (arith, v.synced, v.bounded);
  sized = v.sized;
  bounded = omega (arith, v.synced, v.bounded);
  want_len = inl refl;
}

consume-window :
    (r : Receiver)
    → InBounds r
    → r.want_read_len ≤ r.read_len
    → window (consume r) ≡ drop r.want_read_len (window r)
unfolding consume
consume-window r v h = rw (← v.synced) (
    ap (take (r.read_len - r.want_read_len))
      (sym (drop-drop r.pbuf r.want_read_len (r.pbuf + r.want_read_len) r.rcv_buf refl))
    ∙ sym (
        drop-take r.want_read_len r.read_len (r.read_len - r.want_read_len) (at_pbuf r)
          (omega arith)))

pub consumed-InBounds :
    (e : Env) (r : Receiver)
    → InBounds r
    → r.want_read_len ≤ r.read_len
    → InBounds (consume (deliver e r))
consumed-InBounds e r v h =
    let s = deliver-SameBuffer e r in
    consume-InBounds (deliver e r) (SameBuffer-InBounds r _ s v) (rw s.conn_eq h)

pub consumed-window :
    (e : Env) (r : Receiver)
    → InBounds r
    → r.want_read_len ≤ r.read_len
    → window (consume (deliver e r)) ≡ drop r.want_read_len (window r)
consumed-window e r v h =
    let s = deliver-SameBuffer e r in
    consume-window (deliver e r) (SameBuffer-InBounds r _ s v) (rw s.conn_eq h)
    ∙ rw (s.conn_eq, s.pbuf_eq)

consumed-calls :
    (e : Env) (r : Receiver)
    → InBounds r
    → r.want_read_len ≢ 0
    → r.want_read_len ≤ r.read_len
    → blocks (consume (deliver e r)).calls
      ≡ blocks r.calls ++ wav_only (take r.want_read_len (window r) ∷ [])
unfolding consume
consumed-calls e r v n h =
    rw (take-take r.want_read_len r.read_len (at_pbuf r) h)
      (deliver-calls e r (elim v.want_len [ inl z ↦ absurd (n z) | inr l ↦ l ]))

-- The receiver stands where the framing does, and has enqueued what the framing found.
pub record Framed (f : Framing) (before : List Bytes) (r : Receiver) : Type 0 where
  pub in_bounds : InBounds r
  pub enqueued : blocks r.calls ≡ before ++ wav_only f.found
  pub awaited : r.want_read_len ≡ f.want
  pub left : window r ≡ f.rest

Framed-later :
    (b : Bytes) (before after : List Bytes) (later : Framing) (r : Receiver)
    → after ≡ before ++ wav_only (b ∷ [])
    → Framed later after r
    → Framed (record later { found = b ∷ later.found }) before r
Framed-later b before after later r e f = record {
  in_bounds = f.in_bounds;
  enqueued =
      f.enqueued
      ∙ ap (λ l. l ++ wav_only later.found) e
      ∙ append_assoc before (wav_only (b ∷ [])) (wav_only later.found)
      ∙ ap (◌++◌ before) (sym (wav_only-cons b later.found));
  awaited = f.awaited;
  left = f.left;
}

-- One whole message cut off, and what is behind it left or framed in turn.
cut_off-Framed :
    (e : Env) (r r' : Receiver) (later : Framing)
    → InBounds r
    → r.want_read_len ≢ 0
    → r.want_read_len ≤ r.read_len
    → Framed later (blocks (consume (deliver e r)).calls) r'
    → Framed
        (if leb net_msg_header_len (length (drop r.want_read_len (window r)))
          then record later { found = take r.want_read_len (window r) ∷ later.found }
          else record {
            found = take r.want_read_len (window r) ∷ [];
            want = 0;
            rest = drop r.want_read_len (window r);
          })
        (blocks r.calls)
        (if leb net_msg_header_len (consume (deliver e r)).read_len
          then r'
          else consume (deliver e r))
cut_off-Framed e r r' later v n h rest =
    rw left_len (elim (Bool-cases (leb net_msg_header_len (consume (deliver e r)).read_len)) [
      | inl more ↦ rw more (
          Framed-later (take r.want_read_len (window r)) (blocks r.calls) _ later r'
            (consumed-calls e r v n h) rest)
      | inr short ↦ rw short (record {
        in_bounds = consumed-InBounds e r v h;
        enqueued = consumed-calls e r v n h;
        awaited = unfold consume in refl;
        left = consumed-window e r v h;
      })
    ])
  where
    left_len : length (drop r.want_read_len (window r)) ≡ (consume (deliver e r)).read_len
    left_len =
        ap length (sym (consumed-window e r v h)) ∙ length-window _ (consumed-InBounds e r v h)

-- The test for a whole message, as two facts.
abbrev is_whole : Receiver → Bool
is_whole r = not (r.want_read_len == 0) && leb r.want_read_len r.read_len

-- Taking one message is cutting it off; `r'` stands for the rounds behind it.
take_message-Framed :
    (e : Env) (r r' : Receiver) (later : Framing)
    → InBounds r
    → (is_whole r ≡ true → Framed later (blocks (consume (deliver e r)).calls) r')
    → Framed
        (cut r.want_read_len (window r) later)
        (blocks r.calls)
        (if (take_message e r).0 then r' else (take_message e r).1)
unfolding cut take_message
take_message-Framed e r r' later v rest = rw (length-window r v) (elim (Bool-cases (is_whole r)) [
  | inr waits ↦ rw waits (record {
    in_bounds = v;
    enqueued = unfold wav_only in sym (append-nil (blocks r.calls));
    awaited = refl;
    left = refl;
  })
  | inl whole ↦
      rw whole
        (cut_off-Framed e r r' later v (ground (arith, whole)) (ground (arith, whole)) (rest whole))
])

take_message_whole :
    (e : Env) (r : Receiver) → is_whole r ≡ true → (take_message e r).1 ≡ consume (deliver e r)
unfolding take_message
take_message_whole e r h = rw h

module _ (e : Env) (ok_mem : IsAllocator e.mem)
    (limited : e.max_net_msg_byte + net_msg_header_len ≤ 512 * 1024 * 1024) where
  -- The header judged and the window moved: one look at what is there.
  looked-Judged :
      (r : Receiver) → InBounds r → Judged e.max_net_msg_byte r (move_forward (judge_header e r))
  looked-Judged r v =
      let j = judge_header-Judged e ok_mem limited r v in
      let m = move_forward-Moved (judge_header e r) j.in_bounds in
      record {
        in_bounds = m.in_bounds;
        next_want = m.same_want ∙ j.next_want;
        next_window = m.same_window ∙ j.next_window;
        same_calls = m.same_calls ∙ j.same_calls;
      }

  -- What the rounds behind a whole message do, from what they do from any state in bounds.
  later-Framed :
      (fuel : ℕ) (r : Receiver)
      → InBounds r
      → is_whole r ≡ true
      → ((s : Receiver)
          → InBounds s
          → Framed
              (scan e.max_net_msg_byte fuel s.want_read_len (window s))
              (blocks s.calls)
              (find_header e fuel s))
      → Framed
          (scan e.max_net_msg_byte fuel 0 (drop r.want_read_len (window r)))
          (blocks (consume (deliver e r)).calls)
          (find_header e fuel (take_message e r).1)
  unfolding consume
  later-Framed fuel r v whole ih = rw (take_message_whole e r whole) (
      subst
        (λ w.
          Framed (scan e.max_net_msg_byte fuel 0 w) (blocks (consume (deliver e r)).calls)
            (find_header e fuel (consume (deliver e r))))
        (consumed-window e r v (ground (arith, whole)))
        (ih (consume (deliver e r)) (consumed-InBounds e r v (ground (arith, whole)))))

  -- Where `new` returns blocks of the size asked for and `g_iMaxNetMsgByte` and a header are at
  -- most 512 MB together: for a receiver whose offsets are in its buffer, and any number of rounds
  -- through FindHeader, whatever bytes are received, well-formed or not: the audio messages that
  -- are enqueued are those of the messages that the framing finds in the received bytes, in order,
  -- and the bytes that are left, the length that is awaited and the validity of the offsets agree
  -- with it.
  pub find_header-Framed :
      (fuel : ℕ) (r : Receiver)
      → InBounds r
      → Framed
          (scan e.max_net_msg_byte fuel r.want_read_len (window r))
          (blocks r.calls)
          (find_header e fuel r)
  unfolding find_header scan wav_only find_header_once
  find_header-Framed zero r v = record {
    in_bounds = v;
    enqueued = sym (append-nil (blocks r.calls));
    awaited = refl;
    left = refl;
  }
  find_header-Framed (suc fuel) r v =
      let looked = move_forward (judge_header e r) in
      let j = looked-Judged r v in
      subst (λ f. Framed f (blocks r.calls) (find_header e (suc fuel) r))
        (λ i.
          cut (j.next_want i) (j.next_window i)
            (scan e.max_net_msg_byte fuel 0 (drop (j.next_want i) (j.next_window i))))
        (subst
          (λ c.
            Framed
              (cut looked.want_read_len (window looked)
                (scan e.max_net_msg_byte fuel 0 (drop looked.want_read_len (window looked))))
              (blocks c) (find_header e (suc fuel) r))
          j.same_calls
          (take_message-Framed e looked (find_header e fuel (take_message e looked).1) _ j.in_bounds
            λ whole. later-Framed fuel looked j.in_bounds whole (find_header-Framed fuel)))
