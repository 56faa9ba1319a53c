-- ===== src/Server/Receive/Window/Judge.antt =====
-- Judging the header: the offsets stay in the buffer, which grows where the message needs it, and
-- the window is cut as the framing of the stream says.
use epoll_based_fault_diagno.Base.{
  ℕ, ◌+◌, ◌-◌, ◌*◌, ◌≤◌, ◌<◌, ◌≡◌, ◌≢◌, refl, ap, sym, ◌∙◌, Bool, true, false, inl, inr, Bytes,
  arith, take, drop, drop-take, drop-drop, Bool-cases, leb, leb→not_le, not_lt→ltb, ==→eq, leb→le,
  ==→ne, ne→==, eq→==, le→leb, ◌==◌, if◌then◌else◌,
}
use epoll_based_fault_diagno.Wire.{
  NetMsgHeader, net_msg_header_len, read_header, is_valid_net_msg_header,
}
use epoll_based_fault_diagno.Wire.Codec.{read_header-take}
use epoll_based_fault_diagno.Framing.{judge, skip_to}
use epoll_based_fault_diagno.Server.Conn.{IsAllocator}
use epoll_based_fault_diagno.Server.Receive.{
  Receiver, Env, at_pbuf, window, message_len, search_header, skip_bytes, accept_header, resync,
  fit_buffer, judge_header, grown_size, note_length, note_header,
}
use epoll_based_fault_diagno.Server.Receive.Header.{
  StopsAtFirst, header_at, header_at-take, search_header-StopsAtFirst, search_header-take,
}
use epoll_based_fault_diagno.Server.Receive.Window.{
  InBounds, Moved, Moved-refl, Moved-trans, length-window, grow_to-Moved,
}

-- Judging leaves the window and the length awaited that the framing gives, and calls nothing.
pub record Judged (max : ℕ) (r r' : Receiver) : Type 0 where
  pub in_bounds : InBounds r'
  pub next_want : r'.want_read_len ≡ (judge max r.want_read_len (window r)).0
  pub next_window : window r' ≡ (judge max r.want_read_len (window r)).1
  pub same_calls : r'.calls ≡ r.calls

valid_len : (max : ℕ) (h : NetMsgHeader) → is_valid_net_msg_header max h ≡ true → h.msg_len < max
unfolding is_valid_net_msg_header
valid_len max h v = ground arith

skip_bytes-window :
    (i : ℕ) (found : Bool) (r : Receiver)
    → i ≤ r.read_len
    → window (skip_bytes i found r) ≡ drop i (window r)
unfolding skip_bytes
skip_bytes-window i found r h =
    ap (take (r.read_len - i)) (sym (drop-drop r.pbuf i (r.pbuf + i) r.rcv_buf refl))
    ∙ sym (drop-take i r.read_len (r.read_len - i) (at_pbuf r) (omega arith))

skip_bytes-InBounds :
    (i : ℕ) (found : Bool) (r : Receiver)
    → i ≤ r.read_len
    → InBounds r
    → InBounds (skip_bytes i found r)
unfolding skip_bytes
skip_bytes-InBounds i true r h v = record {
  synced = omega (arith, v.synced);
  room = omega (arith, v.synced, v.room, v.bounded);
  sized = v.sized;
  bounded = omega (arith, v.bounded);
  want_len = inr (omega arith);
}
skip_bytes-InBounds i false r h v = record {
  synced = omega (arith, v.synced);
  room = omega (arith, v.synced, v.room, v.bounded);
  sized = v.sized;
  bounded = omega (arith, v.bounded);
  want_len = inl refl;
}

pub note_length-Moved : (r : Receiver) → InBounds r → Moved r (note_length r)
unfolding note_length
note_length-Moved r v = record {
  in_bounds = record {
    synced = v.synced;
    room = v.room;
    sized = v.sized;
    bounded = v.bounded;
    want_len = v.want_len;
  };
  same_window = refl;
  same_read_len = refl;
  same_want = refl;
  same_calls = refl;
}

-- Skipping awaits the message of the header that was found.
skip_bytes-want :
    (i : ℕ) (found : Bool) (r : Receiver)
    → (found ≡ true → i + net_msg_header_len ≤ r.read_len)
    → (skip_bytes i found r).want_read_len ≡ (skip_to (i, found) (window r)).0
unfolding skip_bytes skip_to
skip_bytes-want i true r whole =
    ap (λ (d : NetMsgHeader). d.msg_len + net_msg_header_len)
      (sym (header_at-take 0 (at_pbuf r) r.read_len i (whole refl)))
skip_bytes-want i false r whole = refl

pub note_header-InBounds : (r : Receiver) → InBounds r → InBounds (note_header r)
unfolding note_header
note_header-InBounds r v = record {
  synced = v.synced;
  room = v.room;
  sized = v.sized;
  bounded = v.bounded;
  want_len = inr (omega arith);
}

-- A receiver that has judged, and then only moved its window.
Judged-Moved :
    (max : ℕ) (r s t : Receiver)
    → s.want_read_len ≡ (judge max r.want_read_len (window r)).0
    → window s ≡ (judge max r.want_read_len (window r)).1
    → s.calls ≡ r.calls
    → Moved s t
    → Judged max r t
Judged-Moved max r s t w p c m = record {
  in_bounds = m.in_bounds;
  next_want = m.same_want ∙ w;
  next_window = m.same_window ∙ p;
  same_calls = m.same_calls ∙ c;
}

module _ (e : Env) (ok_mem : IsAllocator e.mem)
    (limited : e.max_net_msg_byte + net_msg_header_len ≤ 512 * 1024 * 1024) where
  -- Where the length awaited is that of the header at `pBuf`, and not above 512 MB.
  fit_buffer-Moved :
      (r : Receiver)
      → InBounds r
      → (r.want_read_len ≢ 0 → r.want_read_len ≡ message_len (at_pbuf r))
      → r.want_read_len ≤ 512 * 1024 * 1024
      → Moved r (fit_buffer e r)
  unfolding fit_buffer
  fit_buffer-Moved r v len small = elim (Bool-cases (r.want_read_len == 0)) [
    | inl idle ↦ rw idle (Moved-refl r v)
    | inr some_want ↦
        rw some_want (elim (Bool-cases (leb (message_len (at_pbuf r)) r.rcv_buf_size)) [
          | inl fits ↦ rw fits (note_length-Moved r v)
          | inr short ↦
              rw
                (
                  short,
                  not_lt→ltb (512 * 1024 * 1024) (message_len (at_pbuf r)) (in_limit some_want),
                )
                (Moved-trans r (note_length r) _ (note_length-Moved r v) (
                  grow_to-Moved e ok_mem (grown_size (message_len (at_pbuf r))) (note_length r)
                    (note_length-Moved r v).in_bounds (below_grown short)))
        ])
  ]
    where
      in_limit : (r.want_read_len == 0) ≡ false → message_len (at_pbuf r) ≤ 512 * 1024 * 1024
      in_limit w = omega (arith, len (==→ne r.want_read_len 0 w))

      below_grown :
          leb (message_len (at_pbuf r)) r.rcv_buf_size ≡ false
          → (note_length r).read_len ≤ grown_size (message_len (at_pbuf r))
      below_grown w = omega (
        arith,
        leb→not_le (message_len (at_pbuf r)) r.rcv_buf_size w,
        v.bounded,
        (note_length-Moved r v).same_read_len,
      )

  -- A header that the receiver accepts announces a message within 512 MB.
  accepted_len :
      (p : Bytes)
      → is_valid_net_msg_header e.max_net_msg_byte (read_header p) ≡ true
      → message_len p ≤ 512 * 1024 * 1024
  accepted_len p h = omega (arith, valid_len e.max_net_msg_byte (read_header p) h, limited)

  fit_skipped :
      (i : ℕ) (found : Bool) (r : Receiver)
      → InBounds r
      → i ≤ r.read_len
      → (found ≡ true → header_at e.max_net_msg_byte (at_pbuf r) i ≡ true)
      → Moved (skip_bytes i found r) (fit_buffer e (skip_bytes i found r))
  unfolding skip_bytes
  fit_skipped i true r v h valid =
      fit_buffer-Moved (skip_bytes i true r) (skip_bytes-InBounds i true r h v)
        (λ _. ap message_len (drop-drop r.pbuf i (r.pbuf + i) r.rcv_buf refl))
        (accepted_len (drop i (at_pbuf r)) (valid refl))
  fit_skipped i false r v h valid =
      fit_buffer-Moved (skip_bytes i false r) (skip_bytes-InBounds i false r h v)
        (λ ne. absurd (ne refl)) (omega arith)

  fit_noted :
      (r : Receiver)
      → InBounds r
      → is_valid_net_msg_header e.max_net_msg_byte (read_header (at_pbuf r)) ≡ true
      → Moved (note_header r) (fit_buffer e (note_header r))
  unfolding note_header
  fit_noted r v valid =
      fit_buffer-Moved (note_header r) (note_header-InBounds r v) (λ _. refl)
        (accepted_len (at_pbuf r) valid)

  abbrev found_header : Receiver → ℕ × Bool
  found_header r =
      search_header e.max_net_msg_byte (at_pbuf r) (r.read_len - net_msg_header_len - 1) 1

  accepted :
      (r : Receiver)
      → is_valid_net_msg_header e.max_net_msg_byte (read_header (at_pbuf r)) ≡ true
      → resync e (accept_header e r) ≡ note_header r
  unfolding accept_header resync note_header
  accepted r valid = rw valid (rw (ne→== (message_len (at_pbuf r)) 0 (omega arith)) refl)

  -- The framing reads the header at the front of the window, which is the one at `pBuf`.
  judge_whole :
      (r : Receiver)
      → InBounds r
      → r.want_read_len ≡ 0
      → net_msg_header_len ≤ r.read_len
      → judge e.max_net_msg_byte r.want_read_len (window r) ≡ (
          if is_valid_net_msg_header e.max_net_msg_byte (read_header (at_pbuf r))
          then (message_len (at_pbuf r), window r)
          else skip_to (found_header r) (window r))
  unfolding judge
  judge_whole r v idle whole = rw (
    eq→== r.want_read_len 0 idle,
    length-window r v,
    le→leb net_msg_header_len r.read_len whole,
    read_header-take r.read_len (at_pbuf r) whole,
    search_header-take e.max_net_msg_byte (at_pbuf r) r.read_len
        (r.read_len - net_msg_header_len - 1) 1 (omega arith),
  )

  accept-Judged :
      (r : Receiver)
      → InBounds r
      → r.want_read_len ≡ 0
      → net_msg_header_len ≤ r.read_len
      → is_valid_net_msg_header e.max_net_msg_byte (read_header (at_pbuf r)) ≡ true
      → Judged e.max_net_msg_byte r (fit_buffer e (resync e (accept_header e r)))
  unfolding note_header
  accept-Judged r v idle whole valid = rw (accepted r valid) (
      Judged-Moved e.max_net_msg_byte r (note_header r) _ (rw (judge_whole r v idle whole, valid))
        (rw (judge_whole r v idle whole, valid)) refl (fit_noted r v valid))

  resynced :
      (r : Receiver)
      → r.want_read_len ≡ 0
      → is_valid_net_msg_header e.max_net_msg_byte (read_header (at_pbuf r)) ≡ false
      → resync e (accept_header e r) ≡ skip_bytes (found_header r).0 (found_header r).1 r
  unfolding accept_header resync
  resynced r idle wrong = rw wrong (rw (eq→== r.want_read_len 0 idle) refl)

  resync-Judged :
      (r : Receiver)
      → InBounds r
      → r.want_read_len ≡ 0
      → net_msg_header_len ≤ r.read_len
      → is_valid_net_msg_header e.max_net_msg_byte (read_header (at_pbuf r)) ≡ false
      → Judged e.max_net_msg_byte r (fit_buffer e (resync e (accept_header e r)))
  unfolding skip_bytes skip_to
  resync-Judged r v idle whole wrong = rw (resynced r idle wrong) (
      Judged-Moved e.max_net_msg_byte r (skip_bytes i hit r) _
        (rw (judge_whole r v idle whole, wrong)
          (skip_bytes-want i hit r (λ h. omega (arith, (stop.hit h).0))))
        (rw (judge_whole r v idle whole, wrong) (skip_bytes-window i hit r in_window)) refl
        (fit_skipped i hit r v in_window (λ h. (stop.hit h).1)))
    where
      i : ℕ
      i = (found_header r).0

      hit : Bool
      hit = (found_header r).1

      stop :
          StopsAtFirst e.max_net_msg_byte
            (at_pbuf r)
            (r.read_len - net_msg_header_len - 1)
            1
            (found_header r)
      stop = search_header-StopsAtFirst e.max_net_msg_byte (at_pbuf r) _ 1

      in_window : i ≤ r.read_len
      in_window = omega (arith, stop.upto)

  pub judge_header-Judged :
      (r : Receiver) → InBounds r → Judged e.max_net_msg_byte r (judge_header e r)
  unfolding judge_header judge
  judge_header-Judged r v = elim (Bool-cases (r.want_read_len == 0)) [
    | inr awaited ↦
        rw awaited
          (Judged-Moved e.max_net_msg_byte r r r (rw awaited) (rw awaited) refl (Moved-refl r v))
    | inl idle ↦ elim (Bool-cases (leb net_msg_header_len r.read_len)) [
      | inr short ↦
          rw (idle, short)
            (Judged-Moved e.max_net_msg_byte r r r
              (rw (idle, length-window r v, short) (==→eq r.want_read_len 0 idle))
              (rw (idle, length-window r v, short)) refl (Moved-refl r v))
      | inl whole ↦
          rw (idle, whole)
            (elim (Bool-cases
              (is_valid_net_msg_header e.max_net_msg_byte (read_header (at_pbuf r)))) [
                | inl valid ↦
                    accept-Judged r v (==→eq r.want_read_len 0 idle)
                      (leb→le net_msg_header_len r.read_len whole) valid
                | inr wrong ↦
                    resync-Judged r v (==→eq r.want_read_len 0 idle)
                      (leb→le net_msg_header_len r.read_len whole) wrong
              ])
    ]
  ]
