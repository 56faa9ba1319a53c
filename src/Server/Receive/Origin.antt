-- ===== src/Server/Receive/Origin.antt =====
-- Whose messages AudioServer::readFunc (audioserver/AudioServer.cpp) enqueues: each carries the socket
-- and the address of the connection that it came from.
use mathlib.Core.List.{append_cancel_left}
use epoll_based_fault_diagno.Base.{
  ℕ, zero, suc, ◌≡◌, refl, ap, sym, ◌∙◌, Bool-cases, inl, inr, List, [], ◌∷◌, ◌++◌, map, map-append,
  append_assoc, append-nil, Bytes, ℤ, arith, leb, not, ◌&&◌, ◌==◌,
}
use epoll_based_fault_diagno.Wire.{read_header, dt_wav}
use epoll_based_fault_diagno.Server.Conn.{malloc_rcv_buf}
use epoll_based_fault_diagno.Server.Receive.{
  EnqueueCall, Env, Receiver, at_pbuf, find_header_once, take_message, judge_header, move_forward,
  fit_buffer, resync, accept_header, skip_bytes, note_header, note_length, drop_too_large, grow_to,
  to_front, deliver, consume, enqueue_block, call_of,
}
use epoll_based_fault_diagno.Server.Receive.Loop.{
  Recv, received, closed, failed, find_header, receive, store_received, read_loop,
}
use epoll_based_fault_diagno.Server.Receive.Window.Refine.{blocks}

-- A message as it is enqueued: the socket and the address beside it, and its bytes.
abbrev pub Tagged : Type 0
Tagged = ℤ × ℕ × Bytes

abbrev pub tag : EnqueueCall → Tagged
tag c = (c.info.fd, c.info.ip, c.block)

-- The calls behind those made before, all for one connection.
data AllFrom (fd : ℤ) (ip : ℕ) : List EnqueueCall → Type 0 where
  no_more : AllFrom fd ip []
  one_from :
      {c : EnqueueCall} {cs : List EnqueueCall}
      → c.info.fd ≡ fd
      → c.info.ip ≡ ip
      → AllFrom fd ip cs
      → AllFrom fd ip (c ∷ cs)

append-AllFrom :
    {fd : ℤ} {ip : ℕ} (cs ds : List EnqueueCall)
    → AllFrom fd ip cs
    → AllFrom fd ip ds
    → AllFrom fd ip (cs ++ ds)
append-AllFrom [] ds no_more a = a
append-AllFrom (c ∷ cs) ds (one_from f i b) a = one_from f i (append-AllFrom cs ds b a)

record Extends (fd : ℤ) (ip : ℕ) (r r' : Receiver) : Type 0 where
  new : List EnqueueCall
  calls_eq : r'.calls ≡ r.calls ++ new
  all_from : AllFrom fd ip new
  fd_eq : r'.conn.fd ≡ fd
  ip_eq : r'.conn.ip ≡ ip

Extends-same :
    {fd : ℤ} {ip : ℕ} (r r' : Receiver)
    → r'.calls ≡ r.calls
    → r'.conn.fd ≡ fd
    → r'.conn.ip ≡ ip
    → Extends fd ip r r'
Extends-same r r' calls fd ip = record {
  new = [];
  calls_eq = calls ∙ sym (append-nil r.calls);
  all_from = no_more;
  fd_eq = fd;
  ip_eq = ip;
}

Extends-trans :
    {fd : ℤ} {ip : ℕ} (r s t : Receiver) → Extends fd ip r s → Extends fd ip s t → Extends fd ip r t
Extends-trans r s t a b = record {
  new = a.new ++ b.new;
  calls_eq = b.calls_eq ∙ ap (λ cs. cs ++ b.new) a.calls_eq ∙ append_assoc r.calls a.new b.new;
  all_from = append-AllFrom a.new b.new a.all_from b.all_from;
  fd_eq = b.fd_eq;
  ip_eq = b.ip_eq;
}

module _ (e : Env) where
  judge_header_lem :
      (r : Receiver)
      → ((judge_header e r).calls ≡ r.calls)
        × ((judge_header e r).conn.fd ≡ r.conn.fd)
        × ((judge_header e r).conn.ip ≡ r.conn.ip)
  unfolding judge_header accept_header note_header resync skip_bytes fit_buffer note_length
      drop_too_large grow_to malloc_rcv_buf
  judge_header_lem r = ground arith

  move_forward_lem :
      (r : Receiver)
      → ((move_forward r).calls ≡ r.calls)
        × ((move_forward r).conn.fd ≡ r.conn.fd)
        × ((move_forward r).conn.ip ≡ r.conn.ip)
  unfolding move_forward to_front
  move_forward_lem r = ground arith

  deliver-Extends :
      (fd : ℤ) (ip : ℕ) (r : Receiver)
      → r.conn.fd ≡ fd
      → r.conn.ip ≡ ip
      → Extends fd ip r (consume (deliver e r))
  unfolding consume deliver enqueue_block call_of
  deliver-Extends fd ip r f i = elim (Bool-cases ((read_header (at_pbuf r)).msg_type == dt_wav)) [
    | inl wav ↦ rw wav record {
      new = call_of e r ∷ [];
      calls_eq = refl;
      all_from = one_from f i no_more;
      fd_eq = f;
      ip_eq = i;
    }
    | inr other ↦ rw other (Extends-same r (consume r) refl f i)
  ]

  take_message-Extends :
      (fd : ℤ) (ip : ℕ) (r : Receiver)
      → r.conn.fd ≡ fd
      → r.conn.ip ≡ ip
      → Extends fd ip r (take_message e r).1
  unfolding take_message
  take_message-Extends fd ip r f i =
      elim (Bool-cases (not (r.want_read_len == 0) && leb r.want_read_len r.read_len)) [
        | inl whole ↦ rw whole (deliver-Extends fd ip r f i)
        | inr part ↦ rw part (Extends-same r r refl f i)
      ]

  find_header_once-Extends :
      (fd : ℤ) (ip : ℕ) (r : Receiver)
      → r.conn.fd ≡ fd
      → r.conn.ip ≡ ip
      → Extends fd ip r (find_header_once e r).1
  unfolding find_header_once
  find_header_once-Extends fd ip r f i =
      let (calls, jf, ji) = judge_header_lem r in
      let (calls', mf, mi) = move_forward_lem (judge_header e r) in
      let looked = move_forward (judge_header e r) in
      Extends-trans r looked (take_message e looked).1
        (Extends-same r looked (calls' ∙ calls) (mf ∙ jf ∙ f) (mi ∙ ji ∙ i))
        (take_message-Extends fd ip looked (mf ∙ jf ∙ f) (mi ∙ ji ∙ i))

  find_header-Extends :
      (fuel : ℕ) (fd : ℤ) (ip : ℕ) (r : Receiver)
      → r.conn.fd ≡ fd
      → r.conn.ip ≡ ip
      → Extends fd ip r (find_header e fuel r)
  unfolding find_header
  find_header-Extends zero fd ip r f i = Extends-same r r refl f i
  find_header-Extends (suc fuel) fd ip r f i =
      let s = (find_header_once e r).1 in
      let one = find_header_once-Extends fd ip r f i in
      elim (Bool-cases (find_header_once e r).0) [
        | inl again ↦ rw again (
            Extends-trans r s (find_header e fuel s) one
              (find_header-Extends fuel fd ip s one.fd_eq one.ip_eq))
        | inr out ↦ rw out one
      ]

  receive-Extends :
      (bs : Bytes) (fd : ℤ) (ip : ℕ) (r : Receiver)
      → r.conn.fd ≡ fd
      → r.conn.ip ≡ ip
      → Extends fd ip r (receive e bs r)
  unfolding receive store_received
  receive-Extends bs fd ip r f i =
      let s = store_received bs r in
      Extends-trans r s (find_header e (suc s.read_len) s) (Extends-same r s refl f i)
        (find_header-Extends (suc s.read_len) fd ip s f i)

  read_loop-Extends :
      (rs : List Recv) (fd : ℤ) (ip : ℕ) (r : Receiver)
      → r.conn.fd ≡ fd
      → r.conn.ip ≡ ip
      → Extends fd ip r (read_loop e rs r).1
  unfolding read_loop
  read_loop-Extends [] fd ip r f i = Extends-same r r refl f i
  read_loop-Extends (received bs ∷ rs) fd ip r f i =
      let one = receive-Extends bs fd ip r f i in
      Extends-trans r (receive e bs r) (read_loop e rs (receive e bs r)).1 one
        (read_loop-Extends rs fd ip (receive e bs r) one.fd_eq one.ip_eq)
  read_loop-Extends (closed err ∷ rs) fd ip r f i = Extends-same r r refl f i
  read_loop-Extends (failed err ∷ rs) fd ip r f i = Extends-same r r refl f i

tag-AllFrom :
    (fd : ℤ) (ip : ℕ) (cs : List EnqueueCall)
    → AllFrom fd ip cs
    → map tag cs ≡ map (λ b. (fd, ip, b)) (blocks cs)
tag-AllFrom fd ip [] no_more = refl
tag-AllFrom fd ip (c ∷ cs) (one_from f i a) = λ j. (f j, i j, c.block) ∷ tag-AllFrom fd ip cs a j

-- Which blocks are new says which calls are, tags included.
pub read_loop-tags :
    (e : Env) (rs : List Recv) (r : Receiver) (bs : List Bytes)
    → blocks (read_loop e rs r).1.calls ≡ blocks r.calls ++ bs
    → map tag (read_loop e rs r).1.calls
      ≡ map tag r.calls ++ map (λ b. (r.conn.fd, r.conn.ip, b)) bs
read_loop-tags e rs r bs enqueued =
    let x = read_loop-Extends e rs r.conn.fd r.conn.ip r refl refl in
    let same_blocks : blocks x.new ≡ bs =
      append_cancel_left (blocks r.calls) (blocks x.new) bs
        (sym (map-append (λ c. c.block) r.calls x.new) ∙ sym (ap blocks x.calls_eq) ∙ enqueued) in
    ap (map tag) x.calls_eq
    ∙ map-append tag r.calls x.new
    ∙ ap (◌++◌ (map tag r.calls)) (
        tag-AllFrom r.conn.fd r.conn.ip x.new x.all_from
        ∙ ap (map (λ b. (r.conn.fd, r.conn.ip, b))) same_blocks)
