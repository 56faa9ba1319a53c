-- ===== src/Server/Receive/Window.antt =====
-- What the steps of the receive loop keep: the offsets stay inside the buffer, and the bytes
-- received and not yet consumed stay the same, wherever they are moved to.
pub mod Judge
pub mod Refine
use epoll_based_fault_diagno.Base.{
  ℕ, zero, suc, ◌+◌, ◌-◌, ◌*◌, ◌/◌, ◌≤◌, ◌<◌, ◌≡◌, refl, ap, sym, ◌∙◌, Bool, true, false, ◌⊎◌, inl,
  inr, List, [], ◌∷◌, ◌++◌, Bytes, arith, length, take, drop, splice, length-take, length-drop,
  length-splice, take-splice_front, Bool-cases, if◌then◌else◌, ltb, ◌==◌,
}
use epoll_based_fault_diagno.Wire.{net_msg_header_len}
use epoll_based_fault_diagno.Server.Conn.{IsAllocator, malloc_rcv_buf}
use epoll_based_fault_diagno.Server.Receive.{
  Receiver, Env, EnqueueCall, at_pbuf, window, grown_size, grow_to, to_front, move_forward,
}

-- The offsets agree and stay in the block. A message that is awaited has a header.
pub record InBounds (r : Receiver) : Type 0 where
  pub synced : r.pbuf ≡ r.rcv_start_pos
  pub room : r.buf_size + r.pbuf ≡ r.rcv_buf_size
  pub sized : length r.rcv_buf ≡ r.rcv_buf_size
  pub bounded : r.pbuf + r.read_len ≤ r.rcv_buf_size
  pub want_len : (r.want_read_len ≡ 0) ⊎ (net_msg_header_len ≤ r.want_read_len)

-- A step that only moves the window about.
pub record Moved (r r' : Receiver) : Type 0 where
  pub in_bounds : InBounds r'
  pub same_window : window r' ≡ window r
  pub same_read_len : r'.read_len ≡ r.read_len
  pub same_want : r'.want_read_len ≡ r.want_read_len
  pub same_calls : r'.calls ≡ r.calls

pub Moved-refl : (r : Receiver) → InBounds r → Moved r r
Moved-refl r v = record {
  in_bounds = v;
  same_window = refl;
  same_read_len = refl;
  same_want = refl;
  same_calls = refl;
}

pub Moved-trans : (r s t : Receiver) → Moved r s → Moved s t → Moved r t
Moved-trans r s t m n = record {
  in_bounds = n.in_bounds;
  same_window = n.same_window ∙ m.same_window;
  same_read_len = n.same_read_len ∙ m.same_read_len;
  same_want = n.same_want ∙ m.same_want;
  same_calls = n.same_calls ∙ m.same_calls;
}

pub length-window : (r : Receiver) → InBounds r → length (window r) ≡ r.read_len
length-window r v =
    omega
      (arith, length-take r.read_len (at_pbuf r), length-drop r.pbuf r.rcv_buf, v.sized, v.bounded)

module _ (e : Env) (ok_mem : IsAllocator e.mem) where
  pub grow_to-Moved :
      (size : ℕ) (r : Receiver) → InBounds r → r.read_len ≤ size → Moved r (grow_to e size r)
  unfolding grow_to
  grow_to-Moved size r v h = record {
    in_bounds = record {
      synced = refl;
      room = omega arith;
      sized =
          length-splice 0 (window r) (e.mem size)
            (omega (arith, length-window r v, ok_mem.sized size))
          ∙ ok_mem.sized size;
      bounded = omega arith;
      want_len = v.want_len;
    };
    same_window = take-splice_front r.read_len (window r) (e.mem size) (sym (length-window r v));
    same_read_len = refl;
    same_want = refl;
    same_calls = refl;
  }

to_front-Moved : (r : Receiver) → InBounds r → Moved r (to_front r)
unfolding to_front
to_front-Moved r v = rw (← v.synced) (record {
  in_bounds = record {
    synced = refl;
    room = omega arith;
    sized =
        length-splice 0 (window r) r.rcv_buf (omega (arith, length-window r v, v.sized, v.bounded))
        ∙ v.sized;
    bounded = omega (arith, v.bounded);
    want_len = v.want_len;
  };
  same_window = take-splice_front r.read_len (window r) r.rcv_buf (sym (length-window r v));
  same_read_len = refl;
  same_want = refl;
  same_calls = refl;
})

pub move_forward-Moved : (r : Receiver) → InBounds r → Moved r (move_forward r)
unfolding move_forward
move_forward-Moved r v =
    elim (Bool-cases
      (ltb r.buf_size (if r.want_read_len == 0 then r.rcv_buf_size / 2 else r.want_read_len))) [
        | inl short ↦ rw short (to_front-Moved r v)
        | inr enough ↦ rw enough (Moved-refl r v)
      ]
