-- ===== src/Wire/Codec.antt =====
-- Reading a header back: from its bytes, from the front of a window, from a whole frame.
use epoll_based_fault_diagno.Base.{
  ℕ, ◌+◌, ◌<◌, ◌≤◌, ◌≡◌, ◌++◌, Bytes, arith, length, take, get_or-take, true,
}
use epoll_based_fault_diagno.Wire.{
  NetMsgHeader, new_header, header_bytes, read_header, net_msg_header_len, Msg, frame,
  is_valid_net_msg_header, IsSendable,
}

-- A header whose fields fit their widths is read back from its bytes, whatever follows.
pub read_header-header_bytes :
    (h : NetMsgHeader) (unused rest : Bytes)
    → h.confirm < 0x1_0000_0000
    → h.msg_len < 0x1_0000_0000
    → read_header (header_bytes h unused ++ rest) ≡ h
unfolding read_header header_bytes
read_header-header_bytes h unused rest hc hl = ground arith

-- The header at the front of a window does not depend on where the window ends.
pub read_header-take :
    (n : ℕ) (p : Bytes) → net_msg_header_len ≤ n → read_header (take n p) ≡ read_header p
unfolding read_header
read_header-take n p h = ground (
  arith,
  get_or-take 0 n p 0 (omega arith),
  get_or-take 1 n p 0 (omega arith),
  get_or-take 2 n p 0 (omega arith),
  get_or-take 3 n p 0 (omega arith),
  get_or-take 4 n p 0 (omega arith),
  get_or-take 5 n p 0 (omega arith),
  get_or-take 6 n p 0 (omega arith),
  get_or-take 7 n p 0 (omega arith),
  get_or-take 8 n p 0 (omega arith),
)

pub length-frame : (m : Msg) → length (frame m) ≡ length m.body + net_msg_header_len
unfolding frame header_bytes
length-frame m = omega arith

pub read_header-frame :
    (max : ℕ) (m : Msg) (rest : Bytes)
    → IsSendable max m
    → read_header (frame m ++ rest) ≡ new_header m.type (length m.body)
unfolding read_header frame header_bytes
read_header-frame max m rest s = ground arith

pub is_valid-frame :
    (max : ℕ) (m : Msg) (rest : Bytes)
    → IsSendable max m
    → is_valid_net_msg_header max (read_header (frame m ++ rest)) ≡ true
unfolding is_valid_net_msg_header
is_valid-frame max m rest s = ground (arith, read_header-frame max m rest s)
