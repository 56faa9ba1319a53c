-- ===== src/Wire.antt =====
-- The message format of audioserver/AudioDataUnit.h and audioclient/AudioDataUnit.h: every message
-- on the network is a packed 12-byte NetMsgHeader followed by its data.
pub mod Codec
use epoll_based_fault_diagno.Base.{
  ℕ, ◌+◌, ◌<◌, ◌≡◌, Bool, ◌&&◌, List, [], ◌∷◌, ◌++◌, Bytes, u32_at, le32, get_or, length, ltb, ◌==◌,
}

abbrev pub confirm_num : ℕ
confirm_num = 0x20230601

-- sizeof(NetMsgHeader), packed.
abbrev pub net_msg_header_len : ℕ
net_msg_header_len = 12

-- `enum DataType`, as the codes that travel in `m_iMsgType`.
abbrev pub dt_wav : ℕ
dt_wav = 0

abbrev pub dt_log : ℕ
dt_log = 1

abbrev pub dt_epoll_alter : ℕ
dt_epoll_alter = 2

abbrev pub dt_epoll_del : ℕ
dt_epoll_del = 3

abbrev pub dt_server_msg : ℕ
dt_server_msg = 4

-- The three bytes of `m_iUnUsed` are never read, and have no field here.
pub record NetMsgHeader : Type 0 where
  pub confirm : ℕ
  pub msg_len : ℕ
  pub msg_type : ℕ

-- The constructor `_NetMsgHeader`.
abbrev pub new_header : ℕ → ℕ → NetMsgHeader
new_header type len = record { confirm = confirm_num; msg_len = len; msg_type = type }

-- The twelve bytes of a header; `unused` is what `m_iUnUsed` holds.
unfoldable pub header_bytes : NetMsgHeader → Bytes → Bytes
header_bytes h unused = le32 h.confirm ++ (le32 h.msg_len ++ (h.msg_type ∷ unused))

-- The cast `(NetMsgHeader*)p`, for a pointer given by the bytes from there on.
unfoldable pub read_header : Bytes → NetMsgHeader
read_header p = record { confirm = u32_at p 0; msg_len = u32_at p 4; msg_type = get_or p 8 0 }

-- A message as the sender means it.
pub record Msg : Type 0 where
  pub type : ℕ
  pub body : Bytes

-- What goes over the network for it.
unfoldable pub frame : Msg → Bytes
frame m = header_bytes (new_header m.type (length m.body)) (0 ∷ 0 ∷ 0 ∷ []) ++ m.body

unfoldable pub frames : List Msg → Bytes
frames [] = []
frames (m ∷ ms) = frame m ++ frames ms

-- `IsValidNetMsgHeader` of the server, for its limit `g_iMaxNetMsgByte`.
unfoldable pub is_valid_net_msg_header : ℕ → NetMsgHeader → Bool
is_valid_net_msg_header max h = confirm_num == h.confirm && ltb h.msg_len max

-- A message that fits the fields of its header and the limit of the receiver.
pub record IsSendable (max : ℕ) (m : Msg) : Type 0 where
  pub type_byte : m.type < 256
  pub len_word : length m.body < 0x1_0000_0000
  pub len_below : length m.body < max
