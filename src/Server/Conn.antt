-- ===== src/Server/Conn.antt =====
-- The state of one connection, class EpollMateData of audioserver/AudioDataUnit.h.
pub mod Deleted
use epoll_based_fault_diagno.Base.{ℕ, ◌*◌, ◌≡◌, [], Bytes, Option, none, some, ℤ, negsuc, length}

-- A pointer into `rcv_buf` is an offset, and `none` is nullptr. `m_iFd` is -1 when invalid.
pub record Conn : Type 0 where
  pub fd : ℤ
  pub ip : ℕ
  pub port : ℕ
  pub read_len : ℕ
  pub rcv_buf_size : ℕ
  pub rcv_start_pos : ℕ
  pub rcv_buf : Bytes
  pub net_msg_header : Option ℕ
  pub want_read_len : ℕ
  pub rs_que_wait4send : Option ℕ
  pub snd_buf : Bytes
  pub want_snd_len : ℕ
  pub original_len : ℕ
  pub sent_len : ℕ
  pub host_name : Bytes
  pub close_type : ℕ

abbrev pub invalid_client_fd : ℤ
invalid_client_fd = negsuc 0

abbrev pub max_recv_buf_size : ℕ
max_recv_buf_size = 1024 * 1024 * 64

-- `new unsigned char[n]`: a block of `n` bytes, whatever they are.
pub record IsAllocator (mem : ℕ → Bytes) : Type 0 where
  pub sized : (n : ℕ) → length (mem n) ≡ n

module _ (mem : ℕ → Bytes) where
  unfoldable pub malloc_rcv_buf : ℕ → Conn → Conn
  malloc_rcv_buf size c = record c {
    rcv_buf_size = size;
    rcv_buf = mem size;
    net_msg_header = some 0;
    rcv_start_pos = 0;
  }

unfoldable pub init_epoll_mate_data : Conn → Conn
init_epoll_mate_data c = record c {
  read_len = 0;
  sent_len = 0;
  close_type = 0;
  net_msg_header = some 0;
  snd_buf = [];
  want_snd_len = 0;
  original_len = 0;
  want_read_len = 0;
  rcv_start_pos = 0;
}

-- `EpollMateData()`: the fields that it leaves unset are those of `raw`.
unfoldable pub new_epoll_mate_data : (ℕ → Bytes) → Conn → Conn
unfolding malloc_rcv_buf init_epoll_mate_data
new_epoll_mate_data mem raw = init_epoll_mate_data (
    malloc_rcv_buf mem max_recv_buf_size
      (record raw { fd = invalid_client_fd; rs_que_wait4send = none }))
