-- ===== src/Tests/Connections.antt =====
-- The connections of the event loop.
use epoll_based_fault_diagno.Base.{
  ℕ, zero, suc, ◌<◌, ◌+◌, ◌≡◌, refl, sym, ap, is_neg, arith, true, false, [], ◌∷◌, ◌++◌, Bytes,
  none, some, ℤ, pos, negsuc, length, get_elem?, List, inl,
}
use mathlib.Core.Option
use mathlib.Core.Quot
use epoll_based_fault_diagno.Server.Conn.{Conn}
use epoll_based_fault_diagno.Server.Listening.{Sys, Listener, request_listen}
use epoll_based_fault_diagno.Server.Listening.Ignored.{request_listen-opened}
use epoll_based_fault_diagno.Server.TaskMap.{TaskMap, get_node_by_id}
use epoll_based_fault_diagno.Server.TaskMap.Mapping.{put, node_at, put_lem}
use epoll_based_fault_diagno.Server.Epoll.{
  Accepted, Callback, Server, accept_one, handle, ready, ctl_add,
}
use epoll_based_fault_diagno.Server.Epoll.Count.{
  live, live_count, KeepsFd, SlotLive, Counted, Runs, start, serve, Runs-Counted,
}
use epoll_based_fault_diagno.Server.Epoll.Reconnect.{accept_one_adds}

abbrev one_node : TaskMap ℕ
one_node = record { nodes = (7, 70) ∷ [] }

abbrev pub raw_conn : Conn
raw_conn = record {
  fd = negsuc 0;
  ip = 0;
  port = 0;
  read_len = 0;
  rcv_buf_size = 0;
  rcv_start_pos = 0;
  rcv_buf = [];
  net_msg_header = none;
  want_read_len = 0;
  rs_que_wait4send = none;
  snd_buf = [];
  want_snd_len = 0;
  original_len = 0;
  sent_len = 0;
  host_name = [];
  close_type = 0;
}

abbrev no_mem : ℕ → Bytes
no_mem n = []

abbrev caller : Accepted
caller = record { infd = 5; in_ip = 1; in_port = 2; host_buf = []; queue = 0 }

abbrev pub open_conn : Conn
open_conn = record raw_conn { fd = pos 4; ip = 1 }

-- A connection from the address of `caller` is open.
abbrev pub one_open : Server
one_open = record {
  mates = open_conn ∷ [];
  trans_map = record { nodes = (1, 0) ∷ [] };
  client_cnt = pos 1;
  slots = some 0 ∷ [];
  trace = [];
}

accept_one_adds_example :
    ((p : ℕ)
      → p < 1
      → get_elem? (accept_one no_mem raw_conn caller one_open).mates p ≡ get_elem? one_open.mates p)
    × (length (accept_one no_mem raw_conn caller one_open).mates ≡ 1 + 1)
    × ((accept_one no_mem raw_conn caller one_open).trace ≡ [] ++ (ctl_add (pos 5) ∷ []))
    × (get_node_by_id (accept_one no_mem raw_conn caller one_open).trans_map 1 ≡ (some 1, pos 0))
accept_one_adds_example = accept_one_adds no_mem raw_conn caller one_open

-- A read that fails, and a write that sends nothing.
abbrev bad_read : Callback ℕ
bad_read c calls = ((negsuc 0, c), calls + 1)

abbrev idle_write : Callback ℕ
idle_write c calls = ((pos 0, c), calls + 1)

bad_read-KeepsFd : KeepsFd bad_read
unfolding KeepsFd
bad_read-KeepsFd c w = refl

idle_write-KeepsFd : KeepsFd idle_write
unfolding KeepsFd
idle_write-KeepsFd c w = refl

one_open-SlotLive : SlotLive 0 one_open
unfolding SlotLive
one_open-SlotLive zero c at there =
    ap (λ x. is_neg x.fd) (sym (Option.some-injective open_conn c there))
one_open-SlotLive (suc p) c at there = ground arith

pub one_open-Counted : Counted one_open
unfolding Counted live_count live
one_open-Counted = refl

abbrev after_read : ℕ × Server
after_read = handle no_mem raw_conn bad_read idle_write 0 (ready true false false) (0, one_open)

one_read : Runs no_mem raw_conn bad_read idle_write (0, one_open) after_read
one_read = serve 0 true false false one_open-SlotLive start

Runs-Counted_example : Counted after_read.1
Runs-Counted_example =
    Runs-Counted no_mem raw_conn bad_read idle_write (0, one_open) after_read bad_read-KeepsFd
      idle_write-KeepsFd one_read one_open-Counted

abbrev answers : Sys
answers = record {
  socket0 = pos 3;
  socket1 = pos 4;
  bind = λ fd port. pos 0;
  listen = λ fd. pos 0;
  epoll_create = pos 5;
  epoll_ctl = λ ep fd. pos 0;
}

abbrev nothing_open : Listener
nothing_open = record { server_fd = negsuc 0; epoll_fd = pos 0; open_fds = [] }

abbrev close_none : ℤ → List ℤ → List ℤ
close_none fd fds = fds

request_listen-opened_example :
    request_listen answers close_none 9000 nothing_open
    ≡ inl (record nothing_open {
      server_fd = pos 4;
      epoll_fd = pos 5;
      open_fds = pos 5 ∷ pos 4 ∷ pos 3 ∷ [];
    })
request_listen-opened_example =
    request_listen-opened answers close_none 9000 3 4 4 nothing_open refl refl refl refl

put_lem_example :
    (put 7 70 (put 8 80 (Quot.mk one_node)) ≡ put 8 80 (put 7 70 (Quot.mk one_node)))
    × (put 7 70 (put 7 80 (Quot.mk one_node)) ≡ put 7 70 (Quot.mk one_node))
    × (node_at 7 (put 7 70 (Quot.mk one_node)) ≡ some 70)
    × (node_at 8 (put 7 70 (Quot.mk one_node)) ≡ node_at 8 (Quot.mk one_node))
put_lem_example = put_lem 7 8 70 80 (Quot.mk one_node) (ground arith)
