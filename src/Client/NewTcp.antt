-- ===== src/Client/NewTcp.antt =====
-- Class TcpClient of audioclient/New-TCP/TcpClient.cpp, which no build file names, beside the one that
-- is built (Client/Tcp) and the server's TcpSendData (Server/Send).
use epoll_based_fault_diagno.Base.{
  ℕ, zero, suc, ◌-◌, ◌/◌, ◌≤◌, ◌≡◌, refl, Bool, true, false, not, ◌&&◌, List, [], ◌∷◌, ◌++◌, Bytes,
  Option, none, some, ℤ, pos, negsuc, is_neg, length, take, drop, ◌==◌, if◌then◌else◌, arith, ne→==,
}
use mathlib.Core.Option
use epoll_based_fault_diagno.Socket.{Errno, eintr, eagain, other, Sent, sent, refused}
use epoll_based_fault_diagno.Client.Tcp
use epoll_based_fault_diagno.Client.Tcp.{
  SockOpt, so_keepalive, tcp_keepidle, tcp_keepintvl, tcp_keepcnt, Sys, same_fd, close_fd,
  TcpClient,
}
use epoll_based_fault_diagno.Server.Send.{SendOut, send_loop, tcp_send_data}

pub record NewClient : Type 0 where
  pub sock_fd : ℤ
  pub net_ok : Bool
  pub dest_ip : ℕ
  pub dest_port : ℕ
  pub open_fds : List ℤ

unfoldable pub close_client : NewClient → NewClient
close_client c = record c {
  open_fds = if same_fd c.sock_fd (negsuc 0) then c.open_fds else close_fd c.sock_fd c.open_fds;
  sock_fd = negsuc 0;
  dest_ip = 0;
  dest_port = 0;
  net_ok = false;
}

unfoldable pub keep_alive : Sys → ℕ → Bool
keep_alive sys interval =
    if is_neg (sys.setsockopt so_keepalive 1)
    then false
    else (if is_neg (sys.setsockopt tcp_keepidle interval)
        then false
        else (let val : ℕ = if interval / 3 == 0 then 1 else interval / 3 in
            if is_neg (sys.setsockopt tcp_keepintvl val)
            then false
            else (if is_neg (sys.setsockopt tcp_keepcnt 9) then false else true)))

-- Behind socket, which gave a descriptor.
unfoldable pub connect_socket : Sys → Bool → NewClient → ℤ × NewClient
unfolding close_client keep_alive
connect_socket sys keep c =
    let ret : ℤ = sys.connect c.dest_ip c.dest_port in
    if is_neg ret
    then (ret, close_client c)
    else (if keep && not (keep_alive sys 6)
        then (negsuc 2, close_client c)
        else (pos 0, record c { net_ok = true }))

unfoldable pub connect_server : Sys → ℕ → ℕ → Bool → NewClient → ℤ × NewClient
unfolding connect_socket
connect_server sys ip port keep c =
    let c' = record c {
      dest_ip = ip;
      dest_port = port;
      sock_fd = sys.socket;
      open_fds = if is_neg sys.socket then c.open_fds else sys.socket ∷ c.open_fds;
    } in
    if is_neg sys.socket then (sys.socket, c') else connect_socket sys keep c'

-- The loop of sendData, with `iBytes2Send`, the bytes from `p` on, and what has gone out: every
-- error ends it with -1.
unfoldable pub send_from : List Sent → ℕ → ℕ → Bytes → Bytes → Errno → Option SendOut
send_from rs n zero p wire errno =
    some (record { ret = pos (n - 0); errno = errno; wire = wire; unused = rs })
send_from [] n (suc b) p wire errno = none
send_from (sent k ∷ rs) n (suc b) p wire errno =
    send_from rs n (suc b - k) (drop k p) (wire ++ take k p) errno
send_from (refused err ∷ rs) n (suc b) p wire errno =
    some (record { ret = negsuc 0; errno = err; wire = wire; unused = rs })

unfoldable pub send_data : List Sent → Bytes → ℕ → Errno → Option SendOut
unfolding send_from
send_data rs data0 length errno = send_from rs length length data0 [] errno

-- The client that is built, without the count of its bytes and its limit.
abbrev pub without_flux : TcpClient → NewClient
without_flux c = record {
  sock_fd = c.sock_fd;
  net_ok = c.net_ok;
  dest_ip = c.dest_ip;
  dest_port = c.dest_port;
  open_fds = c.open_fds;
}

same_keep_alive : (sys : Sys) (interval : ℕ) → keep_alive sys interval ≡ Tcp.keep_alive sys interval
unfolding keep_alive Tcp.keep_alive
same_keep_alive sys interval = ground arith

-- Whatever the system answers, connectServer of the two versions returns the same code and leaves the
-- same socket, flags, address and open descriptors.
pub connect_server-without_flux :
    (sys : Sys) (ip port : ℕ) (keep : Bool) (flux : ℕ) (c : TcpClient)
    → connect_server sys ip port keep (without_flux c) ≡ (
      (Tcp.connect_server sys ip port keep flux c).0,
      without_flux (Tcp.connect_server sys ip port keep flux c).1,
    )
unfolding connect_server Tcp.connect_server Tcp.connect_socket Tcp.finish_connect Tcp.begin_connect
    Tcp.close_client
connect_server-without_flux sys ip port keep flux c = ground (arith, same_keep_alive sys 6)

-- What the new version makes of a result of the server's TcpSendData for `n` bytes: -1, unless all of
-- them went out.
abbrev pub all_or_error : ℕ → SendOut → SendOut
all_or_error n out = record out {
  ret = elim out.ret as (λ _. ℤ) [
    | pos k ↦ if k == n then pos k else negsuc 0
    | negsuc k ↦ negsuc 0
  ];
}

send_from-all_or_error :
    (rs : List Sent) (n b : ℕ) (p wire : Bytes) (errno : Errno)
    → b ≤ n
    → send_from rs n b p wire errno ≡ Option.map (all_or_error n) (send_loop rs n b p wire errno)
unfolding send_from send_loop
send_from-all_or_error [] n zero p wire errno h = ground arith
send_from-all_or_error [] n (suc b) p wire errno h = rw (ne→== (suc b) 0 (omega arith)) refl
send_from-all_or_error (sent k ∷ rs) n zero p wire errno h = ground arith
send_from-all_or_error (sent k ∷ rs) n (suc b) p wire errno h =
    rw (ne→== (suc b) 0 (omega arith))
      (send_from-all_or_error rs n (suc b - k) (drop k p) (wire ++ take k p) errno (omega arith))
send_from-all_or_error (refused err ∷ rs) n zero p wire errno h = ground arith
send_from-all_or_error (refused eagain ∷ rs) n (suc b) p wire errno h = ground arith
send_from-all_or_error (refused eintr ∷ rs) n (suc b) p wire errno h =
    rw (ne→== (suc b) 0 (omega arith)) refl
send_from-all_or_error (refused other ∷ rs) n (suc b) p wire errno h =
    rw (ne→== (suc b) 0 (omega arith)) refl

-- Whatever send answers, sendData of the new version and TcpSendData of the server make the same
-- calls and put the same bytes on the network, and leave the same errno. Where all bytes went out
-- both return their number; in all other cases the new version returns -1, also where the server
-- returns how many went out before EAGAIN.
pub send_data-tcp_send_data :
    (rs : List Sent) (data0 : Bytes) (n : ℕ) (errno : Errno)
    → send_data rs data0 n errno ≡ Option.map (all_or_error n) (tcp_send_data rs data0 n errno)
unfolding send_data tcp_send_data
send_data-tcp_send_data rs data0 n errno =
    send_from-all_or_error rs n n data0 [] errno (omega arith)
