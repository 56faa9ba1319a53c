-- ===== src/Client/OldTcp.antt =====
-- Class TcpClient of audioclient/Old-TCP/TcpClient.cpp, which no build file names: it closes its
-- socket before it opens the next.
use epoll_based_fault_diagno.Base.{
  ℕ, ◌≡◌, ap, ◌∙◌, ◌⊎◌, inl, inr, true, false, not, ◌&&◌, List, [], ◌∷◌, ℤ, pos, negsuc, is_neg,
  if◌then◌else◌, Bool-cases,
}
use epoll_based_fault_diagno.Socket.{Errno, would_block}
use epoll_based_fault_diagno.Client.Tcp.{same_fd, close_fd, close_fd-head, not_invalid}

pub record OldClient : Type 0 where
  pub socket_fd : ℤ
  pub dest_ip : ℕ
  pub dest_port : ℕ
  pub open_fds : List ℤ

-- What socket, connect, and setsockopt for the two sizes of buffers answer.
pub record OldSys : Type 0 where
  pub socket : ℤ
  pub connect : ℤ
  pub set_rcv_buf : ℕ → ℤ
  pub set_snd_buf : ℕ → ℤ

unfoldable pub close_client : OldClient → OldClient
close_client c =
    if not (same_fd c.socket_fd (negsuc 0))
    then record c { open_fds = close_fd c.socket_fd c.open_fds; socket_fd = negsuc 0 }
    else c

unfoldable pub connect_server : OldSys → ℕ → ℕ → OldClient → ℤ × OldClient
unfolding close_client
connect_server sys ip port c =
    let closed = close_client (record c { dest_ip = ip; dest_port = port }) in
    let c' = record closed {
      socket_fd = sys.socket;
      open_fds = if is_neg sys.socket then closed.open_fds else sys.socket ∷ closed.open_fds;
    } in
    if is_neg sys.socket
    then (negsuc 0, c')
    else (if is_neg sys.connect then (negsuc 0, c') else (pos 0, c'))

-- What recv and send bring: a count, or -1.
pub data Moved : Type 0 where
  moved : ℕ → Moved
  failed : Errno → Moved

-- receiveData and sendData alike: the two branches on errno, which only print, both return -1.
unfoldable pub transfer_data : Moved → ℤ
transfer_data (moved n) = pos n
transfer_data (failed err) = if would_block err then negsuc 0 else negsuc 0

-- setSockBufferSize: the sum of two results of setsockopt, each 0 or -1.
unfoldable pub set_sock_buffer_size : OldSys → ℕ → ℤ
set_sock_buffer_size sys size =
    if same_fd (sys.set_rcv_buf size) (pos 0) && same_fd (sys.set_snd_buf size) (pos 0)
    then pos 0
    else negsuc 0

-- connectServer again and again.
unfoldable pub reconnect : List OldSys → ℕ → ℕ → OldClient → OldClient
reconnect [] ip port c = c
reconnect (sys ∷ more) ip port c = reconnect more ip port (connect_server sys ip port c).1

-- The client has no socket, and nothing beside `others` is open; or its socket is open beside them.
unfoldable pub Owns : List ℤ → OldClient → Type 0
Owns others c =
    ((c.socket_fd ≡ negsuc 0) × (c.open_fds ≡ others))
    ⊎ ((is_neg c.socket_fd ≡ false) × (c.open_fds ≡ c.socket_fd ∷ others))

-- socket returns a descriptor or -1.
pub record IsPosix (sys : OldSys) : Type 0 where
  pub minus_one : is_neg sys.socket ≡ true → sys.socket ≡ negsuc 0

close_client-fds :
    (others : List ℤ) (c : OldClient) → Owns others c → (close_client c).open_fds ≡ others
unfolding Owns close_client same_fd
close_client-fds others c (inl (no_socket, fds)) =
    rw (close_client, ap (λ fd. same_fd fd (negsuc 0)) no_socket) fds
close_client-fds others c (inr (socket, fds)) =
    rw (close_client, not_invalid c.socket_fd socket)
      (ap (close_fd c.socket_fd) fds ∙ close_fd-head c.socket_fd others)

connect_server-Owns :
    (others : List ℤ) (sys : OldSys) (ip port : ℕ) (c : OldClient)
    → IsPosix sys
    → Owns others c
    → Owns others (connect_server sys ip port c).1
unfolding Owns connect_server
connect_server-Owns others sys ip port c posix owns =
    let closed = close_client-fds others (record c { dest_ip = ip; dest_port = port }) owns in
    elim (Bool-cases (is_neg sys.socket)) [
      | inl none_left ↦ rw (connect_server, none_left) (inl (posix.minus_one none_left, closed))
      | inr socket ↦ elim (Bool-cases (is_neg sys.connect)) [
        | inl refused ↦
            rw (connect_server, socket, refused) (inr (socket, ap (λ fds. sys.socket ∷ fds) closed))
        | inr fine ↦
            rw (connect_server, socket, fine) (inr (socket, ap (λ fds. sys.socket ∷ fds) closed))
      ]
    ]

abbrev pub AllPosix : List OldSys → Type 0
AllPosix [] = Unit {0}
AllPosix (sys ∷ more) = IsPosix sys × AllPosix more

-- Where socket returns a descriptor or -1: over any number of connects, whether they work or not,
-- the old version holds at most one descriptor beside those of others, that of its socket; so none is
-- left behind by a reconnect. After a close none is held.
pub reconnect-Owns :
    (others : List ℤ) (syss : List OldSys) (ip port : ℕ) (c : OldClient)
    → AllPosix syss
    → Owns others c
    → Owns others (reconnect syss ip port c)
      × ((close_client (reconnect syss ip port c)).open_fds ≡ others)
unfolding reconnect
reconnect-Owns others [] ip port c posix owns = (owns, close_client-fds others c owns)
reconnect-Owns others (sys ∷ more) ip port c posix owns =
    reconnect-Owns others more ip port (connect_server sys ip port c).1 posix.1
      (connect_server-Owns others sys ip port c posix.0 owns)
