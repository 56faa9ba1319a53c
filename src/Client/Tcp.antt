-- ===== src/Client/Tcp.antt =====
-- Class TcpClient of audioclient/TcpClient.cpp. The system calls answer as `Sys` says, and the
-- descriptors that are open are kept beside the client.
use epoll_based_fault_diagno.Base.{
  ℕ, ◌/◌, ◌≡◌, refl, ap, ◌∙◌, ◌⊎◌, inl, inr, Bool, true, false, not, ◌&&◌, List, [], ◌∷◌, ℤ, pos,
  negsuc, is_neg, ◌==◌, if◌then◌else◌, Bool-cases, if-cases, arith, eq→==,
}

pub data SockOpt : Type 0 where
  so_keepalive tcp_keepidle tcp_keepintvl tcp_keepcnt : SockOpt

-- What socket, connect and setsockopt answer, the latter for an option and its value.
pub record Sys : Type 0 where
  pub socket : ℤ
  pub connect : ℕ → ℕ → ℤ
  pub setsockopt : SockOpt → ℕ → ℤ

pub record TcpClient : Type 0 where
  pub sock_fd : ℤ
  pub net_ok : Bool
  pub send_bytes : ℕ
  pub send_max_flux : ℕ
  pub dest_ip : ℕ
  pub dest_port : ℕ
  pub open_fds : List ℤ

unfoldable pub same_fd : ℤ → ℤ → Bool
same_fd (pos m) (pos n) = m == n
same_fd (pos m) (negsuc n) = false
same_fd (negsuc m) (pos n) = false
same_fd (negsuc m) (negsuc n) = m == n

-- close(fd)
unfoldable pub close_fd : ℤ → List ℤ → List ℤ
unfolding same_fd
close_fd fd [] = []
close_fd fd (x ∷ fds) = let rest = close_fd fd fds in if same_fd x fd then fds else x ∷ rest

unfoldable pub close_client : TcpClient → TcpClient
unfolding same_fd close_fd
close_client c = record c {
  open_fds = if same_fd c.sock_fd (negsuc 0) then c.open_fds else close_fd c.sock_fd c.open_fds;
  sock_fd = negsuc 0;
  dest_ip = 0;
  dest_port = 0;
  net_ok = false;
}

-- The value of TCP_KEEPINTVL.
abbrev pub probe_gap : ℕ → ℕ
probe_gap interval = if interval / 3 == 0 then 1 else interval / 3

-- The four options, each set only if those before it could be.
unfoldable pub keep_alive : Sys → ℕ → Bool
keep_alive sys interval =
    if is_neg (sys.setsockopt so_keepalive 1)
    then false
    else (if is_neg (sys.setsockopt tcp_keepidle interval)
        then false
        else (if is_neg (sys.setsockopt tcp_keepintvl (probe_gap interval))
            then false
            else not (is_neg (sys.setsockopt tcp_keepcnt 9))))

-- What is done with a connected socket.
unfoldable pub finish_connect : Sys → Bool → TcpClient → ℤ × TcpClient
unfolding keep_alive close_client
finish_connect sys keep c =
    if keep && not (keep_alive sys 6)
    then (negsuc 2, close_client c)
    else (pos 0, record c { net_ok = true })

-- What is done with a socket that is open.
unfoldable pub connect_socket : Sys → Bool → TcpClient → ℤ × TcpClient
unfolding close_client finish_connect
connect_socket sys keep c =
    if is_neg (sys.connect c.dest_ip c.dest_port)
    then (sys.connect c.dest_ip c.dest_port, close_client c)
    else finish_connect sys keep c

-- The fields that connectServer sets first, and the descriptor that socket gives.
unfoldable pub begin_connect : Sys → ℕ → ℕ → ℕ → TcpClient → TcpClient
begin_connect sys ip port flux c = record c {
  send_max_flux = flux;
  send_bytes = 0;
  dest_ip = ip;
  dest_port = port;
  sock_fd = sys.socket;
  open_fds = if is_neg sys.socket then c.open_fds else sys.socket ∷ c.open_fds;
}

unfoldable pub connect_server : Sys → ℕ → ℕ → Bool → ℕ → TcpClient → ℤ × TcpClient
unfolding begin_connect connect_socket
connect_server sys ip port keep flux c =
    if is_neg sys.socket
    then (sys.socket, begin_connect sys ip port flux c)
    else connect_socket sys keep (begin_connect sys ip port flux c)

-- What a connect leaves: code 0, the new socket, open, for `m_bNetOK`; or a code below 0, no socket,
-- and the open descriptors of before.
unfoldable pub Connected : Sys → TcpClient → ℤ × TcpClient → Type 0
Connected sys before (code, c) =
    ((code ≡ pos 0)
      × (c.net_ok ≡ true)
      × (c.sock_fd ≡ sys.socket)
      × (is_neg c.sock_fd ≡ false)
      × (c.open_fds ≡ sys.socket ∷ before.open_fds))
    ⊎ ((is_neg code ≡ true) × (is_neg c.sock_fd ≡ true) × (c.open_fds ≡ before.open_fds))

pub close_fd-head : (fd : ℤ) (fds : List ℤ) → close_fd fd (fd ∷ fds) ≡ fds
unfolding close_fd same_fd
close_fd-head (pos n) fds = rw (eq→== n n refl) refl
close_fd-head (negsuc n) fds = rw (eq→== n n refl) refl

pub not_invalid : (fd : ℤ) → is_neg fd ≡ false → same_fd fd (negsuc 0) ≡ false
unfolding same_fd
not_invalid (pos n) h = refl
not_invalid (negsuc n) h = ground arith

close_client-fds :
    (c : TcpClient) (fds : List ℤ)
    → is_neg c.sock_fd ≡ false
    → c.open_fds ≡ c.sock_fd ∷ fds
    → (close_client c).open_fds ≡ fds
unfolding close_client
close_client-fds c fds h e = rw (not_invalid c.sock_fd h, e) (close_fd-head c.sock_fd fds)

opened :
    (sys : Sys) (ip port flux : ℕ) (c : TcpClient)
    → is_neg sys.socket ≡ false
    → (begin_connect sys ip port flux c).open_fds ≡ sys.socket ∷ c.open_fds
unfolding begin_connect
opened sys ip port flux c h = rw h refl

closed-Connected :
    (sys : Sys) (before c : TcpClient) (code : ℤ)
    → is_neg code ≡ true
    → is_neg c.sock_fd ≡ false
    → c.open_fds ≡ c.sock_fd ∷ before.open_fds
    → Connected sys before (code, close_client c)
unfolding Connected close_client
closed-Connected sys before c code below h e =
    inr (below, refl, close_client-fds c before.open_fds h e)

finish_connect-Connected :
    (sys : Sys) (keep : Bool) (before c : TcpClient)
    → c.sock_fd ≡ sys.socket
    → is_neg c.sock_fd ≡ false
    → c.open_fds ≡ c.sock_fd ∷ before.open_fds
    → Connected sys before (finish_connect sys keep c)
unfolding Connected finish_connect
finish_connect-Connected sys keep before c same h e =
    elim (Bool-cases (keep && not (keep_alive sys 6))) [
      | inl dead ↦ rw (finish_connect, dead) (closed-Connected sys before c (negsuc 2) refl h e)
      | inr live ↦
          rw (finish_connect, live)
            (inl (refl, refl, same, h, e ∙ ap (λ fd. fd ∷ before.open_fds) same))
    ]

connect_socket-Connected :
    (sys : Sys) (keep : Bool) (before c : TcpClient)
    → c.sock_fd ≡ sys.socket
    → is_neg c.sock_fd ≡ false
    → c.open_fds ≡ c.sock_fd ∷ before.open_fds
    → Connected sys before (connect_socket sys keep c)
unfolding connect_socket
connect_socket-Connected sys keep before c same h e =
    elim (Bool-cases (is_neg (sys.connect c.dest_ip c.dest_port))) [
      | inl refused ↦
          rw (connect_socket, refused)
            (closed-Connected sys before c (sys.connect c.dest_ip c.dest_port) refused h e)
      | inr fine ↦ rw (connect_socket, fine) (finish_connect-Connected sys keep before c same h e)
    ]

no_socket :
    (sys : Sys) (ip port flux : ℕ) (c : TcpClient)
    → is_neg sys.socket ≡ true
    → Connected sys c (sys.socket, begin_connect sys ip port flux c)
unfolding Connected begin_connect
no_socket sys ip port flux c none_free = inr (none_free, none_free, rw none_free refl)

-- connectServer, whatever the system answers: either it returns 0, the client has the new socket and
-- `m_bNetOK`, and exactly that descriptor is open beside those of before; or it returns a code below
-- 0, the client has no socket, and no descriptor is left open that was not open before.
pub connect_server-Connected :
    (sys : Sys) (ip port : ℕ) (keep : Bool) (flux : ℕ) (c : TcpClient)
    → Connected sys c (connect_server sys ip port keep flux c)
unfolding connect_server
connect_server-Connected sys ip port keep flux c =
    if-cases (Connected sys c) (is_neg sys.socket) (sys.socket, begin_connect sys ip port flux c)
      (connect_socket sys keep (begin_connect sys ip port flux c)) (no_socket sys ip port flux c)
      (λ free.
        connect_socket-Connected sys keep c (begin_connect sys ip port flux c)
          (unfold begin_connect in refl) (unfold begin_connect in free)
          (opened sys ip port flux c free))
