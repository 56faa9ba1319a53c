-- ===== src/Client/Connection.antt =====
-- ClientManagement::connectToServer of audioclient/ClientManage.cpp, and the loop of netWorkFunc that
-- repeats it. The pause after a failed attempt and the options of the socket change nothing that is
-- modelled.
use epoll_based_fault_diagno.Base.{
  ℕ, zero, suc, ◌+◌, ◌*◌, ◌≡◌, refl, ap, sym, arith, ◌∙◌, ◌⊎◌, inl, inr, Bool, true, false, not,
  List, [], ◌∷◌, ℤ, pos, negsuc, is_neg, if◌then◌else◌,
}
use epoll_based_fault_diagno.Client.Tcp.{
  Sys, TcpClient, Connected, connect_server, connect_server-Connected,
}

-- The client, with `g_networkError`.
pub record Link : Type 0 where
  pub tcp : TcpClient
  pub network_error : Bool

-- inet_addr("10.211.55.4")
abbrev pub server_address : ℕ
server_address = 10 + 211 * 256 + 55 * 65536 + 4 * 16777216

abbrev pub is_zero : ℤ → Bool
is_zero (pos zero) = true
is_zero (pos (suc n)) = false
is_zero (negsuc n) = false

-- What follows a call of connectServer, with its code.
unfoldable pub after_connect : ℤ × TcpClient → Bool × Link
after_connect (code, c) = (is_zero code, record { tcp = c; network_error = not (is_zero code) })

-- connectToServer, for the answers of the system and `g_iSendMaxFlux`.
unfoldable pub connect_to_server : Sys → ℕ → Link → Bool × Link
unfolding after_connect
connect_to_server sys flux l =
    if l.network_error
    then after_connect (connect_server sys server_address 6500 true flux l.tcp)
    else (true, l)

-- `while (!connectToServer() && !g_isExit)`: the list is what the system answers in the attempts until
-- `g_isExit` is seen.
unfoldable pub connect_loop : List Sys → ℕ → Link → Bool × Link
connect_loop [] flux l = (false, l)
connect_loop (sys ∷ more) flux l =
    let (ok, l') = connect_to_server sys flux l in
    let rest = connect_loop more flux l' in if ok then (ok, l') else rest

-- Connected: one more descriptor is open than before, that of the client. Or not: those of before.
unfoldable pub Linked : Link → Bool × Link → Type 0
Linked before (ok, l) =
    ((ok ≡ true)
      × (l.network_error ≡ false)
      × (is_neg l.tcp.sock_fd ≡ false)
      × (l.tcp.open_fds ≡ l.tcp.sock_fd ∷ before.tcp.open_fds))
    ⊎ ((ok ≡ false) × (l.network_error ≡ true) × (l.tcp.open_fds ≡ before.tcp.open_fds))

negative_nonzero : (n : ℤ) → is_neg n ≡ true → is_zero n ≡ false
negative_nonzero (pos n) h = ground (arith, h)
negative_nonzero (negsuc n) h = refl

after_connect-Linked :
    (sys : Sys) (l : Link) (r : ℤ × TcpClient) → Connected sys l.tcp r → Linked l (after_connect r)
unfolding Connected Linked after_connect
after_connect-Linked sys l (code, c) (inl (done, ok, fd, free, fds)) = inl (
  ap is_zero done,
  ap (λ z. not (is_zero z)) done,
  free,
  fds ∙ ap (λ s. s ∷ l.tcp.open_fds) (sym fd),
)
after_connect-Linked sys l (code, c) (inr (below, gone, fds)) =
    inr (negative_nonzero code below, ap not (negative_nonzero code below), fds)

connect_to_server-Linked :
    (sys : Sys) (flux : ℕ) (l : Link)
    → l.network_error ≡ true
    → Linked l (connect_to_server sys flux l)
unfolding connect_to_server Linked
connect_to_server-Linked sys flux l broken = rw broken (
    after_connect-Linked sys l (connect_server sys server_address 6500 true flux l.tcp)
      (connect_server-Connected sys server_address 6500 true flux l.tcp))

-- The loop goes on only after a failed attempt, which leaves the descriptors as they were.
repeat-Linked :
    (before : Link) (r rest : Bool × Link)
    → Linked before r
    → (r.1.network_error ≡ true → Linked r.1 rest)
    → Linked before (if r.0 then r else rest)
unfolding Linked
repeat-Linked before (ok, l) rest (inl (done, fine, free, fds)) go_on =
    rw done (inl (refl, fine, free, fds))
repeat-Linked before (ok, l) (ok', l') (inr (bad, still, fds)) go_on = rw bad (elim (go_on still) [
  | inl (done, fine, free, fds') ↦ inl (done, fine, free, fds' ∙ ap (λ x. l'.tcp.sock_fd ∷ x) fds)
  | inr (bad', still', fds') ↦ inr (bad', still', fds' ∙ fds)
])

-- Any number of attempts after an error of the network, whatever the system answers: as soon as one
-- succeeds the loop is left with its socket, and the descriptors open are that one and all of before,
-- that of the broken connection included. If none does, those of before are open.
pub connect_loop-Linked :
    (more : List Sys) (flux : ℕ) (l : Link)
    → l.network_error ≡ true
    → Linked l (connect_loop more flux l)
unfolding connect_loop Linked
connect_loop-Linked [] flux l broken = inr (refl, broken, refl)
connect_loop-Linked (sys ∷ more) flux l broken =
    repeat-Linked l (connect_to_server sys flux l)
      (connect_loop more flux (connect_to_server sys flux l).1)
      (connect_to_server-Linked sys flux l broken)
      (connect_loop-Linked more flux (connect_to_server sys flux l).1)
