-- ===== src/Server/Listening/Ignored.antt =====
-- AudioServer::requestListenFunc does not look at what its calls answer.
use epoll_based_fault_diagno.Base.{
  ℕ, suc, ◌≡◌, refl, ◌∙◌, sym, if◌then◌else◌, Bool-cases, List, ◌∷◌, ℤ, pos, negsuc, is_neg, is_pos,
  inl, inr,
}
use epoll_based_fault_diagno.Server.Listening.{
  Sys, Listener, request_listen, bind_server, create_server, forget_socket, opened,
}

abbrev bound : Sys → Listener → Listener
bound sys l = record l {
  server_fd = sys.socket1;
  open_fds = opened sys.socket1 (opened sys.socket0 l.open_fds);
}

abbrev polling : Sys → Listener → Listener
polling sys l = record l {
  epoll_fd = sys.epoll_create;
  open_fds = opened sys.epoll_create l.open_fds;
}

bind_server_state :
    (sys : Sys) (close_it : ℤ → List ℤ → List ℤ) (port : ℕ) (l : Listener)
    → (bind_server sys close_it port l).1 ≡ bound sys (forget_socket close_it l)
unfolding bind_server
bind_server_state sys close_it port l = elim (Bool-cases (is_neg sys.socket1)) [
  | inl no_socket ↦ rw no_socket refl
  | inr socket ↦ elim (Bool-cases (is_neg (sys.bind sys.socket1 port))) [
    | inl unbound ↦ rw (socket, unbound) refl
    | inr fine ↦ rw (socket, fine) refl
  ]
]

-- What requestListenFunc comes to.
request_listen_lem :
    (sys : Sys) (close_it : ℤ → List ℤ → List ℤ) (port : ℕ) (l : Listener)
    → request_listen sys close_it port l ≡ (
        let l' = polling sys (bound sys (forget_socket close_it l)) in
        if is_pos sys.epoll_create then inl l' else inr l')
unfolding request_listen create_server
request_listen_lem sys close_it port l = elim (Bool-cases (is_pos sys.epoll_create)) [
  | inl made ↦ rw (bind_server_state sys close_it port l, made, request_listen, create_server) refl
  | inr failed ↦
      rw (bind_server_state sys close_it port l, failed, request_listen, create_server) refl
]

-- Whatever bind, listen and epoll_ctl answer, the outcome of requestListenFunc is the same: the loop
-- runs also on a socket that is not bound, does not listen or is not registered.
pub request_listen_ignores :
    (sys : Sys) (close_it : ℤ → List ℤ → List ℤ) (b : ℤ → ℕ → ℤ) (k : ℤ → ℤ) (c : ℤ → ℤ → ℤ)
    (port : ℕ) (l : Listener)
    → request_listen (record sys { bind = b; listen = k; epoll_ctl = c }) close_it port l
      ≡ request_listen sys close_it port l
request_listen_ignores sys close_it b k c port l =
    request_listen_lem (record sys { bind = b; listen = k; epoll_ctl = c }) close_it port l
    ∙ sym (request_listen_lem sys close_it port l)

-- Where the calls of socket and epoll_create succeed, for a server without a socket, and whatever
-- bind, listen and epoll_ctl answer: the loop runs with the second socket, and beside it and the
-- descriptor of epoll the first socket is open, which is nobody's.
pub request_listen-opened :
    (sys : Sys) (close_it : ℤ → List ℤ → List ℤ) (port a b c : ℕ) (l : Listener)
    → l.server_fd ≡ negsuc 0
    → sys.socket0 ≡ pos a
    → sys.socket1 ≡ pos b
    → sys.epoll_create ≡ pos (suc c)
    → request_listen sys close_it port l
      ≡ inl (record l {
        server_fd = pos b;
        epoll_fd = pos (suc c);
        open_fds = pos (suc c) ∷ pos b ∷ pos a ∷ l.open_fds;
      })
unfolding forget_socket
request_listen-opened sys close_it port a b c l none_yet s0 s1 ep =
    request_listen_lem sys close_it port l ∙ rw (none_yet, s0, s1, ep) refl
