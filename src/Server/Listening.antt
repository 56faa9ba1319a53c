-- ===== src/Server/Listening.antt =====
-- Opening the listening socket: EpollServer::Bind, Listen and Create of audioserver/EpollServer.cpp,
-- called by AudioServer::requestListenFunc (audioserver/AudioServer.cpp). The system calls answer as
-- `Sys` says; options of sockets change nothing that is modelled, and are left out.
pub mod Ignored
use epoll_based_fault_diagno.Base.{
  ℕ, ◌⊎◌, List, ◌∷◌, ℤ, pos, negsuc, is_neg, is_pos, if◌then◌else◌, inl, inr,
}

pub record Sys : Type 0 where
  -- The first and the second call of socket.
  pub socket0 : ℤ
  pub socket1 : ℤ
  pub bind : ℤ → ℕ → ℤ
  pub listen : ℤ → ℤ
  pub epoll_create : ℤ
  pub epoll_ctl : ℤ → ℤ → ℤ

pub record Listener : Type 0 where
  pub server_fd : ℤ
  pub epoll_fd : ℤ
  pub open_fds : List ℤ

abbrev pub opened : ℤ → List ℤ → List ℤ
opened fd fds = if is_neg fd then fds else fd ∷ fds

-- close of the old socket, if there is one: `close_it` is what close does to the open descriptors.
unfoldable pub forget_socket : (ℤ → List ℤ → List ℤ) → Listener → Listener
forget_socket close_it l = elim l.server_fd as (λ _. Listener) [
  | pos fd ↦ record l { server_fd = negsuc 0; open_fds = close_it (pos fd) l.open_fds }
  | negsuc n ↦ record l { server_fd = negsuc 0 }
]

module _ (sys : Sys) (close_it : ℤ → List ℤ → List ℤ) where
  -- `lfd` is a socket too, which nothing uses or closes.
  unfoldable pub bind_server : ℕ → Listener → ℤ × Listener
  unfolding forget_socket
  bind_server port l =
      let l0 = forget_socket close_it l in
      let l1 = record l0 {
        server_fd = sys.socket1;
        open_fds = opened sys.socket1 (opened sys.socket0 l0.open_fds);
      } in
      if is_neg sys.socket1
      then (negsuc 0, l1)
      else (if is_neg (sys.bind sys.socket1 port) then (negsuc 0, l1) else (pos 0, l1))

  unfoldable pub listen_server : Listener → ℤ
  listen_server l = if is_neg (sys.listen l.server_fd) then negsuc 0 else pos 0

  -- `none` is the exception that is thrown where epoll_create fails.
  unfoldable pub create_server : Listener → (ℤ × Listener) ⊎ Listener
  create_server l =
      let l' = record l {
        epoll_fd = sys.epoll_create;
        open_fds = opened sys.epoll_create l.open_fds;
      } in
      if is_pos sys.epoll_create
      then inl (if is_neg (sys.epoll_ctl sys.epoll_create l.server_fd) then negsuc 0 else pos 0, l')
      else inr l'

  -- requestListenFunc, up to epollRun, which runs where the outcome is `inl`. The codes of Bind,
  -- Listen and Create are not looked at, and Listen changes nothing else that is modelled.
  unfoldable pub request_listen : ℕ → Listener → Listener ⊎ Listener
  unfolding bind_server create_server
  request_listen port l =
      elim (create_server (bind_server port l).1) as (λ _. Listener ⊎ Listener) [
        | inl ready ↦ inl ready.1
        | inr thrown ↦ inr thrown
      ]
