-- ===== src/Server/Running/Idle.antt =====
-- Connections between messages: what readFunc (audioserver/AudioServer.cpp) leaves of them, and what
-- epollRun (audioserver/EpollServer.cpp) makes a new one.
use mathlib.Core.Option
use epoll_based_fault_diagno.Base.{
  ℕ, zero, suc, ◌≤◌, ◌≡◌, refl, ap, sym, subst, ◌∙◌, List, [], ◌∷◌, Bytes, some, length, arith,
  get_elem?, get_elem?-set, get_elem?-concat_cases, set, Bool-cases, inl, inr, ◌==◌, ==→eq,
}
use epoll_based_fault_diagno.Server.Conn.{Conn, IsAllocator, new_epoll_mate_data, max_recv_buf_size}
use epoll_based_fault_diagno.Server.Receive.{EnqueueCall, Stats, Receiver}
use epoll_based_fault_diagno.Server.Receive.Loop.{enter_read, leave_read}
use epoll_based_fault_diagno.Server.Receive.Window.{InBounds}
use epoll_based_fault_diagno.Server.Epoll.{Accepted, Server, accept_one}

-- Nothing is left over from the messages received, and the offsets are in the buffer.
pub record IdleConn (c : Conn) : Type 0 where
  pub sized : length c.rcv_buf ≡ c.rcv_buf_size
  pub bounded : c.rcv_start_pos ≤ c.rcv_buf_size
  pub nothing_read : c.read_len ≡ 0
  pub nothing_awaited : c.want_read_len ≡ 0

unfoldable pub AllIdle : List Conn → Type 0
AllIdle cs = (p : ℕ) (c : Conn) → get_elem? cs p ≡ some c → IdleConn c

pub enter_read-InBounds :
    (c : Conn) (s : Stats) (calls : List EnqueueCall) → IdleConn c → InBounds (enter_read c s calls)
unfolding enter_read
enter_read-InBounds c s calls idle = record {
  synced = refl;
  room = omega (arith, idle.bounded);
  sized = idle.sized;
  bounded = omega (arith, idle.bounded, idle.nothing_read);
  want_len = inl idle.nothing_awaited;
}

pub leave_read-IdleConn :
    (r : Receiver) → InBounds r → r.read_len ≡ 0 → r.want_read_len ≡ 0 → IdleConn (leave_read r)
unfolding leave_read
leave_read-IdleConn r v empty idle = record {
  sized = v.sized;
  bounded = omega (arith, v.synced, v.bounded);
  nothing_read = empty;
  nothing_awaited = idle;
}

get_elem?-set_same :
    (cs : List Conn) (p : ℕ) (new c : Conn) → get_elem? (set cs p new) p ≡ some c → new ≡ c
get_elem?-set_same [] p new c at = absurd (Option.none-ne-some c at)
get_elem?-set_same (x ∷ cs) zero new c at = Option.some-injective new c at
get_elem?-set_same (x ∷ cs) (suc p) new c at = get_elem?-set_same cs p new c at

pub set-AllIdle :
    (cs : List Conn) (p : ℕ) (new : Conn) → AllIdle cs → IdleConn new → AllIdle (set cs p new)
unfolding AllIdle
set-AllIdle cs p new all idle q c at = elim (Bool-cases (p == q)) [
  | inl same ↦
      subst IdleConn
        (get_elem?-set_same cs p new c (ap (get_elem? (set cs p new)) (==→eq p q same) ∙ at)) idle
  | inr other ↦ all q c (sym (get_elem?-set cs p q new (ground (arith, other))) ∙ at)
]

new_epoll_mate_data-IdleConn :
    (mem : ℕ → Bytes) (raw : Conn) → IsAllocator mem → IdleConn (new_epoll_mate_data mem raw)
unfolding new_epoll_mate_data
new_epoll_mate_data-IdleConn mem raw ok = record {
  sized = ok.sized max_recv_buf_size;
  bounded = omega arith;
  nothing_read = refl;
  nothing_awaited = refl;
}

-- Where `new` returns blocks of the size asked for: with idle connections only, there are idle
-- connections only when one more is accepted.
pub accept_one-AllIdle :
    (mem : ℕ → Bytes) (raw : Conn) (a : Accepted) (s : Server)
    → IsAllocator mem
    → AllIdle s.mates
    → AllIdle (accept_one mem raw a s).mates
unfolding AllIdle accept_one
accept_one-AllIdle mem raw a s ok all p c at = elim (get_elem?-concat_cases s.mates _ p c at) [
  | inl before ↦ all p c before
  | inr here ↦
      let idle = new_epoll_mate_data-IdleConn mem raw ok in
      subst IdleConn here record {
        sized = idle.sized;
        bounded = idle.bounded;
        nothing_read = idle.nothing_read;
        nothing_awaited = idle.nothing_awaited;
      }
]
