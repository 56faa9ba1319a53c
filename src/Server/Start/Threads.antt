-- ===== src/Server/Start/Threads.antt =====
-- When the server runs, and with which threads and queues.
use epoll_based_fault_diagno.Base.{
  ℕ, ◌+◌, ◌*◌, ◌≤◌, ◌≡◌, refl, sym, Bool, true, false, List, [], ◌∷◌, is_neg, length,
}
use epoll_based_fault_diagno.Loading.{Symbol}
use epoll_based_fault_diagno.Server.Start.{
  Thread, AudioServer, new_server, threads, create_all, start_server, joined, StartSys,
}

create_all_lem :
    (creates : Thread → Bool) (ts : List Thread)
    → ((t : Thread) → creates t ≡ true)
    → create_all creates ts ≡ ts
unfolding create_all
create_all_lem creates [] works = refl
create_all_lem creates (t ∷ ts) works = rw (works t, create_all_lem creates ts works) refl

-- Where pthread_create works, the threads that the destructor joins are those that StartServer
-- created, each once and in the same order, and a second StartServer creates none.
pub joined-start_server :
    (creates : Thread → Bool) (n : ℕ) (scans : Bool)
    → ((t : Thread) → creates t ≡ true)
    → let s = start_server creates n scans new_server in
      (joined n scans s ≡ s.running) × (start_server creates n scans s ≡ s)
unfolding start_server joined
joined-start_server creates n scans works =
    (sym (create_all_lem creates (threads n scans) works), refl)

-- `sum` of what the queues ask for.
unfoldable pub total : List ℕ → ℕ
total [] = 0
total (k ∷ ks) = k + total ks

-- What holds when main has come to a running server.
pub record Serving (sys : StartSys) (queue_mb n : ℕ) (qs : List ℕ) (s : AudioServer) : Type 0 where
  pub lock_taken : (is_neg sys.lock_fd ≡ false) × (is_neg sys.lock ≡ false)
  pub loaded : (name : Symbol) → sys.lib.has name ≡ true
  pub one_queue_each : length qs ≡ n
  pub within_setting : total qs ≤ queue_mb * 1024
  pub is_started : s.started ≡ true
