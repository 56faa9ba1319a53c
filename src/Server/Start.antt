-- ===== src/Server/Start.antt =====
-- The start of the server: main (audioserver/main.cpp), already_running and systemInitialize
-- (audioserver/global.cpp), and StartServer and the destructor of AudioServer
-- (audioserver/AudioServer.cpp). What the system answers is a parameter. The clock, the names of the
-- log files, `-d` and the masks of signals change nothing that is modelled, and are left out.
pub mod Threads
use epoll_based_fault_diagno.Base.{
  ℕ, zero, suc, ◌+◌, ◌*◌, ◌/◌, ◌≡◌, Bool, true, false, List, [], ◌∷◌, ◌++◌, ℤ, pos, negsuc, is_neg,
  if◌then◌else◌, replicate,
}
use epoll_based_fault_diagno.Loading.{SharedObject, load_server_module}
use epoll_based_fault_diagno.Server.Receive.{Stats}

pub data Thread : Type 0 where
  listen_thread output_state_thread thread_scan_thread : Thread
  worker_thread : ℕ → Thread

-- AudioServer: `m_bStarted`, and the threads that run.
pub record AudioServer : Type 0 where
  pub started : Bool
  pub running : List Thread

abbrev pub new_server : AudioServer
new_server = record { started = false; running = [] }

-- The counters that StartServer sets to 0.
unfoldable pub reset_counters : Stats → Stats
reset_counters s = record s {
  header_err_cnt = 0;
  header_err_bytes = 0;
  head_err = false;
  rcv_pcm_block_cnt = 0;
  mov_buf_cnt = 0;
}

-- The worker threads from index `i` on, `k` of them.
unfoldable pub workers : ℕ → ℕ → List Thread
workers i zero = []
workers i (suc k) = worker_thread i ∷ workers (suc i) k

-- The threads in the order in which they are created, and joined; the last one runs where
-- `g_coordinationRate` is above 0.
unfoldable pub threads : ℕ → Bool → List Thread
unfolding workers
threads n scans =
    listen_thread
    ∷ (workers 0 n ++ (output_state_thread ∷ (if scans then thread_scan_thread ∷ [] else [])))

-- pthread_create for each: a thread that cannot be created is logged, and the next is tried.
unfoldable pub create_all : (Thread → Bool) → List Thread → List Thread
create_all creates [] = []
create_all creates (t ∷ ts) =
    let rest = create_all creates ts in if creates t then t ∷ rest else rest

unfoldable pub start_server : (Thread → Bool) → ℕ → Bool → AudioServer → AudioServer
unfolding threads create_all
start_server creates n scans s =
    if s.started
    then s
    else record { started = true; running = s.running ++ create_all creates (threads n scans) }

-- The handles that the destructor hands to pthread_join, in its order.
unfoldable pub joined : ℕ → Bool → AudioServer → List Thread
unfolding threads
joined n scans s = if s.started then threads n scans else []

-- What the calls of the start answer: open and fcntl for the lock file, whether errno is EACCES or
-- EAGAIN then, the library, sigaction, and pthread_create.
pub record StartSys : Type 0 where
  pub lock_fd : ℤ
  pub lock : ℤ
  pub lock_busy : Bool
  pub lib : SharedObject
  pub sigaction : ℤ
  pub creates : Thread → Bool

-- How main goes on: exit with a code, a return with no server started, or a server with its queues,
-- by the kilobytes that OpenDataQueue is asked for.
pub data Startup : Type 0 where
  exits : ℤ → Startup
  returns : Startup
  serves : List ℕ → AudioServer → Startup

-- already_running: its result, or `inl` where it exits by itself.
pub data Lock : Type 0 where
  lock_exits held free : Lock

unfoldable pub already_running : StartSys → Lock
already_running sys =
    if is_neg sys.lock_fd
    then lock_exits
    else (if is_neg sys.lock then (if sys.lock_busy then held else lock_exits) else free)

module _ (sys : StartSys) (queue_mb n : ℕ) (scans : Bool) where
  -- The receive queues: `n` of them share the megabytes of the settings. `n` is not 0.
  unfoldable pub queues : List ℕ
  queues = replicate n (queue_mb * 1024 / n)

  unfoldable pub system_initialize : Startup
  unfolding load_server_module queues start_server
  system_initialize = elim (load_server_module sys.lib).0 as (λ _. Startup) [
    | negsuc code ↦ exits (negsuc 1)
    | pos zero ↦
        if is_neg sys.sigaction
        then returns
        else serves queues (start_server sys.creates n scans new_server)
    | pos (suc k) ↦ exits (negsuc 1)
  ]

  unfoldable pub main : Startup
  unfolding already_running system_initialize
  main = elim (already_running sys) as (λ _. Startup) [
    | lock_exits ↦ exits (pos 1)
    | held ↦ exits (pos 1)
    | free ↦ system_initialize
  ]
