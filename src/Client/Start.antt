-- ===== src/Client/Start.antt =====
-- The start and the end of the client: init_audio_client and close_audio_client
-- (audioclient/AudioClient.cpp), and OpenDataQueues, initThreadFunc, the destructor and
-- ProcRcvQueueData of ClientManagement (audioclient/ClientManage.cpp).
use epoll_based_fault_diagno.Base.{
  ℕ, zero, suc, ◌*◌, ◌≡◌, refl, ap, sym, ◌∙◌, Bool, true, false, ◌&&◌, List, [], ◌∷◌, ◌++◌, Bytes,
  Option, none, some, ℤ, pos, negsuc, add64, if◌then◌else◌, arith, Option-cases, inl, inr,
}
use epoll_based_fault_diagno.Client.Connection.{is_zero}
use epoll_based_fault_diagno.Loading.{
  Symbol, SharedObject, load_client_module, load_server_module, without_zero,
  load_server_module_complete, load_client_module-eq-load_server_module,
}

pub data ClientThread : Type 0 where
  net_work_thread output_status_thread msg_deal_thread free_memory_thread : ClientThread

pub record ClientManagement : Type 0 where
  -- The kilobytes of the two queues.
  pub local_rcv : Option ℕ
  pub net_rcv : Option ℕ
  pub running : List ClientThread

abbrev pub new_management : ClientManagement
new_management = record { local_rcv = none; net_rcv = none; running = [] }

-- What the library and the system answer; `leftover` is what a caller finds as the result of a
-- function that ends without a return.
pub record InitSys : Type 0 where
  pub lib : SharedObject
  pub leftover : ℤ
  pub queue_opens : ℕ → Bool
  pub creates : ClientThread → Bool

-- How init_audio_client ends: it throws, the line number of OpenDataQueues left out, or returns 0.
pub data Init : Type 0 where
  throws_load throws_queues : Init
  ready : ClientManagement → Init

module _ (sys : InitSys) (local_rcv_mb net_rcv_mb : ℕ) where
  -- `none` where it throws.
  unfoldable pub open_data_queues : ClientManagement → Option ClientManagement
  open_data_queues m =
      if sys.queue_opens (local_rcv_mb * 1024) && sys.queue_opens (net_rcv_mb * 1024)
      then some
          (record m { local_rcv = some (local_rcv_mb * 1024); net_rcv = some (net_rcv_mb * 1024) })
      else none

  -- pthread_create for one thread, whose failure is logged.
  unfoldable pub create_thread : ClientThread → ClientManagement → ClientManagement
  create_thread t m = if sys.creates t then record m { running = m.running ++ (t ∷ []) } else m

  unfoldable pub init_thread_func : ClientManagement → ClientManagement
  unfolding create_thread
  init_thread_func m =
      create_thread msg_deal_thread
        (create_thread output_status_thread (create_thread net_work_thread m))

  -- The result of loadDecoderModule as its caller finds it.
  unfoldable pub load_result : ℤ
  unfolding load_client_module
  load_result = elim (load_client_module sys.lib).0 as (λ _. ℤ) [
    | none ↦ sys.leftover
    | some code ↦ code
  ]

  unfoldable pub init_audio_client : Init
  unfolding load_result open_data_queues init_thread_func
  init_audio_client =
      if is_zero load_result
      then (elim (open_data_queues new_management) as (λ _. Init) [
        | none ↦ throws_queues
        | some m ↦ ready (init_thread_func m)
      ])
      else throws_load

-- The threads that the destructor joins, called by close_audio_client.
unfoldable pub joined : List ClientThread
joined = net_work_thread ∷ msg_deal_thread ∷ output_status_thread ∷ free_memory_thread ∷ []

loads_complete :
    (lib : SharedObject) → (load_client_module lib).0 ≡ none → (name : Symbol) → lib.has name ≡ true
loads_complete lib h = load_server_module_complete lib (
    zero_of_none (load_server_module lib).0
      (ap (λ r. r.0) (sym (load_client_module-eq-load_server_module lib)) ∙ h))
  where
    zero_of_none : (code : ℤ) → without_zero code ≡ none → code ≡ pos 0
    zero_of_none (pos zero) e = refl
    zero_of_none (pos (suc n)) e = ground (arith, e)
    zero_of_none (negsuc n) e = ground (arith, e)

is_zero_eq : (z : ℤ) → is_zero z ≡ true → z ≡ pos 0
is_zero_eq (pos zero) h = refl
is_zero_eq (pos (suc n)) h = ground (arith, h)
is_zero_eq (negsuc n) h = ground (arith, h)

-- A code that the client's loading returns by itself is not 0.
loads_nonzero :
    (lib : SharedObject) (code : ℤ) → (load_client_module lib).0 ≡ some code → is_zero code ≡ false
unfolding load_client_module
loads_nonzero lib code h = ground (arith, h)

load_result_zero :
    (sys : InitSys) (local_rcv_mb net_rcv_mb : ℕ)
    → is_zero (load_result sys local_rcv_mb net_rcv_mb) ≡ true
    → ((load_client_module sys.lib).0 ≡ none) × (sys.leftover ≡ pos 0)
unfolding load_result
load_result_zero sys local_rcv_mb net_rcv_mb h =
    elim (Option-cases (load_client_module sys.lib).0) [
      | inl none_set ↦ (none_set, is_zero_eq sys.leftover (rw (load_result, none_set) at h))
      | inr (code, set) ↦
          let zero_code : is_zero code ≡ true = rw (load_result, set) at h in
          cc (zero_code, loads_nonzero sys.lib code set)
    ]

init-ready_parts :
    (sys : InitSys) (local_rcv_mb net_rcv_mb : ℕ) (m : ClientManagement)
    → init_audio_client sys local_rcv_mb net_rcv_mb ≡ ready m
    → (is_zero (load_result sys local_rcv_mb net_rcv_mb) ≡ true)
      × (m.local_rcv ≡ some (local_rcv_mb * 1024))
      × (m.net_rcv ≡ some (net_rcv_mb * 1024))
unfolding init_audio_client open_data_queues init_thread_func create_thread
init-ready_parts sys local_rcv_mb net_rcv_mb m h = ground (arith, h)

-- Whatever the library has and the system answers: when init_audio_client returns 0, the library has
-- every name, both queues are open with the sizes of the settings, and the result that
-- loadDecoderModule never sets happened to be 0; with any other value there the client does not
-- start on a library with every name either.
pub init_audio_client-ready :
    (sys : InitSys) (local_rcv_mb net_rcv_mb : ℕ) (m : ClientManagement)
    → init_audio_client sys local_rcv_mb net_rcv_mb ≡ ready m
    → ((name : Symbol) → sys.lib.has name ≡ true)
      × (sys.leftover ≡ pos 0)
      × (m.local_rcv ≡ some (local_rcv_mb * 1024))
      × (m.net_rcv ≡ some (net_rcv_mb * 1024))
init_audio_client-ready sys local_rcv_mb net_rcv_mb m h =
    let (zero_result, local_open, net_open) = init-ready_parts sys local_rcv_mb net_rcv_mb m h in
    let (none_set, unset_zero) = load_result_zero sys local_rcv_mb net_rcv_mb zero_result in
    (loads_complete sys.lib none_set, unset_zero, local_open, net_open)

-- ProcRcvQueueData: the rounds until `g_isExit` is seen, with `g_iRcvMsgCnt`. A message is taken off
-- the queue and nothing is done with it; the test of its type has an empty branch.
module _ (dequeue : List Bytes → Option (Bytes × List Bytes)) where
  unfoldable pub proc_rcv_queue_data : ℕ → List Bytes → ℕ → ℕ × List Bytes
  proc_rcv_queue_data zero queue cnt = (cnt, queue)
  proc_rcv_queue_data (suc rounds) queue cnt = elim (dequeue queue) as (λ _. ℕ × List Bytes) [
    | none ↦ proc_rcv_queue_data rounds queue cnt
    | some (block, rest) ↦ proc_rcv_queue_data rounds rest (add64 cnt 1)
  ]
