-- ===== src/Tests/Starting.antt =====
-- The start of the server and the client, the worker threads and the status.
use epoll_based_fault_diagno.Base.{◌≡◌, ◌*◌, refl, true, false, [], ◌∷◌, some, ℤ, pos}
use epoll_based_fault_diagno.Loading.{
  Symbol, SharedObject, load_client_module, load_server_module, without_zero, look_up,
  load_client_module-eq-load_server_module,
}
use epoll_based_fault_diagno.Server.Start.{Thread, AudioServer, StartSys}
use epoll_based_fault_diagno.Client.Start
use epoll_based_fault_diagno.Client.Start.{
  InitSys, ClientManagement, ready, new_management, init_audio_client, init_thread_func,
  load_result, open_data_queues, create_thread, init_audio_client-ready,
}

abbrev complete : SharedObject
complete = record { opens = true; has = λ name. true }

abbrev partial : SharedObject
partial = record {
  opens = true;
  has = λ name. elim name [ Symbol.de_data_queue ↦ false | _ ↦ true ];
}

load_client_module-eq-load_server_module_example :
    load_client_module partial
    ≡ (without_zero (load_server_module partial).0, (load_server_module partial).1)
load_client_module-eq-load_server_module_example = load_client_module-eq-load_server_module partial

abbrev start_sys : StartSys
start_sys = record {
  lock_fd = pos 3;
  lock = pos 0;
  lock_busy = false;
  lib = complete;
  sigaction = pos 0;
  creates = λ t. true;
}

abbrev two_workers : AudioServer
two_workers = record {
  started = true;
  running =
      Thread.listen_thread
      ∷ Thread.worker_thread 0
      ∷ Thread.worker_thread 1
      ∷ Thread.output_state_thread
      ∷ [];
}

abbrev lucky : InitSys
lucky = record { lib = complete; leftover = pos 0; queue_opens = λ n. true; creates = λ t. true }

abbrev started_client : ClientManagement
started_client = record {
  local_rcv = some 524288;
  net_rcv = some 262144;
  running =
      Start.ClientThread.net_work_thread ∷ Start.ClientThread.output_status_thread
      ∷ Start.ClientThread.msg_deal_thread ∷ [];
}

starts : init_audio_client lucky 512 256 ≡ ready started_client
unfolding init_audio_client load_result load_client_module look_up open_data_queues init_thread_func
    create_thread
starts = refl

init_audio_client-ready_example :
    ((name : Symbol) → complete.has name ≡ true)
    × (◌≡◌ {A = ℤ} (pos 0) (pos 0))
    × (some 524288 ≡ some (512 * 1024))
    × (some 262144 ≡ some (256 * 1024))
init_audio_client-ready_example = init_audio_client-ready lucky 512 256 started_client starts
