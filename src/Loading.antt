-- ===== src/Loading.antt =====
-- loadDecoderModule: the functions of libmmdecoder.so are looked up by name, in the server
-- (audioserver/AudioServer.cpp) and in the client (audioclient/mylog.cpp).
use epoll_based_fault_diagno.Base.{
  zero, suc, ◌≡◌, Bool, true, List, [], ◌∷◌, Option, none, some, ℤ, pos, negsuc, if◌then◌else◌,
  arith,
}

-- The names that are looked up.
pub data Symbol : Type 0 where
  open_log_file write_log close_log : Symbol
  open_data_queue get_data_queue_info en_data_queue : Symbol
  de_data_queue data_queue_is_full close_data_queue : Symbol

-- What dlopen and dlsym answer: whether the file is there, and which names it has.
pub record SharedObject : Type 0 where
  pub opens : Bool
  pub has : Symbol → Bool

-- The pointers that were set, the latest first.
abbrev pub Bound : Type 0
Bound = List Symbol

-- One lookup: where dlerror reports a failure, the function returns `code`.
unfoldable pub look_up :
    {R : Type 0} → SharedObject → Symbol → R → (Bound → R × Bound) → Bound → R × Bound
look_up lib name code next bound = if lib.has name then next (name ∷ bound) else (code, bound)

-- The server's.
unfoldable pub load_server_module : SharedObject → ℤ × Bound
unfolding look_up
load_server_module lib =
    if lib.opens
    then (look_up lib open_log_file (negsuc 2)
        (look_up lib write_log (negsuc 4) (
          look_up lib close_log (negsuc 6) (
            look_up lib open_data_queue (negsuc 9) (
              look_up lib get_data_queue_info (negsuc 10) (
                look_up lib en_data_queue (negsuc 11) (
                  look_up lib de_data_queue (negsuc 12) (
                    look_up lib data_queue_is_full (negsuc 13)
                      (look_up lib close_data_queue (negsuc 14) (λ bound. (pos 0, bound))))))))))
        [])
    else (negsuc 0, [])

-- The client's. It ends without a return: the value is then none that C++ gives.
unfoldable pub load_client_module : SharedObject → Option ℤ × Bound
unfolding look_up
load_client_module lib =
    if lib.opens
    then (look_up lib open_log_file (some (negsuc 2))
        (look_up lib write_log (some (negsuc 4)) (
          look_up lib close_log (some (negsuc 6)) (
            look_up lib open_data_queue (some (negsuc 9)) (
              look_up lib get_data_queue_info (some (negsuc 10)) (
                look_up lib en_data_queue (some (negsuc 11)) (
                  look_up lib de_data_queue (some (negsuc 12)) (
                    look_up lib data_queue_is_full (some (negsuc 13)) (
                      look_up lib close_data_queue (some (negsuc 14))
                        (λ bound. (none, bound))))))))))
        [])
    else (some (negsuc 0), [])

-- What the client's result is where the server's is `code`.
abbrev pub without_zero : ℤ → Option ℤ
without_zero (pos zero) = none
without_zero (pos (suc n)) = some (pos (suc n))
without_zero (negsuc n) = some (negsuc n)

-- Whatever the library has, the server and the client set the same pointers. Where the server reports
-- a failure the client reports it with the same code; where the server returns 0 the client's result
-- is undefined.
pub load_client_module-eq-load_server_module :
    (lib : SharedObject)
    → load_client_module lib ≡ (without_zero (load_server_module lib).0, (load_server_module lib).1)
unfolding load_client_module load_server_module
load_client_module-eq-load_server_module lib = ground arith

-- Where the server's loading returns 0, the library has every name, and every pointer was set.
pub load_server_module_complete :
    (lib : SharedObject)
    → (load_server_module lib).0 ≡ pos 0
    → (name : Symbol) → lib.has name ≡ true
unfolding load_server_module
load_server_module_complete lib h open_log_file = ground (arith, h)
load_server_module_complete lib h name = ground (arith, h)
