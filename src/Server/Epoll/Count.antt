-- ===== src/Server/Epoll/Count.antt =====
-- The count of connections that the event loop keeps.
use epoll_based_fault_diagno.Base.{
  ℕ, zero, suc, ◌+◌, ◌≡◌, refl, sym, ap, Bool, true, false, List, [], ◌∷◌, ◌++◌, Bytes, Option,
  none, some, ℤ, pos, negsuc, is_neg, get_elem?, get_or, set, arith, if◌then◌else◌, Bool-cases,
  Option-cases, inl, inr,
}
use epoll_based_fault_diagno.Server.Conn.{Conn}
use epoll_based_fault_diagno.Server.Epoll.{
  Callback, Server, Accepted, incoming, ready, handle, inc, dec, close_mate, accept_one, accept_all,
  after_callback, dispatch, on_ready,
}
use Prim.Native.Nat.{bit_or}
use mathlib.Core.Option

-- 1 for a connection with a socket, else 0.
unfoldable pub live : Conn → ℕ
live c = if is_neg c.fd then 0 else 1

unfoldable pub live_count : List Conn → ℕ
unfolding live
live_count [] = 0
live_count (c ∷ cs) = live c + live_count cs

-- A callback leaves the socket of its connection alone.
unfoldable pub KeepsFd : {W : Type 0} → Callback W → Type 0
KeepsFd {W = W} cb = (c : Conn) (w : W) → (cb c w).0.1.fd ≡ c.fd

-- The slot leads to no closed connection.
unfoldable pub SlotLive : ℕ → Server → Type 0
SlotLive i s =
    (p : ℕ) (c : Conn)
    → get_or s.slots i none ≡ some p
    → get_elem? s.mates p ≡ some c
    → is_neg c.fd ≡ false

unfoldable pub Counted : Server → Type 0
Counted s = s.client_cnt ≡ pos (live_count s.mates)

live_count-set :
    (cs : List Conn) (p : ℕ) (c new : Conn)
    → get_elem? cs p ≡ some c
    → live_count (set cs p new) + live c ≡ live_count cs + live new
unfolding live_count
live_count-set [] p c new there = ground arith
live_count-set (x ∷ cs) zero c new there =
    let same : live x ≡ live c = ap live (Option.some-injective x c there) in omega (arith, same)
live_count-set (x ∷ cs) (suc p) c new there =
    let tail = live_count-set cs p c new there in omega (arith, tail)

live_count-append : (cs ds : List Conn) → live_count (cs ++ ds) ≡ live_count cs + live_count ds
unfolding live_count
live_count-append [] ds = omega arith
live_count-append (c ∷ cs) ds = rw (live_count-append cs ds) (omega arith)

live_one : (c : Conn) → is_neg c.fd ≡ false → live c ≡ 1
unfolding live
live_one c alive = rw alive refl

live_count-put :
    (cs : List Conn) (p : ℕ) (c new : Conn)
    → get_elem? cs p ≡ some c
    → new.fd ≡ c.fd
    → live_count (set cs p new) ≡ live_count cs
unfolding live
live_count-put cs p c new there same =
    let at = live_count-set cs p c new there in
    let fits : live new ≡ live c = ap (λ fd. if is_neg fd then 0 else 1) same in
    omega (arith, at, fits)

dec-suc : (z : ℤ) (n m : ℕ) → suc n ≡ m → z ≡ pos m → dec z ≡ pos n
unfolding dec
dec-suc z n m more at = rw (at, sym more) refl

-- A live connection is closed: one less.
close_mate-Counted :
    (i p flag : ℕ) (old c : Conn) (s : Server)
    → get_elem? s.mates p ≡ some old
    → is_neg old.fd ≡ false
    → Counted s
    → Counted (close_mate i p flag c s)
unfolding Counted close_mate live
close_mate-Counted i p flag old c s there alive counted =
    let closed = record c { close_type = bit_or c.close_type flag; fd = negsuc 0 } in
    let at = live_count-set s.mates p old closed there in
    dec-suc s.client_cnt (live_count (set s.mates p closed)) (live_count s.mates)
      (omega (arith, at, live_one old alive)) counted

module _ (mem : ℕ → Bytes) (raw : Conn) where
  accept_one-Counted : (a : Accepted) (s : Server) → Counted s → Counted (accept_one mem raw a s)
  unfolding Counted accept_one live_count live inc
  accept_one-Counted a s counted = rw (live_count-append s.mates, counted) (ap pos (omega arith))

  pub accept_all-Counted :
      (accepted : List Accepted) (s : Server) → Counted s → Counted (accept_all mem raw accepted s)
  unfolding accept_all
  accept_all-Counted [] s counted = counted
  accept_all-Counted (a ∷ more) s counted =
      accept_all-Counted more (accept_one mem raw a s) (accept_one-Counted a s counted)

after_callback-Counted :
    (i p flag : ℕ) (c : Conn) (result : ℤ × Conn) (s : Server)
    → result.1.fd ≡ c.fd
    → get_elem? s.mates p ≡ some c
    → is_neg c.fd ≡ false
    → Counted s
    → Counted (after_callback i p flag result s)
unfolding after_callback Counted
after_callback-Counted i p flag c result s keeps there alive counted =
    elim (Bool-cases (is_neg result.0)) [
      | inl below ↦ rw below (close_mate-Counted i p flag c result.1 s there alive counted)
      | inr fine ↦ rw (fine, live_count-put s.mates p c result.1 there keeps) counted
    ]

module _ {W : Type 0} (read_cb write_cb : Callback W) (r : KeepsFd read_cb)
    (w : KeepsFd write_cb) where
  dispatch-Counted :
      (i p : ℕ) (c : Conn) (inn out err : Bool) (t : W × Server)
      → get_elem? t.1.mates p ≡ some c
      → is_neg c.fd ≡ false
      → Counted t.1
      → Counted (dispatch read_cb write_cb i p c inn out err t).1
  unfolding dispatch KeepsFd
  dispatch-Counted i p c true out err (x, s) there alive counted =
      after_callback-Counted i p 256 c (read_cb c x).0 s (r c x) there alive counted
  dispatch-Counted i p c false true err (x, s) there alive counted =
      after_callback-Counted i p 512 c (write_cb c x).0 s (w c x) there alive counted
  dispatch-Counted i p c false false true (x, s) there alive counted =
      close_mate-Counted i p 1024 c c s there alive counted
  dispatch-Counted i p c false false false (x, s) there alive counted = counted

  pub on_ready-Counted :
      (i : ℕ) (inn out err : Bool) (t : W × Server) (q : Option ℕ)
      → ((p : ℕ) (c : Conn) → q ≡ some p → get_elem? t.1.mates p ≡ some c → is_neg c.fd ≡ false)
      → Counted t.1
      → Counted (on_ready read_cb write_cb i q inn out err t).1
  unfolding on_ready
  on_ready-Counted i inn out err t none alive counted = counted
  on_ready-Counted i inn out err t (some p) alive counted =
      elim (Option-cases (get_elem? t.1.mates p)) [
        | inl missing ↦ rw (missing, on_ready) counted
        | inr (c, there) ↦
            rw (there, on_ready)
              (dispatch-Counted i p c inn out err t there (alive p c refl there) counted)
      ]

module _ {W : Type 0} (mem : ℕ → Bytes) (raw : Conn) (read_cb write_cb : Callback W) where
  -- How the server gets from one state to another: it handles connections that come in, or events of
  -- connections that are not closed, at whatever slots epoll_wait writes.
  pub data Runs : W × Server → W × Server → Type 0 where
    start : {s : W × Server} → Runs s s
    wait :
        {s t : W × Server} (slots' : List (Option ℕ))
        → Runs s t
        → Runs s (t.0, record (t.1) { slots = slots' })
    arrive :
        {s t : W × Server} (i : ℕ) (accepted : List Accepted)
        → Runs s t
        → Runs s (handle mem raw read_cb write_cb i (incoming accepted) t)
    serve :
        {s t : W × Server} (i : ℕ) (inn out err : Bool)
        → SlotLive i (t.1)
        → Runs s t
        → Runs s (handle mem raw read_cb write_cb i (ready inn out err) t)

  -- When the callbacks leave the sockets of their connections alone, and the events that arrive are
  -- those of open connections, `m_iClientCnt` is at all times the number of connections whose
  -- socket is open, through accepts, callbacks and all three ways to close a connection; so it is
  -- never negative.
  pub Runs-Counted :
      (s t : W × Server) → KeepsFd read_cb → KeepsFd write_cb → Runs s t → Counted s.1 → Counted t.1
  unfolding handle Counted SlotLive
  Runs-Counted s _ r w start counted = counted
  Runs-Counted s _ r w (wait slots' run) counted = Runs-Counted s _ r w run counted
  Runs-Counted s _ r w (arrive {t = t} i accepted run) counted =
      accept_all-Counted mem raw accepted t.1 (Runs-Counted s t r w run counted)
  Runs-Counted s _ r w (serve {t = t} i inn out err alive run) counted =
      on_ready-Counted read_cb write_cb r w i inn out err t (get_or t.1.slots i none) alive
        (Runs-Counted s t r w run counted)
