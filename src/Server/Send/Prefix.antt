-- ===== src/Server/Send/Prefix.antt =====
-- TcpSendData sends a prefix of its data, and returns how long that is.
use epoll_based_fault_diagno.Base.{
  ℕ, ◌+◌, ◌-◌, ◌≤◌, ◌<◌, ◌≡◌, ◌≢◌, ◌⊎◌, refl, sym, List, [], ◌∷◌, ◌++◌, Bytes, arith, Option, some,
  ℤ, pos, negsuc, length, take, drop, take-append-take, drop-drop, ◌==◌, Bool-cases, inl, inr,
  ==→eq, ==→ne, eq→==, subst, take-all,
}
use epoll_based_fault_diagno.Socket.{Errno, eintr, eagain, other, Sent, sent, refused}
use epoll_based_fault_diagno.Server.Send.{SendOut, send_loop, tcp_send_data}

-- send takes at least one byte and at most those that it is offered, or fails.
abbrev pub Obeys : List Sent → ℕ → Type 0
Obeys [] left = Unit {0}
Obeys (sent k ∷ rs) left = (left ≡ 0) ⊎ ((0 < k) × (k ≤ left) × Obeys rs (left - k))
Obeys (refused e ∷ rs) left = Unit {0}

-- The first failure of send, if there is one, is not EAGAIN.
abbrev pub Aborts : List Sent → Type 0
Aborts [] = ⊥
Aborts (sent k ∷ rs) = Aborts rs
Aborts (refused err ∷ rs) = err ≢ eagain

-- The bytes on the network are a prefix of the data, and the result is its length, or -1 where send
-- fails with another error than EAGAIN.
pub record SendsPrefix (rs : List Sent) (data0 : Bytes) (o : SendOut) : Type 0 where
  pub gone : ℕ
  pub within : gone ≤ length data0
  pub wire_is : o.wire ≡ take gone data0
  pub ret_is : (o.ret ≡ pos gone) ⊎ ((o.ret ≡ negsuc 0) × Aborts rs)

-- The state of the loop after `n` bytes.
abbrev at_byte : List Sent → Bytes → ℕ → Errno → Option SendOut
at_byte rs data0 n errno =
    send_loop rs (length data0) (length data0 - n) (drop n data0) (take n data0) errno

at_byte_sent :
    (rs : List Sent) (data0 : Bytes) (n k : ℕ) (errno : Errno)
    → send_loop rs
        (length data0)
        (length data0 - n - k)
        (drop k (drop n data0))
        (take n data0 ++ take k (drop n data0))
        errno
      ≡ at_byte rs data0 (n + k) errno
at_byte_sent rs data0 n k errno =
    rw (take-append-take n k (n + k) data0 refl, drop-drop n k (n + k) data0 refl, left)
  where
    left : length data0 - n - k ≡ length data0 - (n + k)
    left = omega arith

-- The call returns, with a prefix of the data sent.
abbrev Returns : List Sent → Bytes → Option SendOut → Type 0
Returns rs data0 r = (o : SendOut) × (r ≡ some o) × SendsPrefix rs data0 o

stops :
    (rs : List Sent) (data0 : Bytes) (n : ℕ) (o : SendOut)
    → n ≤ length data0
    → o.wire ≡ take n data0
    → (o.ret ≡ pos (length data0 - (length data0 - n))) ⊎ ((o.ret ≡ negsuc 0) × Aborts rs)
    → Returns rs data0 (some o)
stops rs data0 n o h w r =
    (o, refl, record { gone = n; within = h; wire_is = w; ret_is = counted r })
  where
    counted :
        (o.ret ≡ pos (length data0 - (length data0 - n))) ⊎ ((o.ret ≡ negsuc 0) × Aborts rs)
        → (o.ret ≡ pos n) ⊎ ((o.ret ≡ negsuc 0) × Aborts rs)
    counted (inl e) = inl (ground (arith, e))
    counted (inr e) = inr e

refused_ret :
    (err : Errno) (rs : List Sent) (n : ℕ)
    → (◌≡◌ {A = ℤ} (elim err [ eagain ↦ pos n | _ ↦ negsuc 0 ]) (pos n))
      ⊎ ((◌≡◌ {A = ℤ} (elim err [ eagain ↦ pos n | _ ↦ negsuc 0 ]) (negsuc 0))
          × Aborts (refused err ∷ rs))
refused_ret eintr rs n = inr (refl, λ e. cc)
refused_ret eagain rs n = inl refl
refused_ret other rs n = inr (refl, λ e. cc)

send_loop-Returns :
    (rs : List Sent) (data0 : Bytes) (n : ℕ) (errno : Errno)
    → n ≤ length data0
    → length data0 - n ≤ length rs
    → Obeys rs (length data0 - n)
    → Returns rs data0 (at_byte rs data0 n errno)
unfolding send_loop
send_loop-Returns [] data0 n errno h enough ob =
    rw (eq→== (length data0 - n) 0 (omega arith)) (stops [] data0 n _ h refl (inl refl))
send_loop-Returns (sent k ∷ rs) data0 n errno h enough ob =
    elim (Bool-cases (length data0 - n == 0)) [
      | inl done ↦ rw done (stops (sent k ∷ rs) data0 n _ h refl (inl refl))
      | inr more ↦ rw more (elim ob [
        | inl none_left ↦ absurd (==→ne (length data0 - n) 0 more none_left)
        | inr (some_bytes, offered, later) ↦ rw (at_byte_sent rs data0 n k errno) (
            later_lem (
              send_loop-Returns rs data0 (n + k) errno (omega arith) (omega arith)
                (subst (Obeys rs) (omega arith) later)))
      ])
    ]
  where
    later_lem : {r : Option SendOut} → Returns rs data0 r → Returns (sent k ∷ rs) data0 r
    later_lem (o, e, p) =
        (o, e, record { gone = p.gone; within = p.within; wire_is = p.wire_is; ret_is = p.ret_is })
send_loop-Returns (refused err ∷ rs) data0 n errno h enough ob =
    elim (Bool-cases (length data0 - n == 0)) [
      | inl done ↦ rw done (stops (refused err ∷ rs) data0 n _ h refl (inl refl))
      | inr more ↦ rw more (stops (refused err ∷ rs) data0 n _ h refl (refused_ret err rs _))
    ]

-- When send takes between one and all of the bytes it is offered, or fails, TcpSendData returns
-- after at most one call of send for each byte. What went over the network is a prefix of the data,
-- and the result is the length of that prefix; or it is -1, where the first failure of send is
-- another error than EAGAIN.
pub tcp_send_data-Returns :
    (rs : List Sent) (data0 : Bytes) (errno : Errno)
    → length data0 ≤ length rs
    → Obeys rs (length data0)
    → (o : SendOut) × (tcp_send_data rs data0 (length data0) errno ≡ some o)
      × SendsPrefix rs data0 o
unfolding tcp_send_data
tcp_send_data-Returns rs data0 errno enough ob =
    let all : length data0 - 0 ≡ length data0 = omega arith in
    subst (λ l. Returns rs data0 (send_loop rs (length data0) l data0 [] errno)) all
      (send_loop-Returns rs data0 0 errno (omega arith) (omega arith)
        (subst (Obeys rs) (sym all) ob))

-- Where send never fails, all of the data goes out.
abbrev pub NeverRefused : List Sent → Type 0
NeverRefused [] = Unit {0}
NeverRefused (sent k ∷ rs) = NeverRefused rs
NeverRefused (refused e ∷ rs) = ⊥

send_loop-all :
    (rs : List Sent) (data0 : Bytes) (n : ℕ) (errno : Errno)
    → n ≤ length data0
    → length data0 - n ≤ length rs
    → Obeys rs (length data0 - n)
    → NeverRefused rs
    → (o : SendOut) × (at_byte rs data0 n errno ≡ some o)
      × (o.ret ≡ pos (length data0))
      × (o.wire ≡ data0)
unfolding send_loop
send_loop-all [] data0 n errno h enough ob nr =
    rw (eq→== (length data0 - n) 0 (omega arith))
      (_, refl, ground arith, take-all n data0 (omega arith))
send_loop-all (sent k ∷ rs) data0 n errno h enough ob nr =
    elim (Bool-cases (length data0 - n == 0)) [
      | inl done ↦ rw done (
        _,
        refl,
        ground (arith, done),
        take-all n data0 (omega (arith, ==→eq (length data0 - n) 0 done)),
      )
      | inr more ↦ rw more (elim ob [
        | inl none_left ↦ absurd (==→ne (length data0 - n) 0 more none_left)
        | inr (some_bytes, offered, later) ↦ rw (at_byte_sent rs data0 n k errno) (
            send_loop-all rs data0 (n + k) errno (omega arith) (omega arith)
              (subst (Obeys rs) (omega arith) later) nr)
      ])
    ]
send_loop-all (refused err ∷ rs) data0 n errno h enough ob nr = absurd nr

-- When send takes between one and all of the bytes it is offered, and never fails, TcpSendData
-- returns after at most one call for each byte, all of the data has gone out, and the result is its
-- length.
pub tcp_send_data-all :
    (rs : List Sent) (data0 : Bytes) (errno : Errno)
    → length data0 ≤ length rs
    → Obeys rs (length data0)
    → NeverRefused rs
    → (o : SendOut) × (tcp_send_data rs data0 (length data0) errno ≡ some o)
      × (o.ret ≡ pos (length data0))
      × (o.wire ≡ data0)
unfolding tcp_send_data
tcp_send_data-all rs data0 errno enough ob nr =
    let all : length data0 - 0 ≡ length data0 = omega arith in
    subst
      (λ l.
        (o : SendOut) × (send_loop rs (length data0) l data0 [] errno ≡ some o)
        × (o.ret ≡ pos (length data0))
        × (o.wire ≡ data0))
      all
      (send_loop-all rs data0 0 errno (omega arith) (omega arith) (subst (Obeys rs) (sym all) ob)
        nr)
