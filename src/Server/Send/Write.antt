-- ===== src/Server/Send/Write.antt =====
-- AudioServer::writeFunc over the life of one message, and what it does with nothing in sending.
use mathlib.Core.Option
use epoll_based_fault_diagno.Base.{
  ℕ, ◌+◌, ◌-◌, ◌≤◌, ◌<◌, ◌≡◌, ◌⊎◌, refl, ap, sym, subst, ◌∙◌, false, inl, inr, List, [], ◌++◌,
  Bytes, arith, some, ℤ, pos, negsuc, length, length-drop, take-append-take, append-nil, take-all,
  zero, suc, take, drop, Bool-cases, Option-cases, is_neg, ◌==◌, ==→eq, ne→==, eq→==,
}
use epoll_based_fault_diagno.Socket.{Errno, eintr, Sent}
use epoll_based_fault_diagno.Server.Conn.{Conn}
use epoll_based_fault_diagno.Server.Send.{
  SendOut, SendStats, WriteOut, tcp_send_data, note_result, send_message, write_func,
}
use epoll_based_fault_diagno.Server.Send.Prefix.{Obeys, Aborts, tcp_send_data-Returns}

-- `msg` is in sending: `m_iSentLen` bytes of it are out, `m_iWantSndLen` are not.
pub record Sending (msg : Bytes) (c : Conn) : Type 0 where
  pub buffer : c.snd_buf ≡ msg
  pub lengths : c.sent_len + c.want_snd_len ≡ length msg

-- After a call: the message is out, and the call says so with 1; or it is in sending still, and what
-- counts as sent is what has gone out.
abbrev pub Resumes : Bytes → Conn → WriteOut → Type 0
Resumes msg c o =
    ((o.code ≡ pos 1)
      × (o.conn.want_snd_len ≡ 0)
      × (o.conn.sent_len ≡ 0)
      × (take c.sent_len msg ++ o.wire ≡ msg))
    ⊎ ((o.code ≡ pos 0)
        × Sending msg o.conn
        × (take c.sent_len msg ++ o.wire ≡ take o.conn.sent_len msg))

note_result-Resumes :
    (msg : Bytes) (c : Conn) (s : SendStats) (o : SendOut) (n : ℕ)
    → Sending msg c
    → 0 < c.want_snd_len
    → n ≤ c.want_snd_len
    → o.ret ≡ pos n
    → o.wire ≡ take n (drop c.sent_len msg)
    → Resumes msg c (note_result o c s)
unfolding note_result
note_result-Resumes msg c s o zero v more h r w =
    rw r (inr (refl, v, ap (◌++◌ (take c.sent_len msg)) w ∙ append-nil (take c.sent_len msg)))
note_result-Resumes msg c s o (suc n) v more h r w =
    rw r (elim (Bool-cases (c.want_snd_len - suc n == 0)) [
      | inl out ↦ rw out (
          inl (
            refl,
            ==→eq (c.want_snd_len - suc n) 0 out,
            refl,
            ap (◌++◌ (take c.sent_len msg)) w
                ∙ take-append-take c.sent_len (suc n) (c.sent_len + suc n) msg refl
                ∙ take-all (c.sent_len + suc n) msg
                    (omega (arith, v.lengths, ==→eq (c.want_snd_len - suc n) 0 out)),
          ))
      | inr partly ↦ rw partly (
          inr (
            refl,
            record { buffer = v.buffer; lengths = omega (arith, v.lengths) },
            ap (◌++◌ (take c.sent_len msg)) w
                ∙ take-append-take c.sent_len (suc n) (c.sent_len + suc n) msg refl,
          ))
    ])

send_message-eq :
    (rs : List Sent) (errno : Errno) (c : Conn) (s : SendStats) (o : SendOut)
    → tcp_send_data rs (drop c.sent_len c.snd_buf) c.want_snd_len errno ≡ some o
    → send_message rs errno c s ≡ some (note_result o c s)
unfolding send_message
send_message-eq rs errno c s o e = rw e

send_message-Resumes :
    (rs : List Sent) (errno : Errno) (msg : Bytes) (c : Conn) (s : SendStats)
    → Sending msg c
    → 0 < c.want_snd_len
    → c.want_snd_len ≤ length rs
    → Obeys rs c.want_snd_len
    → ¬ Aborts rs
    → (o : WriteOut) × (send_message rs errno c s ≡ some o) × Resumes msg c o
send_message-Resumes rs errno msg c s v more enough ob calm =
    let unsent : length (drop c.sent_len msg) ≡ c.want_snd_len =
      omega (arith, length-drop c.sent_len msg, v.lengths) in
    let (o, e, p) =
      tcp_send_data-Returns rs (drop c.sent_len msg) errno
        (subst (λ n. n ≤ length rs) (sym unsent) enough) (subst (Obeys rs) (sym unsent) ob) in
    (
      note_result o c s,
      send_message-eq rs errno c s o (
          ap (λ b. tcp_send_data rs (drop c.sent_len b) c.want_snd_len errno) v.buffer
          ∙ subst (λ n. tcp_send_data rs (drop c.sent_len msg) n errno ≡ some o) unsent e),
      elim p.ret_is [
        | inl r ↦
            note_result-Resumes msg c s o p.gone v more (subst (λ n. p.gone ≤ n) unsent p.within) r
              p.wire_is
        | inr (_, a) ↦ absurd (calm a)
      ],
    )

pub write_func-Resumes :
    (dequeue : List Bytes → ℤ × List Bytes) (queue : List Bytes) (rs : List Sent) (errno : Errno)
    (msg : Bytes) (c : Conn) (s : SendStats)
    → Sending msg c
    → 0 < c.want_snd_len
    → c.want_snd_len ≤ length rs
    → Obeys rs c.want_snd_len
    → ¬ Aborts rs
    → (o : WriteOut) × (write_func dequeue queue rs errno c s ≡ some (o, queue)) × Resumes msg c o
unfolding write_func
write_func-Resumes dequeue queue rs errno msg c s v more enough ob calm =
    let (o, e, p) = send_message-Resumes rs errno msg c s v more enough ob calm in
    (o, rw (ne→== c.want_snd_len 0 (omega arith), e), p)

-- With nothing in sending a call takes what DeDataQueue gives off the queue and sends nothing: the
-- code is 0 and the connection stays as it is, whatever was taken off.
pub write_func_idle :
    (dequeue : List Bytes → ℤ × List Bytes) (queue : List Bytes) (rs : List Sent) (errno : Errno)
    (c : Conn) (s : SendStats)
    → c.want_snd_len ≡ 0
    → (o : WriteOut) × (write_func dequeue queue rs errno c s ≡ some (o, (dequeue queue).1))
      × (o.conn ≡ c)
      × (o.wire ≡ [])
      × (o.code ≡ pos 0)
unfolding write_func
write_func_idle dequeue queue rs errno c s idle =
    rw (eq→== c.want_snd_len 0 idle) (_, refl, refl, refl, refl)

note_result-code :
    (o : SendOut) (c : Conn) (s : SendStats) → is_neg (note_result o c s).code ≡ false
unfolding note_result
note_result-code o c s = ground arith

send_message-code :
    (rs : List Sent) (errno : Errno) (c : Conn) (s : SendStats) {o : WriteOut}
    → send_message rs errno c s ≡ some o
    → is_neg o.code ≡ false
unfolding send_message
send_message-code rs errno c s e =
    elim (Option-cases (tcp_send_data rs (drop c.sent_len c.snd_buf) c.want_snd_len errno)) [
      | inl waits ↦ absurd (Option.none-ne-some _ (rw waits at e))
      | inr (out, r) ↦ ground (arith, Option.some-injective (rw r at e), note_result-code out c s)
    ]

-- Whatever send answers, when writeFunc returns its code is not negative: the epoll loop, which
-- closes a connection on a negative code, never does so for a failed send.
pub write_func-code :
    (dequeue : List Bytes → ℤ × List Bytes) (queue : List Bytes) (rs : List Sent) (errno : Errno)
    (c : Conn) (s : SendStats) {o : WriteOut × List Bytes}
    → write_func dequeue queue rs errno c s ≡ some o
    → is_neg o.0.code ≡ false
unfolding write_func
write_func-code dequeue queue rs errno c s e = elim (Bool-cases (c.want_snd_len == 0)) [
  | inl idle ↦ ground (arith, rw idle at e)
  | inr busy ↦ elim (Option-cases (send_message rs errno c s)) [
    | inl waits ↦ absurd (Option.none-ne-some _ (rw (busy, waits) at e))
    | inr (out, r) ↦ ground (arith, rw (busy, r) at e, send_message-code rs errno c s r)
  ]
]

-- TcpSendData after some bytes and EINTR.
abbrev cut_short : ℕ → Bytes → SendOut
cut_short k data0 = record { ret = negsuc 0; errno = eintr; wire = take k data0; unused = [] }
