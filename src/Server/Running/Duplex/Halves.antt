-- ===== src/Server/Running/Duplex/Halves.antt =====
-- The message in sending and the messages received on one connection, each on its own
-- (audioserver/AudioServer.cpp).
use epoll_based_fault_diagno.Base.{
  ◌+◌, ◌-◌, ◌≤◌, ◌<◌, ◌≡◌, ◌⊎◌, ap, sym, subst, ◌∙◌, Bool-cases, true, List, [], ◌∷◌, ◌++◌,
  append-nil, Bytes, some, ℤ, inl, inr, arith, length, take, take-all, ◌==◌, ==→eq,
}
use epoll_based_fault_diagno.Socket.{Errno, Sent, would_block}
use epoll_based_fault_diagno.Wire.{Msg}
use epoll_based_fault_diagno.Server.Conn.{Conn}
use epoll_based_fault_diagno.Server.Receive.{EnqueueCall, Env, Stats}
use epoll_based_fault_diagno.Server.Receive.Loop.{failed, enter_read}
use epoll_based_fault_diagno.Server.Receive.Stream.{rounds_of, concat, AllSendables, Fits}
use epoll_based_fault_diagno.Server.Send.{WriteOut, write_func}
use epoll_based_fault_diagno.Server.Send.Prefix.{Obeys, Aborts}
use epoll_based_fault_diagno.Server.Send.Write.{Sending, write_func-Resumes, write_func_idle}
use epoll_based_fault_diagno.Server.Running.Idle.{IdleConn}
use epoll_based_fault_diagno.Server.Running.Sockets.{SendHalf, ReceiveHalf, send_half, receive_half}
use epoll_based_fault_diagno.Server.Running.Duplex.{
  Turn, reading, writing, Session, after_write, take_turn,
}

-- An event by what is behind it: messages that arrive in rounds until recv fails with an errno, or
-- room for the message in sending.
pub data Input : Type 0 where
  messages : List (List Msg) → Errno → Input
  room : Errno → List Sent → Input

abbrev pub turn_of : Input → Turn
turn_of (messages mss err) = reading (rounds_of mss (failed err ∷ []))
turn_of (room errno rs) = writing errno rs

unfoldable pub arrived : Input → List Msg
arrived (messages mss err) = concat mss
arrived (room errno rs) = []

unfoldable pub received_in : List Input → List Msg
unfolding arrived
received_in [] = []
received_in (ev ∷ more) = arrived ev ++ received_in more

-- `msg` is in sending, and what has gone out is its front; or all of it is out.
unfoldable pub SendsOn : Bytes → Session → Type 0
SendsOn msg x =
    (Sending msg (x.conn) × (x.wire ≡ take x.conn.sent_len msg))
    ⊎ ((x.conn.want_snd_len ≡ 0) × (x.wire ≡ msg))

-- What has gone out, by the length that is to be sent still.
pub SendsOn-take :
    (msg : Bytes) (x : Session)
    → SendsOn msg x
    → x.wire ≡ take (length msg - x.conn.want_snd_len) msg
unfolding SendsOn
SendsOn-take msg x (inl (s, front)) = front ∙ ap (λ n. take n msg) (omega (arith, s.lengths))
SendsOn-take msg x (inr (out, all)) =
    all ∙ sym (take-all (length msg - x.conn.want_snd_len) msg (omega (arith, out)))

-- Only the half that readFunc leaves alone matters to the message in sending, and the other way round.
pub SendsOn-send_half :
    (msg : Bytes) (x : Session) (c : Conn) (s : Stats) (calls : List EnqueueCall)
    → send_half c ≡ send_half (x.conn)
    → SendsOn msg x
    → SendsOn msg (record x { conn = c; stats = s; calls = calls })
unfolding SendsOn
SendsOn-send_half msg x c s calls same (inl (v, front)) = inl (
  record {
    buffer = ap (λ (h : SendHalf). h.2) same ∙ v.buffer;
    lengths = ap (λ (h : SendHalf). h.5 + h.3) same ∙ v.lengths;
  },
  front ∙ ap (λ (h : SendHalf). take h.5 msg) (sym same),
)
SendsOn-send_half msg x c s calls same (inr (out, all)) =
    inr (ap (λ (h : SendHalf). h.3) same ∙ out, all)

pub IdleConn-receive_half :
    (c c' : Conn) → receive_half c' ≡ receive_half c → IdleConn c → IdleConn c'
IdleConn-receive_half c c' same idle = record {
  sized =
      ap (λ (h : ReceiveHalf). length h.2) same
      ∙ idle.sized
      ∙ ap (λ (h : ReceiveHalf). h.3) (sym same);
  bounded = subst (λ (h : ReceiveHalf). h.4 ≤ h.3) (sym same) idle.bounded;
  nothing_read = ap (λ (h : ReceiveHalf). h.5) same ∙ idle.nothing_read;
  nothing_awaited = ap (λ (h : ReceiveHalf). h.6) same ∙ idle.nothing_awaited;
}

module _ (e : Env) (dequeue : List Bytes → ℤ × List Bytes) where
  -- recv brings what fits the room that is there, and its failure would block; send takes between one
  -- and all of the bytes it is offered, has an answer for each of them, and its first failure, if
  -- any, is EAGAIN.
  unfoldable pub Answers : Input → Session → Type 0
  Answers (messages mss err) x =
      Fits e mss (enter_read (x.conn) x.stats x.calls)
      × AllSendables e.max_net_msg_byte mss
      × (would_block err ≡ true)
  Answers (room errno rs) x =
      (x.conn.want_snd_len ≤ length rs) × Obeys rs x.conn.want_snd_len × ¬ Aborts rs

  unfoldable pub AllAnswer : List Input → Session → Type 0
  unfolding Answers
  AllAnswer [] x = Unit {0}
  AllAnswer (ev ∷ more) x =
      Answers ev x
      × ((x' : Session) → take_turn e dequeue (turn_of ev) x ≡ some x' → AllAnswer more x')

  -- With nothing in sending, or with a message in sending.
  write_idle :
      (errno : Errno) (rs : List Sent) (msg : Bytes) (x : Session)
      → SendsOn msg x
      → x.conn.want_snd_len ≡ 0
      → (o : WriteOut × List Bytes) × (write_func dequeue x.results rs errno x.conn x.send_stats
          ≡ some o)
        × SendsOn msg (after_write x o)
  unfolding SendsOn
  write_idle errno rs msg x sends idle =
      let (o, returned, same, nothing, code) =
        write_func_idle dequeue x.results rs errno x.conn x.send_stats idle in
      let still : x.wire ++ o.wire ≡ x.wire = ap (◌++◌ x.wire) nothing ∙ append-nil x.wire in
      (
        (o, (dequeue x.results).1),
        returned,
        elim sends [
          | inl (s, front) ↦ inl (
            subst (Sending msg) (sym same) s,
            still ∙ front ∙ ap (λ (c : Conn). take c.sent_len msg) (sym same),
          )
          | inr (out, all) ↦ inr (ap (λ (c : Conn). c.want_snd_len) same ∙ out, still ∙ all)
        ],
      )

  write_on :
      (errno : Errno) (rs : List Sent) (msg : Bytes) (x : Session)
      → Sending msg (x.conn)
      → x.wire ≡ take x.conn.sent_len msg
      → 0 < x.conn.want_snd_len
      → Answers (room errno rs) x
      → (o : WriteOut × List Bytes) × (write_func dequeue x.results rs errno x.conn x.send_stats
          ≡ some o)
        × SendsOn msg (after_write x o)
  unfolding SendsOn Answers
  write_on errno rs msg x s front busy (enough, obeys, calm) =
      let (o, returned, resumes) =
        write_func-Resumes dequeue x.results rs errno msg x.conn x.send_stats s busy enough obeys
          calm in
      (
        (o, x.results),
        returned,
        elim resumes [
          | inl (code, out, start, all) ↦ inr (out, ap (λ w. w ++ o.wire) front ∙ all)
          | inr (code, s', more) ↦ inl (s', ap (λ w. w ++ o.wire) front ∙ more)
        ],
      )

  pub write-SendsOn :
      (errno : Errno) (rs : List Sent) (msg : Bytes) (x : Session)
      → SendsOn msg x
      → Answers (room errno rs) x
      → (o : WriteOut × List Bytes) × (write_func dequeue x.results rs errno x.conn x.send_stats
          ≡ some o)
        × SendsOn msg (after_write x o)
  unfolding SendsOn
  write-SendsOn errno rs msg x sends answers = elim (Bool-cases (x.conn.want_snd_len == 0)) [
    | inl idle ↦ write_idle errno rs msg x sends (==→eq x.conn.want_snd_len 0 idle)
    | inr busy ↦ elim sends [
      | inl (s, front) ↦ write_on errno rs msg x s front (ground (arith, busy)) answers
      | inr (out, all) ↦ absurd (ground (arith, busy, out))
    ]
  ]
