-- ===== src/Framing/Messages.antt =====
-- The framing of a stream of messages: each message is found, in order, and what follows is left.
use epoll_based_fault_diagno.Base.{
  ℕ, zero, suc, ◌+◌, ◌*◌, ◌≤◌, ◌<◌, ◌≡◌, refl, ap, sym, ◌∙◌, List, [], ◌∷◌, ◌++◌, map, append_assoc,
  Bytes, arith, length, length-append, take-append, drop-append, leb, if◌then◌else◌, le→leb,
  not_le→leb, ne→==,
}
use epoll_based_fault_diagno.Wire.{NetMsgHeader, net_msg_header_len, Msg, frame, frames, IsSendable}
use epoll_based_fault_diagno.Wire.Codec.{read_header-frame, is_valid-frame, length-frame}
use epoll_based_fault_diagno.Framing.{judge, cut, scan}
use epoll_based_fault_diagno.Server.Receive.{message_len}

abbrev pub AllSendable : ℕ → List Msg → Type 0
AllSendable max [] = Unit {0}
AllSendable max (m ∷ ms) = IsSendable max m × AllSendable max ms

message_len-frame :
    (max : ℕ) (m : Msg) (rest : Bytes)
    → IsSendable max m
    → message_len (frame m ++ rest) ≡ length (frame m)
message_len-frame max m rest s =
    ap (λ (h : NetMsgHeader). h.msg_len + net_msg_header_len) (read_header-frame max m rest s)
    ∙ sym (length-frame m)

judge-frame :
    (max : ℕ) (m : Msg) (rest : Bytes)
    → IsSendable max m
    → judge max 0 (frame m ++ rest) ≡ (length (frame m), frame m ++ rest)
unfolding judge
judge-frame max m rest s = rw (
  le→leb net_msg_header_len (length (frame m ++ rest))
      (omega (arith, length-append (frame m) rest, length-frame m)),
  is_valid-frame max m rest s,
  message_len-frame max m rest s,
)

-- One message at the front is cut off, and the framing goes on behind it.
scan-frame :
    (max fuel : ℕ) (m : Msg) (rest : Bytes)
    → IsSendable max m
    → scan max (suc fuel) 0 (frame m ++ rest) ≡ (
        if leb net_msg_header_len (length rest)
        then record (scan max fuel 0 rest) { found = frame m ∷ (scan max fuel 0 rest).found }
        else record { found = frame m ∷ []; want = 0; rest = rest })
unfolding scan cut
scan-frame max fuel m rest s = rw (
  judge-frame max m rest s,
  ne→== (length (frame m)) 0 (omega (arith, length-frame m)),
  le→leb (length (frame m)) (length (frame m ++ rest))
      (omega (arith, length-append (frame m) rest)),
  take-append (length (frame m)) (frame m) rest refl,
  drop-append (length (frame m)) (frame m) rest refl,
)

-- A few bytes that are no whole header wait.
scan_short :
    (max fuel : ℕ) (rest : Bytes)
    → length rest < net_msg_header_len
    → scan max fuel 0 rest ≡ record { found = []; want = 0; rest = rest }
unfolding scan judge cut
scan_short max zero rest h = refl
scan_short max (suc fuel) rest h = rw (not_le→leb net_msg_header_len (length rest) h)

pub scan-frames :
    (max fuel : ℕ) (ms : List Msg) (rest : Bytes)
    → AllSendable max ms
    → length ms ≤ fuel
    → length rest < net_msg_header_len
    → scan max fuel 0 (frames ms ++ rest) ≡ record { found = map frame ms; want = 0; rest = rest }
unfolding frames
scan-frames max fuel [] rest s h r = scan_short max fuel rest r
scan-frames max zero (m ∷ ms) rest s h r = absurd (omega arith)
scan-frames max (suc fuel) (m ∷ []) rest s h r = rw (
  append_assoc (frame m) [] rest,
  scan-frame max fuel m rest s.0,
  not_le→leb net_msg_header_len (length rest) r,
)
scan-frames max (suc fuel) (m ∷ m' ∷ ms) rest s h r = rw (
  append_assoc (frame m) (frames (m' ∷ ms)) rest,
  scan-frame max fuel m (frames (m' ∷ ms) ++ rest) s.0,
  le→leb net_msg_header_len (length (frames (m' ∷ ms) ++ rest)) (
      omega (
        arith,
        length-append (frames (m' ∷ ms)) rest,
        length-append (frame m') (frames ms),
        length-frame m',
      )),
  scan-frames max fuel (m' ∷ ms) rest s.1 (omega arith) r,
)

-- Every message takes at least a header.
pub length-frames : (ms : List Msg) → length ms * net_msg_header_len ≤ length (frames ms)
unfolding frames
length-frames [] = omega arith
length-frames (m ∷ ms) =
    omega (arith, length-append (frame m) (frames ms), length-frame m, length-frames ms)
