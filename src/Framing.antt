-- ===== src/Framing.antt =====
-- The framing of a byte stream, as a function of the bytes received and not yet consumed: what the
-- receive loops compute on their buffers. Used as the specification of audioserver/AudioServer.cpp,
-- readFunc.
pub mod Messages
use epoll_based_fault_diagno.Base.{
  ℕ, zero, suc, ◌+◌, ◌-◌, ◌<◌, Bool, not, ◌&&◌, List, [], ◌∷◌, ◌++◌, Bytes, length, take, drop, leb,
  ◌==◌, if◌then◌else◌,
}
use epoll_based_fault_diagno.Wire.{read_header, is_valid_net_msg_header, net_msg_header_len}
use epoll_based_fault_diagno.Server.Receive.{search_header, message_len}

-- Messages found, the length of the one awaited (0 if no header is known), and the bytes left.
pub record Framing : Type 0 where
  pub found : List Bytes
  pub want : ℕ
  pub rest : Bytes

-- Skip to the next header, or as far as the search goes.
unfoldable pub skip_to : ℕ × Bool → Bytes → ℕ × Bytes
skip_to (i, hit) w = (if hit then message_len (drop i w) else 0, drop i w)

-- Cut the awaited message off, if it stands whole in the bytes; `later` is the framing of what is
-- behind it.
unfoldable pub cut : ℕ → Bytes → Framing → Framing
cut want w later =
    if not (want == 0) && leb want (length w)
    then (if leb net_msg_header_len (length (drop want w))
        then record later { found = take want w ∷ later.found }
        else record { found = take want w ∷ []; want = 0; rest = drop want w })
    else record { found = []; want = want; rest = w }

module _ (max : ℕ) where
  -- With no header known: the header at the front, or the next one.
  unfoldable pub next_header : Bytes → ℕ × Bytes
  unfolding skip_to
  next_header w =
      if leb net_msg_header_len (length w)
      then (if is_valid_net_msg_header max (read_header w)
          then (message_len w, w)
          else skip_to (search_header max w (length w - net_msg_header_len - 1) 1) w)
      else (0, w)

  unfoldable pub judge : ℕ → Bytes → ℕ × Bytes
  unfolding next_header
  judge want w = if want == 0 then next_header w else (want, w)

  -- The messages that stand whole in the bytes, one by one.
  unfoldable pub scan : ℕ → ℕ → Bytes → Framing
  unfolding judge cut
  scan zero want w = record { found = []; want = want; rest = w }
  scan (suc fuel) want w =
      let later = scan fuel 0 (drop (judge want w).0 (judge want w).1) in
      cut (judge want w).0 (judge want w).1 later
