-- ===== src/Socket.antt =====
-- What the program sees of the socket calls of the system: errno and the results of send.
use epoll_based_fault_diagno.Base.{ℕ, Bool, true, false}

-- The values of errno that the code tells apart; on Linux EWOULDBLOCK is EAGAIN.
pub data Errno : Type 0 where
  eintr eagain other : Errno

-- errno == EINTR || errno == EWOULDBLOCK || errno == EAGAIN
abbrev pub would_block : Errno → Bool
would_block eintr = true
would_block eagain = true
would_block other = false

-- What a call of send brings: the number of bytes taken, or -1.
pub data Sent : Type 0 where
  sent : ℕ → Sent
  refused : Errno → Sent
