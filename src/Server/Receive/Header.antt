-- ===== src/Server/Receive/Header.antt =====
-- The search for the next header of a stream that lost its framing: where it stops, and that it
-- reads no byte behind those received.
use epoll_based_fault_diagno.Base.{
  ℕ, zero, suc, ◌+◌, ◌-◌, ◌≤◌, ◌<◌, ◌≡◌, refl, Bool, true, false, inl, inr, Bytes, arith, take,
  drop, drop-take, Bool-cases, eq_or_lt,
}
use epoll_based_fault_diagno.Wire.{read_header, is_valid_net_msg_header, net_msg_header_len}
use epoll_based_fault_diagno.Wire.Codec.{read_header-take}
use epoll_based_fault_diagno.Server.Receive.{search_header}

-- A header that the receiver accepts stands `i` bytes further on.
abbrev pub header_at : ℕ → Bytes → ℕ → Bool
header_at max p i = is_valid_net_msg_header max (read_header (drop i p))

-- The search stops at the first header among the positions it may try, or behind the last of them.
pub record StopsAtFirst (max : ℕ) (p : Bytes) (rounds i : ℕ) (r : ℕ × Bool) : Type 0 where
  pub from : i ≤ r.0
  pub upto : r.0 ≤ i + rounds
  pub hit : r.1 ≡ true → (r.0 < i + rounds) × (header_at max p r.0 ≡ true)
  pub miss : r.1 ≡ false → r.0 ≡ i + rounds
  pub before : (j : ℕ) → i ≤ j → j < r.0 → header_at max p j ≡ false

StopsAtFirst-next :
    (max : ℕ) (p : Bytes) (rounds i : ℕ) (r : ℕ × Bool)
    → header_at max p i ≡ false
    → StopsAtFirst max p rounds (i + 1) r
    → StopsAtFirst max p (suc rounds) i r
StopsAtFirst-next max p rounds i r no_header s = record {
  from = omega (arith, s.from);
  upto = omega (arith, s.upto);
  hit = λ h. (omega (arith, (s.hit h).0), (s.hit h).1);
  miss = λ h. omega (arith, s.miss h);
  before = earlier;
}
  where
    earlier : (j : ℕ) → i ≤ j → j < r.0 → header_at max p j ≡ false
    earlier j lo hi = elim (eq_or_lt i j lo) [
      | inl e ↦ rw e no_header
      | inr l ↦ s.before j (omega arith) hi
    ]

-- The search for a header stops between where it began and where its rounds end; it answers true
-- exactly at an index where a valid header stands, false only at its end, and no index before the
-- one where it stops has a valid header.
pub search_header-StopsAtFirst :
    (max : ℕ) (p : Bytes) (rounds i : ℕ)
    → StopsAtFirst max p rounds i (search_header max p rounds i)
unfolding search_header
search_header-StopsAtFirst max p zero i = record {
  from = omega arith;
  upto = omega arith;
  hit = λ h. cc;
  miss = λ h. omega arith;
  before = λ j lo hi. absurd (omega arith);
}
search_header-StopsAtFirst max p (suc rounds) i = elim (Bool-cases (header_at max p i)) [
  | inl here ↦ rw here (record {
    from = omega arith;
    upto = omega arith;
    hit = λ h. (omega arith, here);
    miss = λ h. cc;
    before = λ j lo hi. absurd (omega arith);
  })
  | inr further ↦
      rw further (
        StopsAtFirst-next max p rounds i _ further
          (search_header-StopsAtFirst max p rounds (i + 1)))
]

-- A header inside the first `n` bytes is the same in those bytes alone.
pub header_at-take :
    (max : ℕ) (p : Bytes) (n i : ℕ)
    → i + net_msg_header_len ≤ n
    → read_header (drop i (take n p)) ≡ read_header (drop i p)
header_at-take max p n i h =
    rw (drop-take i n (n - i) p (omega arith)) (read_header-take (n - i) (drop i p) (omega arith))

-- So the search over the bytes received is the search over the buffer.
pub search_header-take :
    (max : ℕ) (p : Bytes) (n rounds i : ℕ)
    → i + rounds + net_msg_header_len ≤ n + 1
    → search_header max (take n p) rounds i ≡ search_header max p rounds i
unfolding search_header
search_header-take max p n zero i h = refl
search_header-take max p n (suc rounds) i h = rw (
  header_at-take max p n i (omega arith),
  search_header-take max p n rounds (i + 1) (omega arith),
)
