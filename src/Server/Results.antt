-- ===== src/Server/Results.antt =====
-- The identifiers of results, getResultID of audioserver/AudioServer.cpp, and MBytes.
use epoll_based_fault_diagno.Base.{
  ℕ, ◌+◌, ◌-◌, ◌*◌, ◌%◌, ◌^◌, ◌≤◌, ◌<◌, ◌≡◌, refl, add64, add32, ◌==◌, if◌then◌else◌, arith,
  Bool-cases, inl, inr, ==→eq, ==→ne,
}

-- The static variables of getResultID.
pub record ResultIds : Type 0 where
  pub old_month_day : ℕ
  pub seq_in_day : ℕ

-- Month from 0, day and hour of the local time.
abbrev pub month_day : ℕ → ℕ → ℕ → ℕ
month_day mon mday hour = (mon + 1) * 10000 + mday * 100 + hour

unfoldable pub advance : ℕ → ResultIds → ResultIds
advance key s =
    if key == s.old_month_day
    then record s { seq_in_day = add64 s.seq_in_day 1 }
    else record { old_month_day = key; seq_in_day = 1 }

abbrev pub id_of : ResultIds → ℕ
id_of s = (s.old_month_day * 1000000000 + s.seq_in_day) % 2 ^ 64

unfoldable pub get_result_id : ℕ → ResultIds → ℕ × ResultIds
unfolding advance
get_result_id key s = (id_of (advance key s), advance key s)

advance-grows :
    (key : ℕ) (s : ResultIds)
    → s.old_month_day ≤ key
    → s.seq_in_day < 999999999
    → key < 2000000
    → (id_of s < id_of (advance key s)) × ((advance key s).old_month_day ≡ key)
unfolding advance
advance-grows key s later few dated = elim (Bool-cases (key == s.old_month_day)) [
  | inl same ↦
      rw same (
        omega (arith, ==→eq key s.old_month_day same),
        omega (arith, ==→eq key s.old_month_day same),
      )
  | inr new ↦ rw new (omega (arith, ==→ne key s.old_month_day new), refl)
]

-- While fewer than a thousand million results come in an hour, and the local time does not go back
-- within a year (month, day and hour do not decrease), each identifier is greater than the one
-- before it.
pub get_result_id-month_day :
    (mon mday hour : ℕ) (s : ResultIds)
    → mon < 12
    → mday < 32
    → hour < 24
    → s.old_month_day ≤ month_day mon mday hour
    → s.seq_in_day < 999999999
    → (id_of s < (get_result_id (month_day mon mday hour) s).0)
      × ((get_result_id (month_day mon mday hour) s).0
          ≡ id_of (get_result_id (month_day mon mday hour) s).1)
      × ((get_result_id (month_day mon mday hour) s).1.old_month_day ≡ month_day mon mday hour)
unfolding get_result_id
get_result_id-month_day mon mday hour s m d h later few =
    let (grows, dated) = advance-grows (month_day mon mday hour) s later few (omega arith) in
    (grows, refl, dated)

-- `len & 0xfff00000` and `len & 0xfffff` of a uint32_t.
abbrev pub m_bytes : ℕ → ℕ
m_bytes len = add32 (len - len % 1048576) (if len % 1048576 == 0 then 0 else 1048576)

-- MBytes is the least number of whole megabytes that holds the length, unless that is 4 GB.
pub m_bytes_lem :
    (len : ℕ)
    → len ≤ 0xfff0_0000
    → (len ≤ m_bytes len) × (m_bytes len < len + 1048576) × (m_bytes len % 1048576 ≡ 0)
m_bytes_lem len h = elim (Bool-cases (len % 1048576 == 0)) [
  | inl even ↦ rw even (omega (arith, ==→eq (len % 1048576) 0 even), omega arith, omega arith)
  | inr rest ↦
      let odd = ==→ne (len % 1048576) 0 rest in
      rw rest (omega (arith, odd), omega (arith, odd), omega (arith, odd))
]
