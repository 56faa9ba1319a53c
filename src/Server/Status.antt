-- ===== src/Server/Status.antt =====
-- AudioServer::outputStateFunc of audioserver/AudioServer.cpp, as far as it computes with integers:
-- the counters of the intervals, and the time limit. What it prints is a `Report`; the floating
-- point factors of the output are left out. With it queryInfoCheck, which the client has a copy of.
use epoll_based_fault_diagno.Base.{
  ℕ, zero, suc, ◌+◌, ◌-◌, ◌*◌, ◌/◌, ◌^◌, ◌≤◌, ◌<◌, ◌≡◌, refl, Bool, true, false, List, [], ◌∷◌,
  Bytes, add32, add64, sub64, get_or, drop, ltb, if◌then◌else◌, length, Bool-cases, inl, inr, arith,
  not_lt→ltb,
}

-- What a round reads: the counters of the receiver, and for each queue how many blocks were pushed
-- and popped (`iSize[2]` and `iSize[3]` of GetDataQueueInfo).
pub record StatusInput : Type 0 where
  pub rcv_pcm_block_cnt : ℕ
  pub total_rcv_bytes : ℕ
  pub send_query_cnt : ℕ
  pub send_query_micro_seconds : ℕ
  pub queues : List (ℕ × ℕ)

pub record Report : Type 0 where
  pub rcv_bytes : ℕ
  pub block_inc : ℕ
  pub pushed : ℕ
  pub popped : ℕ
  pub sent_cnt : ℕ
  pub time_interval : ℕ

-- The variables that live over the rounds, with `g_bOverSystemMaxAge`.
pub record Status : Type 0 where
  pub last_rcv_query_cnt : ℕ
  pub last_total_rcv_bytes : ℕ
  pub pre_sent_num : ℕ
  pub pre_sent_time : ℕ
  pub total_seconds_to_work : ℕ
  pub over_system_max_age : Bool

-- The seconds up to the last day, from the local date (years from 1900, months from 0) and
-- `rand() % 3`; 4.6 hours where that is past.
unfoldable pub seconds_to_work : ℕ → ℕ → ℕ → ℕ → ℕ
seconds_to_work rand3 tm_year tm_mon tm_mday =
    let dead : ℕ = 2022 * 365 + 9 * 31 + rand3 in
    let now : ℕ = (tm_year + 1900) * 365 + tm_mon * 30 + tm_mday in
    if ltb now dead then (dead - now) * 24 * 3600 else 16560

-- `#if TIMELIMITED`, once in a round.
unfoldable pub pass_interval : ℕ → Status → Status
pass_interval interval s =
    if ltb interval s.total_seconds_to_work
    then record s { total_seconds_to_work = s.total_seconds_to_work - interval }
    else record s { over_system_max_age = true }

unfoldable pub sum_queues : List (ℕ × ℕ) → ℕ → ℕ → ℕ × ℕ
sum_queues [] received finished = (received, finished)
sum_queues ((pushed, popped) ∷ queues) received finished =
    sum_queues queues (add64 received pushed) (add64 finished popped)

-- One round, with `g_iStatusLogInterval`, which is not 0.
unfoldable pub output_round : ℕ → StatusInput → Status → Report × Status
unfolding pass_interval sum_queues
output_round interval i s =
    let s' = pass_interval interval s in
    let (received, finished) = sum_queues i.queues 0 0 in
    (
      record {
        rcv_bytes = sub64 i.total_rcv_bytes s.last_total_rcv_bytes;
        block_inc = sub64 i.rcv_pcm_block_cnt s.last_rcv_query_cnt / interval;
        pushed = received;
        popped = finished;
        sent_cnt = sub64 i.send_query_cnt s.pre_sent_num;
        time_interval = sub64 i.send_query_micro_seconds s.pre_sent_time;
      },
      record s' {
        last_rcv_query_cnt = i.rcv_pcm_block_cnt;
        last_total_rcv_bytes = i.total_rcv_bytes;
        pre_sent_num = i.send_query_cnt;
        pre_sent_time = i.send_query_micro_seconds;
      },
    )

unfoldable pub output_state_func : ℕ → List StatusInput → Status → List Report × Status
unfolding output_round
output_state_func interval [] s = ([], s)
output_state_func interval (i ∷ more) s =
    let (report, s') = output_round interval i s in
    let (reports, s'') = output_state_func interval more s' in (report ∷ reports, s'')

-- CHECKNUM bytes as words of 16 bits, low byte first, added up in a uint32_t: the words left, and
-- the bytes from the next one on.
unfoldable pub add_words : ℕ → Bytes → ℕ → ℕ
add_words zero info result = result
add_words (suc k) info result =
    add_words k (drop 2 info) (add32 result (get_or info 0 0 + 256 * get_or info 1 0))

unfoldable pub query_info_check : Bytes → ℕ
unfolding add_words
query_info_check info = add_words 64 info 0

-- The bytes of all reports.
unfoldable pub reported : List Report → ℕ
reported [] = 0
reported (r ∷ rs) = r.rcv_bytes + reported rs

-- The counter of received bytes does not decrease, and fits its 64 bits.
abbrev pub Grows : ℕ → List StatusInput → Type 0
Grows from [] = Unit {0}
Grows from (i ∷ more) =
    (from ≤ i.total_rcv_bytes) × (i.total_rcv_bytes < 2 ^ 64) × Grows i.total_rcv_bytes more

-- Over any number of rounds, while the counter of received bytes grows within its 64 bits, the
-- reports together give exactly the bytes that were received between the first and the last.
pub reported-output_state_func :
    (interval : ℕ) (inputs : List StatusInput) (s : Status)
    → Grows s.last_total_rcv_bytes inputs
    → reported (output_state_func interval inputs s).0 + s.last_total_rcv_bytes
      ≡ (output_state_func interval inputs s).1.last_total_rcv_bytes
unfolding reported output_state_func
reported-output_state_func interval [] s grows = omega arith
reported-output_state_func interval (i ∷ more) s grows = omega (
  arith,
  grows.0,
  grows.1,
  reported-output_state_func interval more (output_round interval i s).1 grows.2,
)

stays_over :
    (interval : ℕ) (inputs : List StatusInput) (s : Status)
    → s.over_system_max_age ≡ true
    → (output_state_func interval inputs s).1.over_system_max_age ≡ true
unfolding output_state_func pass_interval
stays_over interval [] s over = over
stays_over interval (i ∷ more) s over =
    stays_over interval more (output_round interval i s).1 (ground (arith, over))

-- After at least one round, and as many as the time limit has intervals, the server is past its time,
-- whatever the counters were, and stays so.
pub output_state_func_over :
    (interval : ℕ) (i : StatusInput) (inputs : List StatusInput) (s : Status)
    → s.total_seconds_to_work ≤ (1 + length inputs) * interval
    → (output_state_func interval (i ∷ inputs) s).1.over_system_max_age ≡ true
unfolding output_state_func pass_interval
output_state_func_over interval i [] s enough =
    let past : ltb interval s.total_seconds_to_work ≡ false =
      not_lt→ltb interval s.total_seconds_to_work (omega (arith, enough)) in
    rw (past, output_round) refl
output_state_func_over interval i (j ∷ more) s enough =
    elim (Bool-cases (ltb interval s.total_seconds_to_work)) [
      | inl later ↦
          output_state_func_over interval j more (output_round interval i s).1
            (rw (later, output_round) (grind (arith, enough)))
      | inr now ↦
          stays_over interval (j ∷ more) (output_round interval i s).1 (rw (now, output_round) refl)
    ]
