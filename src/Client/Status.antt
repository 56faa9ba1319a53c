-- ===== src/Client/Status.antt =====
-- ClientManagement::OutputStatusFunc of audioclient/ClientManage.cpp, as far as it computes with
-- integers, and WriteWav2File of audioclient/AudioClient.cpp.
use epoll_based_fault_diagno.Base.{
  ℕ, Bool, true, false, List, [], ◌∷◌, Bytes, none, some, sub64, if◌then◌else◌,
}
use epoll_based_fault_diagno.Files.{FileSys}

-- What a round reads: the counters, and how many blocks were pushed and popped of the queue for
-- sending and the queue of what was received.
pub record ClientInput : Type 0 where
  pub send_bytes : ℕ
  pub total_rcv_bytes : ℕ
  pub local_pushed : ℕ
  pub local_popped : ℕ
  pub net_pushed : ℕ
  pub net_popped : ℕ

pub record ClientReport : Type 0 where
  pub total_opt_cnt : ℕ
  pub net_send : ℕ
  pub net_recv : ℕ
  pub local_send : ℕ
  pub rcv_bytes : ℕ
  pub sent_bytes : ℕ

-- `preBytes` and `iOldRcvBytes`.
pub record ClientStatus : Type 0 where
  pub pre_bytes : ℕ
  pub old_rcv_bytes : ℕ

unfoldable pub status_round : ClientInput → ClientStatus → ClientReport × ClientStatus
status_round i s = (
  record {
    total_opt_cnt = i.local_pushed;
    net_send = i.local_popped;
    net_recv = i.net_pushed;
    local_send = i.net_popped;
    rcv_bytes = sub64 i.total_rcv_bytes s.old_rcv_bytes;
    sent_bytes = sub64 i.send_bytes s.pre_bytes;
  },
  record { pre_bytes = i.send_bytes; old_rcv_bytes = i.total_rcv_bytes },
)

unfoldable pub output_status_func :
    List ClientInput → ClientStatus → List ClientReport × ClientStatus
unfolding status_round
output_status_func [] s = ([], s)
output_status_func (i ∷ more) s =
    let (report, s') = status_round i s in
    let (reports, s'') = output_status_func more s' in (report ∷ reports, s'')

module _ {S : Type 0} (sys : FileSys S) (append : S → Bytes → Bytes → S) where
  -- WriteWav2File, which returns 0 on every branch: without the directory nothing is written, and
  -- without the file neither. "ab" is the mode.
  unfoldable pub write_wav_2_file : Bytes → Bytes → Bytes → S → S
  write_wav_2_file pcm_path bytes name s =
      let (ok, s') : Bool × S =
        (if sys.opendir s pcm_path
          then (true, s)
          else (elim (sys.mkdir s pcm_path) as (λ _. Bool × S) [
            | none ↦ (false, s)
            | some s1 ↦ (true, s1)
          ])) in
      if ok
      then (elim (sys.fopen s' name (97 ∷ 98 ∷ [])) as (λ _. S) [
        | none ↦ s'
        | some s2 ↦ append s2 name bytes
      ])
      else s'
