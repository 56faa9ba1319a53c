-- ===== src/Wave.antt =====
-- Class MyWave of audioserver/Wave.cpp, which the client has a copy of: the header of a wave file,
-- and the reading of one from a block of memory. The fields are words, without a sign.
use epoll_based_fault_diagno.Base.{
  ℕ, zero, suc, ◌+◌, ◌-◌, ◌*◌, ◌/◌, ◌%◌, ◌<◌, ◌≡◌, refl, ap₂, Bool, true, false, ◌&&◌, [], ◌∷◌,
  ◌++◌, Bytes, Option, none, some, ℤ, pos, negsuc, add32, u16_at, u32_at, le32, take, drop, ltb,
  ◌==◌, if◌then◌else◌, and_then, arith,
}
use epoll_based_fault_diagno.Text.{same}

pub record Wave : Type 0 where
  pub riff : Bytes
  pub file_len : ℕ
  pub wave : Bytes
  pub fmt : Bytes
  pub un_use : Bytes
  pub format : ℕ
  pub chnls : ℕ
  pub sample_rate : ℕ
  pub data_rate : ℕ
  pub data_block : ℕ
  pub bits : ℕ
  pub data_tag : Bytes
  pub voice_len : ℕ

abbrev pub riff_tag : Bytes
riff_tag = 82 ∷ 73 ∷ 70 ∷ 70 ∷ []

abbrev pub wave_tag : Bytes
wave_tag = 87 ∷ 65 ∷ 86 ∷ 69 ∷ []

abbrev pub data_mark : Bytes
data_mark = 100 ∷ 97 ∷ 116 ∷ 97 ∷ []

-- The constructor; sizeof(MyWave) is 44.
abbrev pub new_wave : ℕ → Wave
new_wave size = record {
  riff = riff_tag;
  file_len = add32 size (44 - 8);
  wave = wave_tag;
  fmt = 102 ∷ 109 ∷ 116 ∷ 32 ∷ [];
  un_use = 16 ∷ 0 ∷ 0 ∷ 0 ∷ [];
  format = 1;
  chnls = 1;
  sample_rate = 8000;
  data_rate = 8000 * 2;
  data_block = 2;
  bits = 16;
  data_tag = data_mark;
  voice_len = size;
}

abbrev le16 : ℕ → Bytes
le16 n = n % 256 ∷ n / 256 % 256 ∷ []

-- The object in memory.
abbrev pub wave_bytes : Wave → Bytes
wave_bytes w =
    w.riff
    ++ (le32 w.file_len
        ++ (w.wave
            ++ (w.fmt
                ++ (w.un_use
                    ++ (le16 w.format
                        ++ (le16 w.chnls
                            ++ (le32 w.sample_rate
                                ++ (le32 w.data_rate
                                    ++ (le16 w.data_block
                                        ++ (le16 w.bits
                                            ++ (w.data_tag ++ le32 w.voice_len)))))))))))

abbrev pub is_my_pcm : Wave → Bool
is_my_pcm w = w.format == 1 && (w.sample_rate == 8000 && (w.data_block == 2 && w.bits == 16))

-- The first character of `riff` is not looked at.
abbrev pub is_wave : Wave → Bool
is_wave w = same w.wave wave_tag && same (drop 1 w.riff) (drop 1 riff_tag)

-- `while (pos < len - 3)`: the memory from `pos` on, up to a tag; `none` leaves the block. The flag is
-- whether the tag was found.
unfoldable pub find_tag : Bytes → ℕ → Bytes → ℕ → Option (ℕ × Bool)
unfolding same
find_tag tag limit [] pos' = if ltb pos' limit then none else some (pos', false)
find_tag tag limit (c ∷ p) pos' =
    let rest = find_tag tag limit p (suc pos') in
    if ltb pos' limit
    then (if same (take 4 (c ∷ p)) tag then some (pos', true) else rest)
    else some (pos', false)

abbrev scan_limit : ℕ
scan_limit = 1024 * 1024 - 3

-- The fields behind the tag at `p`, up to `bits`.
abbrev pub read_fields : Bytes → Wave → Wave
read_fields p w = record w {
  file_len = u32_at p 4;
  format = u16_at p 20;
  chnls = u16_at p 22;
  sample_rate = u32_at p 24;
  data_rate = u32_at p 28;
  data_block = u16_at p 32;
  bits = u16_at p 34;
}

-- Whether a block has as many bytes.
abbrev pub has_bytes : ℕ → Bytes → Bool
has_bytes zero p = true
has_bytes (suc n) [] = false
has_bytes (suc n) (c ∷ p) = has_bytes n p

-- Behind the second search, in the memory from `pos` on.
unfoldable pub read_voice : Bytes → ℕ × Bool → Wave → Option (ℤ × Wave)
read_voice buf (at, false) w = some (negsuc 0, w)
read_voice buf (at, true) w =
    if has_bytes 8 (drop at buf)
    then some (pos (at + 8), record w { voice_len = u32_at (drop at buf) 4 })
    else none

-- Behind the first search.
unfoldable pub read_from_riff : Bytes → ℕ × Bool → Wave → Option (ℤ × Wave)
unfolding find_tag read_voice
read_from_riff buf (at, false) w = some (negsuc 0, w)
read_from_riff buf (at, true) w =
    if has_bytes 36 (drop at buf)
    then and_then (find_tag data_mark scan_limit (drop (at + 36) buf) (at + 36))
        (λ r. read_voice buf r (read_fields (drop at buf) w))
    else none

-- A block of memory, or nullptr.
unfoldable pub read_wav_head : Option Bytes → Wave → Option (ℤ × Wave)
unfolding find_tag read_from_riff
read_wav_head none w = some (negsuc 0, w)
read_wav_head (some buf) w =
    and_then (find_tag riff_tag scan_limit buf 0) (λ r. read_from_riff buf r w)

word_lem : (n : ℕ) → n < 0x1_0000_0000 → u32_at (le32 n) 0 ≡ n
word_lem n h = omega arith

-- The header that the constructor builds, in memory and followed by anything, is read back from
-- there: all its fields are found, and the result is the offset of the data. It passes both tests.
pub read_wav_head-wave_bytes :
    (size : ℕ) (rest : Bytes) (w : Wave)
    → size < 0x1_0000_0000
    → (read_wav_head (some (wave_bytes (new_wave size) ++ rest)) w
        ≡ some (
          pos 44,
          record (new_wave size) {
            riff = w.riff;
            wave = w.wave;
            fmt = w.fmt;
            un_use = w.un_use;
            data_tag = w.data_tag;
          },
        ))
      × (is_my_pcm (new_wave size) ≡ true)
      × (is_wave (new_wave size) ≡ true)
unfolding read_wav_head read_from_riff read_voice find_tag same
read_wav_head-wave_bytes size rest w h = (
  ap₂
      (λ f v. some (
        pos 44,
        record (new_wave size) {
          riff = w.riff;
          wave = w.wave;
          fmt = w.fmt;
          un_use = w.un_use;
          data_tag = w.data_tag;
          file_len = f;
          voice_len = v;
        },
      ))
      (word_lem (add32 size 36) (omega arith)) (word_lem size h),
  refl,
  refl,
)
