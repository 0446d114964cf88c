-- ===== src/Tones/Wave.antt =====
-- The sound file of `decode_mem` in src/fax_decode.c: the header `ALAW_HEAD` as it lies in memory, where each
-- field has the alignment of its type, and the voice behind it.
use vpu.Common.{
  ℕ, ◌+◌, ◌*◌, ◌/◌, ◌%◌, ◌^◌, ◌<◌, ◌≡◌, refl, List, [], ◌∷◌, ◌++◌, length, drop, byte_at, arith,
}

-- The bytes of a number on a little-endian machine, and what is read from them.
abbrev pub le16 : ℕ → List ℕ
le16 v = v % 256 ∷ v / 256 % 256 ∷ []

abbrev pub le32 : ℕ → List ℕ
le32 v = v % 256 ∷ v / 256 % 256 ∷ v / 65536 % 256 ∷ v / 2 ^ 24 % 256 ∷ []

abbrev pub read_le32 : List ℕ → ℕ → ℕ
read_le32 xs i =
    byte_at xs i
    + byte_at xs (i + 1) * 256
    + byte_at xs (i + 2) * 65536
    + byte_at xs (i + 3) * 2 ^ 24

-- `ALAW_HEAD`
pub record AlawHead : Type 0 where
  pub chunk_id : ℕ
  pub chunk_size : ℕ
  pub format : ℕ
  pub sub_chunk1_id : ℕ
  pub sub_chunk1_size : ℕ
  pub audio_format : ℕ
  pub num_channels : ℕ
  pub sample_rate : ℕ
  pub byte_rate : ℕ
  pub block_align : ℕ
  pub bits_per_sample : ℕ
  pub wave_fact : ℕ
  pub temp1 : ℕ
  pub temp2 : ℕ
  pub data_tag : ℕ
  pub data_len : ℕ

-- every field but `ChunkSize` and `DataLen`
unfoldable pub init_alaw_head : AlawHead → AlawHead
init_alaw_head head = record head {
  chunk_id = 0x46464952;
  format = 0x45564157;
  sub_chunk1_id = 0x20746d66;
  sub_chunk1_size = 0x12;
  audio_format = 0x06;
  num_channels = 0x01;
  sample_rate = 0x1f40;
  byte_rate = 0x1f40;
  block_align = 0x01;
  bits_per_sample = 0x08;
  wave_fact = 0x74636166;
  temp1 = 0x04;
  temp2 = 0x075300;
  data_tag = 0x61746164;
}

-- The bytes of the struct: the 32 bits of `BitsPerSample` come at a multiple of 4, behind two bytes `p` and
-- `q` that nothing sets.
unfoldable pub head_bytes : ℕ → ℕ → AlawHead → List ℕ
head_bytes p q h =
    le32 h.chunk_id
    ++ (le32 h.chunk_size
        ++ (le32 h.format
            ++ (le32 h.sub_chunk1_id
                ++ (le32 h.sub_chunk1_size
                    ++ (le16 h.audio_format
                        ++ (le16 h.num_channels
                            ++ (le32 h.sample_rate
                                ++ (le32 h.byte_rate
                                    ++ (le16 h.block_align
                                        ++ (p
                                            ∷ q
                                            ∷ (le32 h.bits_per_sample
                                                ++ (le32 h.wave_fact
                                                    ++ (le32 h.temp1
                                                        ++ (le32 h.temp2
                                                            ++ (le32 h.data_tag
                                                            ++ le32 h.data_len)))))))))))))))

-- the header that `decode_mem` writes for so many bytes of voice; both fields are of 32 bits
unfoldable pub alaw_head : AlawHead → ℕ → AlawHead
alaw_head h n = record (init_alaw_head h) { chunk_size = (n + 50) % 2 ^ 32; data_len = n % 2 ^ 32 }

-- the file behind the two calls of fwrite
unfoldable pub wav_file : ℕ → ℕ → AlawHead → List ℕ → List ℕ
unfolding head_bytes alaw_head init_alaw_head
wav_file p q h voice = head_bytes p q (alaw_head h (length voice)) ++ voice

-- Where the fields of the file lie: the tag and the length of the
-- voice lie two bytes further back than the source says, at 34H and 38H, so the file is 60 bytes longer than the voice
-- while `ChunkSize` counts 58 of them. Behind the 18 bytes of the "fmt " chunk, at 26H, stands
-- neither "fact" nor "data".
pub wav_file-fields :
    (p q : ℕ) (h : AlawHead) (voice : List ℕ)
    → length voice < 2 ^ 31
    → (read_le32 (wav_file p q h voice) 4 + 10 ≡ length (wav_file p q h voice))
      × (read_le32 (wav_file p q h voice) 16 ≡ 18)
      × (read_le32 (wav_file p q h voice) 0x26 ≡ 0x61660000)
      × (read_le32 (wav_file p q h voice) 0x34 ≡ 0x61746164)
      × (read_le32 (wav_file p q h voice) 0x38 ≡ length voice)
      × (drop 60 (wav_file p q h voice) ≡ voice)
unfolding wav_file
wav_file-fields p q h voice small =
    (omega arith, omega arith, omega arith, omega arith, omega arith, refl)
