-- ===== src/Avail/Blob.antt =====
-- pkg/avail/blob.go: the envelope of a block in an Avail extrinsic.
pub mod RoundTrip
use availproject_op_evm.Prelude.{
  ℕ, ◌+◌, ◌-◌, ◌^◌, ◌≡◌, not, Option, none, some, List, [], ◌∷◌, ◌++◌, Outcome, ok, err, panic,
  ◌>>=◌, ◌>>◌, guard, or_fail, ltb, leb, ◌==◌, if◌then◌else◌, length, take, drop,
}
use availproject_op_evm.Prelude.Bytes.{Bytes}

abbrev pub blob_magic : ℕ
blob_magic = 0b10101010

abbrev pub max_blob_size : ℕ
max_blob_size = 2 ^ 24

pub data Error : Type 0 where
  data_too_long invalid_blob_magic invalid_length end_of_data : Error

pub record Blob : Type 0 where
  pub magic : ℕ
  pub data_bytes : Bytes

-- The compact integers of the SCALE codec: `EncodeUintCompact`, and `DecodeUintCompact` with what it
-- leaves unread.
pub record Compact : Type 0 where
  pub encode_uint : ℕ → Bytes
  pub decode_uint : Bytes → Option (ℕ × Bytes)

-- A compact integer is read back, and no byte after it.
pub record CompactLaws (c : Compact) : Type 0 where
  pub decode-encode :
      (n : ℕ) (rest : Bytes) → c.decode_uint (c.encode_uint n ++ rest) ≡ some (n, rest)

-- `ReadOneByte` and `Read` of the decoder: too few bytes are an error.
abbrev pub read_one_byte : Bytes → Outcome Error (ℕ × Bytes)
read_one_byte [] = err end_of_data
read_one_byte (b ∷ bs) = ok (b, bs)

abbrev pub read : ℕ → Bytes → Outcome Error (Bytes × Bytes)
read n bs = if leb n (length bs) then ok (take n bs, drop n bs) else err end_of_data

module _ (c : Compact) where
  -- `Blob.Encode`: the bytes that are pushed.
  unfoldable pub encode : Blob → Outcome Error Bytes
  encode b = do
    guard (b.magic == blob_magic) invalid_blob_magic
    guard (not (ltb max_blob_size (length b.data_bytes))) data_too_long
    ok (b.magic ∷ (c.encode_uint (length b.data_bytes) ++ b.data_bytes))

  -- `Blob.Decode`: the blob and what is left unread.
  unfoldable pub decode : Bytes → Outcome Error (Blob × Bytes)
  decode bs = do
    (magic, bs1) ← read_one_byte bs
    guard (magic == blob_magic) invalid_blob_magic
    (data_len, bs2) ← or_fail (c.decode_uint bs1) invalid_length
    guard (ltb data_len (2 ^ 63)) invalid_length
    guard (not (ltb max_blob_size data_len)) data_too_long
    (data_bytes, bs3) ← read data_len bs2
    ok (record { magic = magic; data_bytes = data_bytes }, bs3)
