-- ===== src/Avail/Blob/RoundTrip.antt =====
-- What is encoded is decoded, and what is decoded is of bounded size.
use mathlib.Core.List.{append_assoc}
use availproject_op_evm.Prelude.{
  take-append, drop-append, ◌≤◌, ◌≡◌, ◌↔◌, ◌^◌, refl, true, false, ltb, [], ◌∷◌, ◌++◌, ok, length,
  leb, arith,
}
use availproject_op_evm.Prelude.Bytes.{Bytes}
use availproject_op_evm.Avail.Blob.{
  blob_magic, max_blob_size, Blob, Compact, CompactLaws, encode, decode,
}

leb-append : (xs ys : Bytes) → leb (length xs) (length (xs ++ ys)) ≡ true
leb-append [] ys = ground arith
leb-append (x ∷ xs) ys = ground (arith, leb-append xs ys)

module _ (c : Compact) (laws : CompactLaws c) where
  encode-ok :
      (b : Blob) (bs : Bytes)
      → encode c b ≡ ok bs
      → (b.magic ≡ blob_magic)
        × (length b.data_bytes ≤ max_blob_size)
        × (bs ≡ b.magic ∷ (c.encode_uint (length b.data_bytes) ++ b.data_bytes))
  unfolding encode
  encode-ok b bs e = ground (arith, e)

  -- A blob is encoded exactly if it has the magic byte and at most 16 MB of data.
  pub encode_iff :
      (b : Blob)
      → ((bs : Bytes) × (encode c b ≡ ok bs))
        ↔ ((b.magic ≡ blob_magic) × (length b.data_bytes ≤ max_blob_size))
  unfolding encode
  encode_iff b = (
    λ (bs, e). let (magic, small, _) = encode-ok b bs e in (magic, small),
    λ (magic, small).
        (b.magic ∷ (c.encode_uint (length b.data_bytes) ++ b.data_bytes), ground arith),
  )

  decode-pushed :
      (data_bytes rest : Bytes)
      → length data_bytes ≤ max_blob_size
      → decode c (blob_magic ∷ (c.encode_uint (length data_bytes) ++ (data_bytes ++ rest)))
        ≡ ok (record { magic = blob_magic; data_bytes = data_bytes }, rest)
  unfolding decode
  decode-pushed data_bytes rest small =
      rw
        (
          laws.decode-encode (length data_bytes) (data_bytes ++ rest),
          below_int64,
          not_long,
          leb-append data_bytes rest,
          take-append data_bytes rest,
          drop-append data_bytes rest,
        )
        refl
    where
      below_int64 : ltb (length data_bytes) (2 ^ 63) ≡ true
      below_int64 = ground arith

      not_long : ltb max_blob_size (length data_bytes) ≡ false
      not_long = ground arith

  -- Whatever blob is encoded is decoded as it was, and what follows it is left unread.
  pub decode-encode :
      (b : Blob) (bs rest : Bytes) → encode c b ≡ ok bs → decode c (bs ++ rest) ≡ ok (b, rest)
  decode-encode b bs rest e =
      let (magic, small, pushed) = encode-ok b bs e in
      rw (pushed, magic, append_assoc (c.encode_uint (length b.data_bytes)) b.data_bytes rest)
        (decode-pushed b.data_bytes rest small)
