-- ===== src/Extra/Encoding.antt =====
-- The encodings of polygon-edge and fastrlp that the extra data is written in. Values are built and
-- taken apart by these operations alone; the laws are the round trips that RLP documents.
-- `NewNull` and `NewNullArray` are written as the empty string and the empty list.
use availproject_op_evm.Prelude.{ℕ, ◌≡◌, ◌≢◌, Option, none, some, List, []}
use availproject_op_evm.Prelude.Bytes.{Bytes}
use availproject_op_evm.Chain.Types.{Hash, Address}

pub record Wire : Type 1 where
  pub Value : Type 0
  pub new_array : List Value → Value
  pub new_bytes : Bytes → Value
  pub new_uint : ℕ → Value
  pub marshal : Value → Bytes
  pub parse : Bytes → Option Value
  pub get_elems : Value → Option (List Value)
  pub get_bytes : Value → Option Bytes
  -- `GetAddr`: a string of 20 bytes
  pub get_address : Value → Option Address
  pub address_bytes : Address → Bytes
  pub bytes_to_address : Bytes → Address
  pub hash_bytes : Hash → Bytes
  pub bytes_to_hash : Bytes → Hash

module _ (w : Wire) where
  open w use {
    Value, new_array, new_bytes, marshal, parse, get_elems, get_bytes, get_address, address_bytes,
    bytes_to_address, hash_bytes, bytes_to_hash,
  }

  pub record WireLaws : Type 0 where
    pub parse-marshal : (v : Value) → parse (marshal v) ≡ some v
    pub marshal-ne-nil : (v : Value) → marshal v ≢ []
    pub get_elems-new_array : (vs : List Value) → get_elems (new_array vs) ≡ some vs
    pub get_elems-new_bytes : (b : Bytes) → get_elems (new_bytes b) ≡ none
    pub get_bytes-new_bytes : (b : Bytes) → get_bytes (new_bytes b) ≡ some b
    pub get_address-new_bytes : (a : Address) → get_address (new_bytes (address_bytes a)) ≡ some a
    pub bytes_to_address-address_bytes : (a : Address) → bytes_to_address (address_bytes a) ≡ a
    pub bytes_to_hash-hash_bytes : (h : Hash) → bytes_to_hash (hash_bytes h) ≡ h
