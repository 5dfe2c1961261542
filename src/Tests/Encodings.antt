-- ===== src/Tests/Encodings.antt =====
-- An encoding and a signature scheme with the laws that are asked of the ones outside the
-- repository.
use availproject_op_evm.Prelude.{
  ℕ, zero, suc, ◌≡◌, refl, ap, Option, none, some, List, [], ◌∷◌, ◌++◌, length, take, drop, arith,
  if◌then◌else◌,
}
use availproject_op_evm.Prelude.Bytes.{Bytes, bytes_eq, bytes_eq_refl}
use availproject_op_evm.Chain.Types.{Address}
use availproject_op_evm.Extra.Encoding.{Wire, WireLaws}
use availproject_op_evm.Seal.{Crypto, CryptoLaws}

-- A list is written as the number of its elements and then each of them after its length.
abbrev joined : List Bytes → Bytes
joined [] = []
joined (v ∷ vs) = length v ∷ (v ++ joined vs)

abbrev chunks : ℕ → Bytes → List Bytes
chunks zero bs = []
chunks (suc n) [] = []
chunks (suc n) (k ∷ bs) = take k bs ∷ chunks n (drop k bs)

take-length : (v r : Bytes) → take (length v) (v ++ r) ≡ v
take-length [] r = ground arith
take-length (x ∷ v) r = ground (arith, take-length v r)

drop-length : (v r : Bytes) → drop (length v) (v ++ r) ≡ r
drop-length [] r = ground arith
drop-length (x ∷ v) r = ground (arith, drop-length v r)

chunks-joined : (vs : List Bytes) → chunks (length vs) (joined vs) ≡ vs
chunks-joined [] = refl
chunks-joined (v ∷ vs) =
    ground (arith, take-length v (joined vs), drop-length v (joined vs), chunks-joined vs)

abbrev elems_of : Bytes → Option (List Bytes)
elems_of [] = none
elems_of (zero ∷ bs) = none
elems_of (suc n ∷ []) = none
elems_of (suc n ∷ count ∷ bs) = some (chunks count bs)

abbrev string_of : Bytes → Option Bytes
string_of [] = none
string_of (zero ∷ bs) = some bs
string_of (suc n ∷ bs) = none

abbrev address_of_value : Bytes → Option Address
address_of_value (zero ∷ a ∷ []) = some a
address_of_value _ = none

abbrev first_byte : Bytes → ℕ
first_byte [] = 0
first_byte (a ∷ bs) = a

abbrev rest_of : Bytes → Option Bytes
rest_of [] = none
rest_of (a ∷ bs) = some bs

abbrev pub plain_wire : Wire
plain_wire = record {
  Value = Bytes;
  new_array = λ vs. 1 ∷ length vs ∷ joined vs;
  new_bytes = λ b. 0 ∷ b;
  new_uint = λ n. 0 ∷ n ∷ [];
  marshal = λ v. 7 ∷ v;
  parse = rest_of;
  get_elems = elems_of;
  get_bytes = string_of;
  get_address = address_of_value;
  address_bytes = λ a. a ∷ [];
  bytes_to_address = first_byte;
  hash_bytes = λ h. h ∷ [];
  bytes_to_hash = first_byte;
}

pub plain_wire-laws : WireLaws plain_wire
plain_wire-laws = record {
  parse-marshal = λ v. refl;
  marshal-ne-nil = λ v e. ground (arith, e);
  get_elems-new_array = λ vs. ap some (chunks-joined vs);
  get_elems-new_bytes = λ b. refl;
  get_bytes-new_bytes = λ b. refl;
  get_address-new_bytes = λ a. refl;
  bytes_to_address-address_bytes = λ a. refl;
  bytes_to_hash-hash_bytes = λ h. refl;
}

-- A signature is the key and the digest.
abbrev recovered : Bytes → Bytes → Option Address
recovered [] digest = none
recovered (k ∷ s) digest = if bytes_eq s digest then some k else none

abbrev pub plain_crypto : Crypto
plain_crypto = record {
  PrivateKey = ℕ;
  address_of = λ k. k;
  sign = λ k digest. some (k ∷ digest);
  recover = recovered;
  keccak = λ b. b;
}

pub plain_crypto-laws : CryptoLaws plain_crypto
plain_crypto-laws = record {
  recover-sign = λ k digest s e. ground (arith, e, bytes_eq_refl digest);
}
