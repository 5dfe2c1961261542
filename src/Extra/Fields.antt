-- ===== src/Extra/Fields.antt =====
-- The extra data fields: what is encoded is what is decoded, and the encoding depends on the map
-- alone, not on the order in which Go ranges over it.
use mathlib.Core.Bool.{Bool-set}
use mathlib.Core.Logic.{∥∥₁_elim}
use mathlib.Core.List.{Permᴰ}
use availproject_op_evm.Prelude.{
  ◌≡◌, ◌≢◌, refl, ap, ◌∙◌, Bool, false, ◌||◌, none, some, List, [], ◌∷◌, map, ok, panic, or_fail,
  >>=-eq-ok, Bool-cases, inl, inr, arith, if◌then◌else◌,
}
use availproject_op_evm.Prelude.Bytes.{Bytes, bytes_eq, bytes_eq_iff, bytes_order}
use availproject_op_evm.Prelude.Sort.{sort, sort-perm, perm-sort}
use availproject_op_evm.Prelude.Dict.{
  Dict, lookup, insert, keys, lookup-insert, IsMap, perm_of_lookup, insert-IsMap, keys-perm,
  Keys-set,
}
use availproject_op_evm.Extra.{
  not_a_string, not_rlp, not_a_list, is_empty, value_at, field_values, encode_extra_data_fields,
  decode_pairs, decode_extra_data_fields,
}
use availproject_op_evm.Extra.Encoding.{Wire, WireLaws}

-- What the decoding loop makes of a list of keys: each is written with its value.
abbrev write_all : List Bytes → Dict Bytes → Dict Bytes → Dict Bytes
write_all [] fields kv = kv
write_all (k ∷ ks) fields kv = write_all ks fields (insert k (value_at k fields) kv)

abbrev has_key : Bytes → List Bytes → Bool
has_key j [] = false
has_key j (k ∷ ks) = bytes_eq k j || has_key j ks

permᴰ-has_key : (j : Bytes) {ks ls : List Bytes} → Permᴰ ks ls → has_key j ks ≡ has_key j ls
permᴰ-has_key j Permᴰ.nil = refl
permᴰ-has_key j (Permᴰ.cons e p) = rw (e, permᴰ-has_key j p)
permᴰ-has_key j (Permᴰ.swap {a = a} {b = b} e f) = rw (e, f) (ground arith)
permᴰ-has_key j (Permᴰ.trans p q) = permᴰ-has_key j p ∙ permᴰ-has_key j q

has_key-sort : (j : Bytes) (ks : List Bytes) → has_key j (sort bytes_order ks) ≡ has_key j ks
has_key-sort j ks = ∥∥₁_elim (sort-perm bytes_order ks) (Bool-set _ _) (permᴰ-has_key j)

lookup-has_key :
    (j : Bytes) (m : Dict Bytes)
    → lookup j m ≡ (if has_key j (keys m) then some (value_at j m) else none)
unfolding lookup
lookup-has_key j [] = refl
lookup-has_key j ((k, v) ∷ m) = ground (arith, lookup-has_key j m)

lookup-write_all :
    (j : Bytes) (ks : List Bytes) (fields kv : Dict Bytes)
    → lookup j (write_all ks fields kv)
      ≡ (if has_key j ks then some (value_at j fields) else lookup j kv)
lookup-write_all j [] fields kv = refl
lookup-write_all j (k ∷ ks) fields kv = ground (
  arith,
  lookup-write_all j ks fields (insert k (value_at k fields) kv),
  lookup-insert k j (value_at k fields) kv,
  bytes_eq_iff k j,
)

write_all-IsMap :
    (ks : List Bytes) (fields kv : Dict Bytes) → IsMap kv → IsMap (write_all ks fields kv)
write_all-IsMap [] fields kv h = h
write_all-IsMap (k ∷ ks) fields kv h =
    write_all-IsMap ks fields (insert k (value_at k fields) kv)
      (insert-IsMap k (value_at k fields) kv h)

abbrev decoded : Dict Bytes → Dict Bytes
decoded fields = write_all (sort bytes_order (keys fields)) fields []

lookup-decoded : (fields : Dict Bytes) (j : Bytes) → lookup j (decoded fields) ≡ lookup j fields
unfolding lookup
lookup-decoded fields j = ground (
  arith,
  lookup-write_all j (sort bytes_order (keys fields)) fields [],
  has_key-sort j (keys fields),
  lookup-has_key j fields,
)

value_at-ext :
    (k : Bytes) (a b : Dict Bytes) → lookup k a ≡ lookup k b → value_at k a ≡ value_at k b
value_at-ext k a b e = cc

field_values-ext :
    (w : Wire) (ks : List Bytes) (a b : Dict Bytes)
    → ((j : Bytes) → lookup j a ≡ lookup j b)
    → field_values w ks a ≡ field_values w ks b
unfolding field_values
field_values-ext w [] a b same = refl
field_values-ext w (k ∷ ks) a b same =
    rw (value_at-ext k a b (same k), field_values-ext w ks a b same)

-- Two maps with the same entries have the same encoding, in whatever order they list them.
pub encode_extra_data_fields-ext :
    (w : Wire) (a b : Dict Bytes)
    → IsMap a
    → IsMap b
    → ((j : Bytes) → lookup j a ≡ lookup j b)
    → encode_extra_data_fields w a ≡ encode_extra_data_fields w b
unfolding encode_extra_data_fields
encode_extra_data_fields-ext w a b ha hb same =
    ap (λ vs. w.marshal (w.new_array vs))
      (field_values-ext w (sort bytes_order (keys a)) a b same
        ∙ ap (λ ks. field_values w ks b)
            (perm-sort bytes_order Keys-set (keys-perm (perm_of_lookup a b ha hb same))))

-- A list of odd length.
abbrev pub IsOdd : List Bytes → Type 0
IsOdd [] = ⊥
IsOdd (b ∷ []) = Unit {0}
IsOdd (b ∷ c ∷ bs) = IsOdd bs

decode_pairs-IsMap :
    (w : Wire) (vs : List w.Value) (kv m : Dict Bytes)
    → IsMap kv
    → decode_pairs w vs kv ≡ ok m
    → IsMap m
unfolding decode_pairs
decode_pairs-IsMap w [] kv m h e = let eq : kv ≡ m = cc e in rw (← eq) h
decode_pairs-IsMap w (k ∷ []) kv m h e =
    let (key, f, g) = >>=-eq-ok (or_fail (w.get_bytes k) not_a_string) _ e in
    absurd (ground (arith, g))
decode_pairs-IsMap w (k ∷ v ∷ vs) kv m h e =
    let (key, _, f) = >>=-eq-ok (or_fail (w.get_bytes k) not_a_string) _ e in
    let (value, _, g) = >>=-eq-ok (or_fail (w.get_bytes v) not_a_string) _ f in
    decode_pairs-IsMap w vs (insert key value kv) m (insert-IsMap key value kv h) g

-- Whatever the bytes, what is decoded from them names no key twice.
pub decode_extra_data_fields-IsMap :
    (w : Wire) (input : Bytes) (kv : Dict Bytes)
    → decode_extra_data_fields w input ≡ ok kv
    → IsMap kv
unfolding decode_extra_data_fields
decode_extra_data_fields-IsMap w input kv e = elim (Bool-cases (is_empty input)) [
  | inl empty ↦ let eq : [] ≡ kv = cc (rw empty at e) in rw (← eq) tt
  | inr full ↦
      let (v, _, f) = >>=-eq-ok (or_fail (w.parse input) not_rlp) _ (rw full at e) in
      let (vs, _, g) = >>=-eq-ok (or_fail (w.get_elems v) not_a_list) _ f in
      decode_pairs-IsMap w vs [] kv tt g
]

not_empty : (b : Bytes) → b ≢ [] → is_empty b ≡ false
not_empty [] h = absurd (h refl)
not_empty (x ∷ xs) h = refl

module _ (w : Wire) (laws : WireLaws w) where
  decode_pairs-field_values :
      (ks : List Bytes) (fields kv : Dict Bytes)
      → decode_pairs w (field_values w ks fields) kv ≡ ok (write_all ks fields kv)
  unfolding decode_pairs field_values
  decode_pairs-field_values [] fields kv = refl
  decode_pairs-field_values (k ∷ ks) fields kv =
      rw (laws.get_bytes-new_bytes k, laws.get_bytes-new_bytes (value_at k fields))
        (decode_pairs-field_values ks fields (insert k (value_at k fields) kv))

  marshal-not_empty : (v : w.Value) → is_empty (w.marshal v) ≡ false
  marshal-not_empty v = not_empty (w.marshal v) (laws.marshal-ne-nil v)

  decode-encode_lem :
      (fields : Dict Bytes)
      → decode_extra_data_fields w (encode_extra_data_fields w fields) ≡ ok (decoded fields)
  unfolding decode_extra_data_fields encode_extra_data_fields
  decode-encode_lem fields =
      rw
        (
          marshal-not_empty (w.new_array values),
          laws.parse-marshal (w.new_array values),
          laws.get_elems-new_array values,
        )
        (decode_pairs-field_values (sort bytes_order (keys fields)) fields [])
    where
      values : List w.Value
      values = field_values w (sort bytes_order (keys fields)) fields

  -- What is encoded is decoded without an error or a panic, into a map with the same entries.
  pub decode-encode_extra_data_fields :
      (fields : Dict Bytes)
      → (kv : Dict Bytes) × (decode_extra_data_fields w (encode_extra_data_fields w fields) ≡ ok kv)
        × IsMap kv
        × ((j : Bytes) → lookup j kv ≡ lookup j fields)
  decode-encode_extra_data_fields fields = (
    decoded fields,
    decode-encode_lem fields,
    write_all-IsMap (sort bytes_order (keys fields)) fields [] tt,
    lookup-decoded fields,
  )

  -- The strings of a list that is no encoded map: with one too many, the last key has no value.
  abbrev strings : List Bytes → List w.Value
  strings bs = map w.new_bytes bs

  decode_pairs_odd :
      (bs : List Bytes) (kv : Dict Bytes) → IsOdd bs → decode_pairs w (strings bs) kv ≡ panic
  unfolding decode_pairs
  decode_pairs_odd [] kv h = absurd h
  decode_pairs_odd (b ∷ []) kv h = rw (laws.get_bytes-new_bytes b)
  decode_pairs_odd (b ∷ c ∷ bs) kv h =
      rw (laws.get_bytes-new_bytes b, laws.get_bytes-new_bytes c)
        (decode_pairs_odd bs (insert b c kv) h)

  -- Extra data that is a list of an odd number of strings stops the program.
  pub decode_extra_data_fields_odd :
      (bs : List Bytes)
      → IsOdd bs
      → decode_extra_data_fields w (w.marshal (w.new_array (strings bs))) ≡ panic
  unfolding decode_extra_data_fields
  decode_extra_data_fields_odd bs h =
      rw
        (
          marshal-not_empty (w.new_array (strings bs)),
          laws.parse-marshal (w.new_array (strings bs)),
          laws.get_elems-new_array (strings bs),
        )
        (decode_pairs_odd bs [] h)
