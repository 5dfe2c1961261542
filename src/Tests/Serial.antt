-- ===== src/Tests/Serial.antt =====
-- Blocks as lists of numbers, to be read back.
use mathlib.Core.List.{append_assoc}
use availproject_op_evm.Prelude.{
  ℕ, zero, suc, ◌≡◌, refl, Bool, true, false, Option, none, some, List, [], ◌∷◌, ◌++◌, length, ◌==◌,
}
use availproject_op_evm.Prelude.Bytes.{Bytes}
use availproject_op_evm.Chain.Types.{Header, Transaction, Block}

pub record Serial (A : Type 0) : Type 0 where
  pub put : A → Bytes
  pub get : Bytes → Option (A × Bytes)
  pub get-put : (a : A) (rest : Bytes) → get (put a ++ rest) ≡ some (a, rest)

abbrev get_number : Bytes → Option (ℕ × Bytes)
get_number [] = none
get_number (n ∷ bs) = some (n, bs)

abbrev number : Serial ℕ
number = record { put = λ n. n ∷ []; get = get_number; get-put = λ n rest. refl }

module _ {A B : Type 0} (a : Serial A) (b : Serial B) where
  abbrev get_pair : Bytes → Option ((A × B) × Bytes)
  get_pair bs = elim (a.get bs) [
    | none ↦ none
    | some (x, bs1) ↦ elim (b.get bs1) [ none ↦ none | some (y, bs2) ↦ some ((x, y), bs2) ]
  ]

  pub get-put_pair :
      (x : A × B) (rest : Bytes) → get_pair ((a.put x.0 ++ b.put x.1) ++ rest) ≡ some (x, rest)
  get-put_pair (x, y) rest =
      rw
        (
          append_assoc (a.put x) (b.put y) rest,
          a.get-put x (b.put y ++ rest),
          get_pair,
          b.get-put y rest,
        )
        refl

  abbrev pair : Serial (A × B)
  pair = record { put = λ x. a.put x.0 ++ b.put x.1; get = get_pair; get-put = get-put_pair }

module _ {A : Type 0} (a : Serial A) where
  abbrev put_all : List A → Bytes
  put_all [] = []
  put_all (x ∷ xs) = a.put x ++ put_all xs

  abbrev get_all : ℕ → Bytes → Option (List A × Bytes)
  get_all zero bs = some ([], bs)
  get_all (suc n) bs = elim (a.get bs) [
    | none ↦ none
    | some (x, bs1) ↦ elim (get_all n bs1) [ none ↦ none | some (xs, bs2) ↦ some (x ∷ xs, bs2) ]
  ]

  pub get-put_all :
      (xs : List A) (rest : Bytes) → get_all (length xs) (put_all xs ++ rest) ≡ some (xs, rest)
  get-put_all [] rest = refl
  get-put_all (x ∷ xs) rest =
      rw
        (
          append_assoc (a.put x) (put_all xs) rest,
          a.get-put x (put_all xs ++ rest),
          get-put_all xs rest,
        )
        refl

  abbrev get_list : Bytes → Option (List A × Bytes)
  get_list [] = none
  get_list (n ∷ bs) = get_all n bs

  abbrev list : Serial (List A)
  list = record { put = λ xs. length xs ∷ put_all xs; get = get_list; get-put = get-put_all }

module _ {A B : Type 0} (a : Serial A) (into : B → A) (back : A → B)
    (same : (x : B) → back (into x) ≡ x) where
  abbrev get_as : Bytes → Option (B × Bytes)
  get_as bs = elim (a.get bs) [ none ↦ none | some (x, rest) ↦ some (back x, rest) ]

  pub get-put_as : (x : B) (rest : Bytes) → get_as (a.put (into x) ++ rest) ≡ some (x, rest)
  get-put_as x rest = rw (a.get-put (into x) rest, get_as, same x) refl

  abbrev image : Serial B
  image = record { put = λ x. a.put (into x); get = get_as; get-put = get-put_as }

abbrev string : Serial Bytes
string = list number

abbrev flag : Bool → ℕ
flag true = 1
flag false = 0

pub flag_lem : (b : Bool) → (flag b == 1) ≡ b
flag_lem true = refl
flag_lem false = refl

abbrev bool : Serial Bool
bool = image number flag (λ n. n == 1) flag_lem

abbrev listed : Option ℕ → List ℕ
listed none = []
listed (some n) = n ∷ []

abbrev unlisted : List ℕ → Option ℕ
unlisted [] = none
unlisted (n ∷ ns) = some n

pub listed_lem : (o : Option ℕ) → unlisted (listed o) ≡ o
listed_lem none = refl
listed_lem (some n) = refl

abbrev optional : Serial (Option ℕ)
optional = image string listed unlisted listed_lem

abbrev HeaderFields : Type 0
HeaderFields =
    ℕ × (ℕ × (ℕ × (Bytes × (ℕ × (ℕ × (ℕ × (Bytes × (ℕ × (ℕ × (ℕ × (ℕ × (ℕ × (ℕ × Bytes)))))))))))))

abbrev header_fields : Header → HeaderFields
header_fields h = (
  h.hash,
  (
    h.parent_hash,
    (
      h.sha3_uncles,
      (
        h.miner,
        (
          h.state_root,
          (
            h.tx_root,
            (
              h.receipts_root,
              (
                h.logs_bloom,
                (
                  h.difficulty,
                  (
                    h.number,
                    (h.gas_limit, (h.gas_used, (h.timestamp, (h.base_fee, h.extra_data)))),
                  ),
                ),
              ),
            ),
          ),
        ),
      ),
    ),
  ),
)

abbrev header_of : HeaderFields → Header
header_of (a, (b, (c, (d, (e, (f, (g, (h, (i, (j, (k, (l, (m, (n, o)))))))))))))) = record {
  hash = a;
  parent_hash = b;
  sha3_uncles = c;
  miner = d;
  state_root = e;
  tx_root = f;
  receipts_root = g;
  logs_bloom = h;
  difficulty = i;
  number = j;
  gas_limit = k;
  gas_used = l;
  timestamp = m;
  base_fee = n;
  extra_data = o;
}

abbrev header : Serial Header
header =
    image
      (pair number (
        pair number (
          pair number (
            pair string (
              pair number (
                pair number (
                  pair number (
                    pair string (
                      pair number (
                        pair number
                          (pair number (pair number (pair number (pair number string))))))))))))))
      header_fields header_of (λ h. refl)

abbrev transaction : Serial Transaction
transaction =
    image
      (pair number
        (pair number (pair optional (pair number (pair number (pair number (pair bool string)))))))
      (λ t. (t.hash, (t.from, (t.to, (t.nonce, (t.gas, (t.gas_price, (t.is_state_tx, t.input))))))))
      (λ (a, (b, (c, (d, (e, (f, (g, h))))))). record {
        hash = a;
        from = b;
        to = c;
        nonce = d;
        gas = e;
        gas_price = f;
        is_state_tx = g;
        input = h;
      })
      (λ t. refl)

abbrev pub block : Serial Block
block =
    image (pair header (pair (list transaction) (list header)))
      (λ b. (b.header, (b.transactions, b.uncles)))
      (λ (h, (ts, us)). record { header = h; transactions = ts; uncles = us }) (λ b. refl)
