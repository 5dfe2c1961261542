-- ===== src/Avail/Search.antt =====
-- The search for the Avail block from which a node goes on: `SearchBlock` of pkg/avail/search.go with
-- the search function of consensus/avail/syncer.go.
pub mod Walk
use availproject_op_evm.Prelude.{
  ℕ, zero, suc, ◌+◌, ◌-◌, ◌%◌, ◌||◌, ◌&&◌, Bool, true, false, Option, none, some, List, [], ◌∷◌,
  Outcome, ok, err, panic, ◌>>=◌, or_fail, ltb, leb, ◌==◌, if◌then◌else◌,
}
use availproject_op_evm.Prelude.Int.{ℤ, pos, negsuc, ◌+ℤ◌, ◌-ℤ◌}
use availproject_op_evm.Chain.Types.{Block, u64_mod}
use availproject_op_evm.Avail.Extract.{
  CallIndex, AvailBlock, Error, no_extrinsic_found, rpc_failed, not_found, search_out_of_fuel,
  Codec, block_from_avail,
}

-- What the RPC client answers: the number of the latest block, and the block of a number.
pub record Client : Type 0 where
  pub latest : Option ℕ
  pub get_block : ℕ → Option AvailBlock

-- `SearchFunc`: an offset, and whether the block is the one searched for.
abbrev pub SearchFunc : Type 0
SearchFunc = AvailBlock → Outcome Error (ℤ × Bool)

-- `uint64(number) + uint64(offset)`
unfoldable pub add_offset : ℕ → ℤ → ℕ
add_offset n (pos k) = (n + k) % u64_mod
add_offset n (negsuc k) = (n + u64_mod - suc k) % u64_mod

abbrev pub is_zero : ℤ → Bool
is_zero (pos zero) = true
is_zero (pos (suc n)) = false
is_zero (negsuc n) = false

abbrev pub is_negative : ℤ → Bool
is_negative (pos n) = false
is_negative (negsuc n) = true

-- The loop of `SearchBlock`.
unfoldable pub search_loop : Client → SearchFunc → ℕ → AvailBlock → ℤ → Outcome Error AvailBlock
search_loop client search zero blk offset = err search_out_of_fuel
search_loop client search (suc fuel) blk offset =
    if is_zero offset
    then ok blk
    else if is_negative offset && leb blk.number 1
    then err not_found
    else (or_fail (client.get_block (add_offset blk.number offset)) rpc_failed >>= λ next.
        search next >>= λ (offset', found).
        if found then ok next else search_loop client search fuel next offset')

-- `SearchBlock`; of the first block's answer only the offset is kept.
unfoldable pub search_block : Client → SearchFunc → ℕ → ℕ → Outcome Error AvailBlock
search_block client search fuel offset =
    (if offset == 0 then or_fail client.latest rpc_failed else ok offset) >>= λ start.
    or_fail (client.get_block start) rpc_failed >>= λ blk.
    search blk >>= λ (offset', found). search_loop client search fuel blk offset'

-- Below this line the numbers of blocks are those of `int64(…)`, which are taken not to overflow.
abbrev pub abs : ℤ → ℕ
abs (pos n) = n
abs (negsuc n) = suc n

-- The loop of `syncFunc` over the blocks: it ends at the target, or gives the offsets.
unfoldable pub offsets_to : ℕ → ℕ → List Block → Option (List ℤ)
offsets_to target avail_num [] = some []
offsets_to target avail_num (blk ∷ blks) =
    if blk.header.number == target then none else elim (offsets_to target avail_num blks) [
      | none ↦ none
      | some offsets ↦ some (
          (if ltb target blk.header.number
            then (pos avail_num -ℤ (pos blk.header.number -ℤ pos target))
            else (pos avail_num +ℤ (pos target -ℤ pos blk.header.number)))
          ∷ offsets)
    ]

-- The second loop, from the smallest offset so far; `none` is a zero among the offsets.
unfoldable pub smallest_of : ℤ → List ℤ → Option ℤ
smallest_of smallest [] = some smallest
smallest_of smallest (x ∷ xs) =
    if is_zero x
    then none
    else smallest_of (if ltb (abs x) (abs smallest) || is_zero smallest then x else smallest) xs

-- The function that `syncFunc` returns.
unfoldable pub sync_func : Codec → ℕ → CallIndex → ℕ → SearchFunc
sync_func c app_id call target avail_blk = elim (block_from_avail c app_id call avail_blk) [
  | panic ↦ panic
  | err no_extrinsic_found ↦ ok (negsuc 0, false)
  | err e ↦ err e
  | ok blks ↦ elim (offsets_to target avail_blk.number blks) [
    | none ↦ ok (pos avail_blk.number, true)
    | some offsets ↦ elim (smallest_of (pos 0) offsets) [
      | none ↦ ok (pos 0, true)
      | some smallest ↦ ok (smallest, false)
    ]
  ]
]

-- `getNextAvailBlockNumber`, over the number of the chain's head.
unfoldable pub get_next_avail_block_number :
    Codec → ℕ → Option CallIndex → Client → ℕ → ℕ → Outcome Error ℕ
get_next_avail_block_number c app_id call client fuel head_number =
    if head_number == 0 then ok 1 else elim call [
      | none ↦ ok 0
      | some idx ↦ elim (search_block client (sync_func c app_id idx head_number) fuel 0) [
        | ok blk ↦ ok blk.number
        | err search_out_of_fuel ↦ err search_out_of_fuel
        | err e ↦ ok 0
        | panic ↦ panic
      ]
    ]
