-- ===== src/Avail/Search/Walk.antt =====
-- Where the search ends: on the way back over blocks without blocks of ours, and at a latest block
-- that holds the target.
use availproject_op_evm.Prelude.{
  ℕ, suc, ◌+◌, ◌%◌, ◌≤◌, ◌<◌, ◌≡◌, ◌⊎◌, true, false, none, some, List, [], ◌∷◌, ok, ==_iff, arith,
}
use availproject_op_evm.Prelude.Int.{pos, negsuc}
use availproject_op_evm.Chain.Types.{Block, u64_mod}
use availproject_op_evm.Avail.Extract.{CallIndex, AvailBlock, Codec, block_from_avail}
use availproject_op_evm.Avail.Search.{
  Client, SearchFunc, add_offset, search_loop, search_block, offsets_to, sync_func,
  get_next_avail_block_number,
}

-- Some block has that number.
abbrev pub HasNumber : ℕ → List Block → Type 0
HasNumber target [] = ⊥
HasNumber target (b ∷ bs) = (b.header.number ≡ target) ⊎ HasNumber target bs

offsets_to-HasNumber :
    (target n : ℕ) (bs : List Block) → HasNumber target bs → offsets_to target n bs ≡ none
unfolding offsets_to
offsets_to-HasNumber target n [] h = absurd h
offsets_to-HasNumber target n (b ∷ bs) h =
    ground (arith, ==_iff b.header.number target, h, offsets_to-HasNumber target n bs)

module _ (c : Codec) (app_id : ℕ) (call : CallIndex) (target : ℕ) where
  sync_func-found :
      (blk : AvailBlock) (bs : List Block)
      → block_from_avail c app_id call blk ≡ ok bs
      → HasNumber target bs
      → sync_func c app_id call target blk ≡ ok (pos blk.number, true)
  unfolding sync_func
  sync_func-found blk bs e h = ground (arith, e, offsets_to-HasNumber target blk.number bs h)

module _ (client : Client) (search : SearchFunc) (blocks : ℕ → AvailBlock) (m : ℕ) where
  -- The client has the blocks from m to n, each under its number.
  abbrev pub Has : ℕ → Type 0
  Has n = (k : ℕ) → m ≤ k → k ≤ n → (client.get_block k ≡ some (blocks k)) × ((blocks k).number ≡ k)

  -- The search function sends the search one block back from each block above m, up to n.
  abbrev pub SendsBack : ℕ → Type 0
  SendsBack n = (k : ℕ) → m < k → k ≤ n → search (blocks k) ≡ ok (negsuc 0, false)

module _ (c : Codec) (app_id : ℕ) (call : CallIndex) (client : Client) (target : ℕ) where
  -- If the latest Avail block holds the target itself, the search does not stop there: it asks for
  -- the block of twice the number, and while there is none, the node starts again from block 0.
  pub get_next_avail_block_number-latest :
      (fuel : ℕ) (blk : AvailBlock) (bs : List Block)
      → 0 < target
      → 0 < blk.number
      → client.latest ≡ some blk.number
      → client.get_block blk.number ≡ some blk
      → client.get_block ((blk.number + blk.number) % u64_mod) ≡ none
      → block_from_avail c app_id call blk ≡ ok bs
      → HasNumber target bs
      → get_next_avail_block_number c app_id (some call) client (suc fuel) target ≡ ok 0
  unfolding get_next_avail_block_number search_block search_loop add_offset
  get_next_avail_block_number-latest fuel blk bs ht hn latest known missing here has =
      ground (arith, latest, known, missing, sync_func-found c app_id call target blk bs here has)
