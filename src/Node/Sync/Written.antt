-- ===== src/Node/Sync/Written.antt =====
-- What becomes of the blocks that a node goes through while it syncs.
use availproject_op_evm.Prelude.{
  ◌≡◌, ◌⊎◌, inl, inr, refl, Bool, true, false, Option, none, some, List, [], ◌∷◌, Outcome, ok, err,
  panic,
}
use availproject_op_evm.Chain.Types.{Hash, Block}
use availproject_op_evm.Extra
use availproject_op_evm.Extra.{get_extra_data_fraud_proof_target}
use availproject_op_evm.Extra.Encoding.{Wire}
use availproject_op_evm.Fraud.{is_fraud_proof_block}
use availproject_op_evm.Node.Sync.{
  Local, logged, if_valid, unless_proof, sync_block, then_sync, sync_blocks,
}

module _ (w : Wire) (l : Local) where
  -- A block that names no target of a fraud proof.
  abbrev pub IsOrdinary : Block → Type 0
  IsOrdinary blk =
      ((target : Hash) × (get_extra_data_fraud_proof_target w blk.header ≡ ok (target, false)))
      ⊎ ((e : Extra.Error) × (get_extra_data_fraud_proof_target w blk.header ≡ err e))

  -- What a block does to the world: a fraud proof nothing; any other is checked, and written exactly
  -- if it passes the check, be it that the write fails.
  pub data Taken (blk : Block) (v : l.World) : l.World → Type 0 where
    proof :
        (target : Hash)
        → get_extra_data_fraud_proof_target w blk.header ≡ ok (target, true)
        → Taken blk v v
    refused : (u : l.World) → IsOrdinary blk → l.check blk v ≡ some (false, u) → Taken blk v u
    written :
        (u u' : l.World) (done : Bool)
        → IsOrdinary blk
        → l.check blk v ≡ some (true, u)
        → l.write_block blk u ≡ some (done, u')
        → Taken blk v u'

  pub data AllTaken : List Block → l.World → l.World → Type 0 where
    nothing : (v : l.World) → AllTaken [] v v
    then_more :
        {blk : Block} {blks : List Block} {v u v' : l.World}
        → Taken blk v u
        → AllTaken blks u v'
        → AllTaken (blk ∷ blks) v v'

  -- A block that makes the node panic: in its extra data, in the check or in the write.
  abbrev pub Panics : Block → l.World → Type 0
  Panics blk v =
      (get_extra_data_fraud_proof_target w blk.header ≡ panic)
      ⊎ (IsOrdinary blk × (l.check blk v ≡ none))
      ⊎ ((u : l.World) × IsOrdinary blk
          × (l.check blk v ≡ some (true, u))
          × (l.write_block blk u ≡ none))

  -- One of the blocks makes the node panic, after those before it.
  pub data Stuck : List Block → l.World → Type 0 where
    at : {blk : Block} {blks : List Block} {v : l.World} → Panics blk v → Stuck (blk ∷ blks) v
    later :
        {blk : Block} {blks : List Block} {v u : l.World}
        → Taken blk v u
        → Stuck blks u
        → Stuck (blk ∷ blks) v

  -- How a step ends, and what it then was.
  abbrev Ends : Block → l.World → Option l.World → Type 0
  Ends blk v none = Panics blk v
  Ends blk v (some u) = Taken blk v u

  logged-Ends :
      (blk : Block) (v u : l.World) (r : Option (Bool × l.World))
      → IsOrdinary blk
      → l.check blk v ≡ some (true, u)
      → l.write_block blk u ≡ r
      → Ends blk v (logged w l r)
  logged-Ends blk v u none plain checked wrote = inr (inr (u, plain, checked, wrote))
  logged-Ends blk v u (some (done, u')) plain checked wrote = written u u' done plain checked wrote

  if_valid-Ends :
      (blk : Block) (v : l.World) (r : Option (Bool × l.World))
      → IsOrdinary blk
      → l.check blk v ≡ r
      → Ends blk v (if_valid w l blk r)
  if_valid-Ends blk v none plain checked = inr (inl (plain, checked))
  if_valid-Ends blk v (some (false, u)) plain checked = refused u plain checked
  if_valid-Ends blk v (some (true, u)) plain checked =
      logged-Ends blk v u (l.write_block blk u) plain checked refl

  unless_proof-Ends :
      (blk : Block) (v : l.World) (r : Outcome Extra.Error (Hash × Bool))
      → get_extra_data_fraud_proof_target w blk.header ≡ r
      → Ends blk v (
          unless_proof w l blk v
            (elim r [ ok (target, exists) ↦ ok exists | err e ↦ ok false | panic ↦ panic ]))
  unless_proof-Ends blk v (ok (target, true)) e = proof target e
  unless_proof-Ends blk v (ok (target, false)) e =
      if_valid-Ends blk v (l.check blk v) (inl (target, e)) refl
  unless_proof-Ends blk v (err f) e = if_valid-Ends blk v (l.check blk v) (inr (f, e)) refl
  unless_proof-Ends blk v panic e = inl e

  sync_block-Ends : (blk : Block) (v : l.World) → Ends blk v (sync_block w l blk v)
  unfolding sync_block is_fraud_proof_block
  sync_block-Ends blk v =
      unless_proof-Ends blk v (get_extra_data_fraud_proof_target w blk.header) refl

  abbrev pub AllEnd : List Block → l.World → Option l.World → Type 0
  AllEnd blks v none = Stuck blks v
  AllEnd blks v (some v') = AllTaken blks v v'

  then_sync-AllEnd :
      (blk : Block) (blks : List Block) (v : l.World) (o : Option l.World)
      → Ends blk v o
      → ((u : l.World) → AllEnd blks u (sync_blocks w l blks u))
      → AllEnd (blk ∷ blks) v (then_sync w l o (λ u. sync_blocks w l blks u))
  then_sync-AllEnd blk blks v none ended rest = at ended
  then_sync-AllEnd blk blks v (some u) ended rest = after (sync_blocks w l blks u) (rest u)
    where
      after : (o : Option l.World) → AllEnd blks u o → AllEnd (blk ∷ blks) v o
      after none stuck = later ended stuck
      after (some v') taken = then_more ended taken

  pub sync_blocks-AllEnd :
      (blks : List Block) (v : l.World) → AllEnd blks v (sync_blocks w l blks v)
  unfolding sync_blocks
  sync_blocks-AllEnd [] v = nothing v
  sync_blocks-AllEnd (blk ∷ blks) v =
      then_sync-AllEnd blk blks v (sync_block w l blk v) (sync_block-Ends blk v)
        (λ u. sync_blocks-AllEnd blks u)
