-- ===== src/Consensus/Sync.antt =====
-- The blocks of a peer, in the loop of `syncBlockchain`; they come decoded.
use bery_bc.Base.{
  ◌+◌, ◌≡◌, refl, Bool, true, false, none, some, List, [], ◌∷◌, same, not, ltb, ◌==◌, ◌&&◌,
  if◌then◌else◌, inl, inr, Bool-cases,
}
use bery_bc.Crypto.{IsSound, KeyPair}
use bery_bc.Core.Transaction.{Transaction}
use bery_bc.Core.Block.{Block, BlockHeader, header_hash, sign, verify}
use bery_bc.Core.Block.Verify.{signed_block_refused}
use bery_bc.Consensus.Node.{Ledger, Executed, Node, save_block, save_receipts, emit}
use bery_bc.Consensus.Round.{Setup}
use bery_bc.Consensus.Commit.{reverted}

module _ (s : Setup) (l : Ledger) where
  open l use {World, root, checkpoint, commit, execute}

  -- After the commit of the state; the hash is read after the block is saved.
  unfoldable pub store_synced : Block → Executed → Node World → Node World × Bool
  store_synced b e n = elim (header_hash s.crypto b.header) [
    | none ↦ (emit (save_block b) n, false)
    | some hash ↦ (
      record (emit (save_receipts b.header.height e.receipts) (emit (save_block b) n)) {
        height = b.header.height;
        last_commit_hash = hash;
      },
      true,
    )
  ]

  -- The execution of a verified block, with its state root compared.
  unfoldable pub apply_synced : Block → Node World → Node World × Bool
  unfolding store_synced
  apply_synced b n =
      let executed = execute b.transactions (checkpoint n.world) in
      elim executed.1 [
        | none ↦ (record n { world = reverted s l executed.0 }, false)
        | some e ↦
            if same (root executed.0) b.header.state_root
            then elim (commit executed.0) [
              | none ↦ (record n { world = executed.0 }, false)
              | some w ↦ store_synced b e (record n { world = w })
            ]
            else (record n { world = reverted s l executed.0 }, false)
      ]

  -- One block; false where the code throws.
  unfoldable pub sync_block : Block → Node World → Node World × Bool
  unfolding apply_synced
  sync_block b n =
      if not (b.header.height == n.height + 1)
      then (n, false)
      else if ltb 0 n.height && not (same b.header.parent_hash n.last_commit_hash)
      then (n, false)
      else elim (verify s.crypto b) [
        | none ↦ (n, false)
        | some verified ↦ if verified then apply_synced b n else (n, false)
      ]

  -- The loop over the blocks of an answer, with false for a throw, which ends it.
  unfoldable pub sync_answer : List Block → Node World → Node World × Bool
  unfolding sync_block
  sync_answer [] n = (n, true)
  sync_answer (b ∷ bs) n =
      let r = sync_block b n in let rest = sync_answer bs r.0 in if r.1 then rest else r

  sync_block_unverified :
      (b : Block) (n : Node World) → verify s.crypto b ≡ some false → sync_block b n ≡ (n, false)
  unfolding sync_block
  sync_block_unverified b n h = elim (Bool-cases (not (b.header.height == n.height + 1))) [
    | inl e ↦ rw (e) refl
    | inr e ↦
        rw (e)
          (elim (Bool-cases
            (ltb 0 n.height && not (same b.header.parent_hash n.last_commit_hash))) [
              | inl f ↦ rw (f) refl
              | inr f ↦ rw (f, h) refl
            ])
  ]

  -- A node takes nothing from an answer whose first block has a header that `sign` has signed,
  -- whatever the key, the transactions and the blocks after it: the loop throws at once.
  pub sync_takes_nothing :
      IsSound s.crypto
      → (k : KeyPair) (h u : BlockHeader) (ts : List Transaction) (bs : List Block) (n : Node World)
      → sign s.crypto k h ≡ some u
      → sync_answer ((record { header = u; transactions = ts }) ∷ bs) n ≡ (n, false)
  unfolding sync_answer
  sync_takes_nothing sound k h u ts bs n signed =
      rw
        (sync_block_unverified (record { header = u; transactions = ts }) n
          (signed_block_refused s.crypto sound k h u ts signed))
        refl
