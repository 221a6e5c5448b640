-- ===== src/Consensus/Restart.antt =====
-- A node that is started from its block store.
use bery_bc.Base.{
  ℕ, ◌+◌, ◌≡◌, refl, sym, ◌∙◌, ap, Bool, true, false, Option, none, some, [], ◌∷◌, leb,
  if◌then◌else◌,
}
use bery_bc.Base.TextMap.{TextMap}
use bery_bc.Bytes.{Bytes, Text, from_hex}
use bery_bc.Bytes.HexLaws.{IsBytes, from_hex-to_hex}
use bery_bc.Core.Block.{Block, header_hash}
use bery_bc.Consensus.Node.{Ledger, Node, Validator, Vote}
use bery_bc.Consensus.Signing.{sign_vote}
use bery_bc.Consensus.Round.{
  Setup, start_round, update_validators, lead_or_follow, vote_for_pending, broadcast_later,
}
use bery_bc.Consensus.Start.{start}
use bery_bc.Storage.Database.{Database, IsDatabase, Forms, IsReadable, Head}
use bery_bc.Storage.Blocks.{get_head, save_block, get_slashed_validators}
use bery_bc.Storage.Refinement.{IsSavable, save_block_refines}
use bery_bc.Vm.Staking.{JsonLists}

-- The node stands where another does, with the same votes, bans and pending blocks.
pub record Stands {W : Type 0} (n m : Node W) : Type 0 where
  pub same_height : m.height ≡ n.height
  pub same_commit : m.last_commit_hash ≡ n.last_commit_hash
  pub same_stop : m.stopped ≡ n.stopped
  pub same_bans : m.slashed_validators ≡ n.slashed_validators

module _ {W : Type 0} where
  here : (n : Node W) → Stands n n
  here n = record { same_height = refl; same_commit = refl; same_stop = refl; same_bans = refl }

  then_on : {n m k : Node W} → Stands n m → Stands m k → Stands n k
  then_on f g = record {
    same_height = g.same_height ∙ f.same_height;
    same_commit = g.same_commit ∙ f.same_commit;
    same_stop = g.same_stop ∙ f.same_stop;
    same_bans = g.same_bans ∙ f.same_bans;
  }

  if-Stands : {n x y : Node W} (b : Bool) → Stands n x → Stands n y → Stands n (if b then x else y)
  if-Stands true f g = f
  if-Stands false f g = g

  elim-Stands {ℓ} :
      {A : Type ℓ} {n x : Node W} {f : A → Node W} (o : Option A)
      → Stands n x
      → ((a : A) → Stands n (f a))
      → Stands n (elim o [ none ↦ x | some a ↦ f a ])
  elim-Stands none f g = f
  elim-Stands (some a) f g = g a

  still :
      {n m : Node W}
      → m.height ≡ n.height
      → m.last_commit_hash ≡ n.last_commit_hash
      → m.stopped ≡ n.stopped
      → m.slashed_validators ≡ n.slashed_validators
      → Stands n m
  still a b c d = record { same_height = a; same_commit = b; same_stop = c; same_bans = d }

module _ (s : Setup) (l : Ledger) where
  open l use {World}

  broadcast_later-Stands : (v : Vote) (n : Node World) → Stands n (broadcast_later s l v n)
  unfolding broadcast_later
  broadcast_later-Stands v n =
      elim-Stands (sign_vote s.crypto s.key_pair v) (here n) (λ u. still refl refl refl refl)

  vote_for_pending-Stands :
      (height round : ℕ) (proposer : Text) (m : TextMap Block) (n : Node World)
      → Stands n (vote_for_pending s l height round proposer m n)
  unfolding vote_for_pending
  vote_for_pending-Stands height round proposer [] n = here n
  vote_for_pending-Stands height round proposer ((hash, b) ∷ m) n =
      then_on
        (if-Stands _ (then_on (still refl refl refl refl) (broadcast_later-Stands _ _)) (here n))
        (vote_for_pending-Stands height round proposer m _)

  lead_or_follow-Stands :
      (height round : ℕ) (o : Option Validator) (n : Node World)
      → Stands n (lead_or_follow s l height round o n)
  unfolding lead_or_follow
  lead_or_follow-Stands height round none n = here n
  lead_or_follow-Stands height round (some v) n =
      if-Stands _ (still refl refl refl refl)
        (vote_for_pending-Stands height round v.public_key n.pending_blocks n)

  start_round-Stands :
      (height round : ℕ) (n : Node World) → Stands n (start_round s l height round n)
  unfolding start_round update_validators
  start_round-Stands height round n = if-Stands n.stopped (here n) (
      if-Stands (leb height n.height) (here n) (
        then_on (if-Stands {x = update_validators s l n} _ (still refl refl refl refl) (here n))
          (then_on (still refl refl refl refl) (lead_or_follow-Stands height round _ _))))

  module _ (db : Database) (law : IsDatabase db) (f : Forms) (readable : IsReadable f)
      (j : JsonLists) where
    open db use {Db}

    start-head :
        (d : Db) (n : Node World) (head : Head)
        → get_head db f s.crypto d ≡ some (some head)
        → (m : Node World) × (start s l db f j s.crypto d n ≡ some m)
          × (m.height ≡ head.height)
          × (m.last_commit_hash ≡ from_hex head.hash)
          × (m.stopped ≡ false)
          × (m.slashed_validators ≡ get_slashed_validators db f s.crypto j d)
    unfolding start
    start-head d n head h =
        let ready = record n {
          height = head.height;
          last_commit_hash = from_hex head.hash;
          slashed_validators = get_slashed_validators db f s.crypto j d;
          stopped = false;
        } in
        let t = start_round-Stands (head.height + 1) 0 ready in
        (
          start_round s l (head.height + 1) 0 ready,
          rw (h, start) refl,
          t.same_height,
          t.same_commit,
          t.same_stop,
          t.same_bans,
        )

    -- A savable block is saved, and a node that is started from the store after that runs at the height
    -- and hash of this block, with the bans that the store holds. The hash is made of bytes.
    pub start-save_block :
        (b : Block) (d : Db) (n : Node World)
        → IsSavable s.crypto b
        → ((hash : Bytes) → header_hash s.crypto b.header ≡ some hash → IsBytes hash)
        → (d' : Db) × (m : Node World) × (save_block db f s.crypto b d ≡ some d')
          × (start s l db f j s.crypto d' n ≡ some m)
          × (m.height ≡ b.header.height)
          × (header_hash s.crypto b.header ≡ some m.last_commit_hash)
          × (m.stopped ≡ false)
          × (m.slashed_validators ≡ get_slashed_validators db f s.crypto j d')
    start-save_block b d n p bytes =
        let (d', hash, saved, hashed, chain, head) =
          save_block_refines db law f readable s.crypto b d p in
        let (m, started, height, commit, runs, bans) = start-head d' n _ head in
        (
          d',
          m,
          saved,
          started,
          height,
          hashed ∙ ap some (sym (commit ∙ from_hex-to_hex hash (bytes hash hashed))),
          runs,
          bans,
        )
