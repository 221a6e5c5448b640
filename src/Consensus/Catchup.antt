-- ===== src/Consensus/Catchup.antt =====
-- What the loops of `syncBlockchain` do to the height, and that they end.
use bery_bc.Base.{
  ℕ, suc, zero, ◌+◌, ◌≤◌, ◌≡◌, refl, sym, ◌∙◌, ap, inl, inr, Bool, true, false, Option, none, some,
  List, [], ◌∷◌, Bool-cases, same, not, ltb, ◌==◌, ◌&&◌, if◌then◌else◌, arith, ltb→lt,
}
use bery_bc.Base.Throws.{by_test, by_option}
use bery_bc.Core.Block.{Block, header_hash, verify}
use bery_bc.Consensus.Node.{Ledger, Executed, Node}
use bery_bc.Consensus.Round.{Setup}
use bery_bc.Consensus.Sync.{store_synced, apply_synced, sync_block}
use bery_bc.Consensus.Sync.{sync_answer}
use bery_bc.Consensus.Start.{Peers, take_answer, fetch}

no_success {ℓ} : {P : Type ℓ} → false ≡ true → P
no_success h = cc

suc_plus : (a b : ℕ) → suc a + b ≡ suc (a + b)
suc_plus a b = omega arith

module _ (s : Setup) (l : Ledger) where
  open l use {World, root, checkpoint, commit, execute}

  -- The node stands at a block.
  abbrev AtBlock : Block → Node World × Bool → Type 0
  AtBlock b r =
      r.1 ≡ true
      → (r.0.height ≡ b.header.height) × (header_hash s.crypto b.header ≡ some r.0.last_commit_hash)

  store_synced-AtBlock :
      (b : Block) (e : Executed) (n : Node World) → AtBlock b (store_synced s l b e n)
  unfolding store_synced
  store_synced-AtBlock b e n =
      by_option (AtBlock b) (header_hash s.crypto b.header) (λ x. no_success)
        (λ hash x h. (refl, x))

  apply_synced-AtBlock : (b : Block) (n : Node World) → AtBlock b (apply_synced s l b n)
  unfolding apply_synced
  apply_synced-AtBlock b n =
      by_option (AtBlock b) (execute b.transactions (checkpoint n.world)).1 (λ x. no_success)
        (λ e x.
          by_test (AtBlock b)
            (same (root (execute b.transactions (checkpoint n.world)).0) b.header.state_root)
            (λ y.
              by_option (AtBlock b) (commit (execute b.transactions (checkpoint n.world)).0)
                (λ z. no_success) (λ w z. store_synced-AtBlock b e (record n { world = w })))
            (λ y. no_success))

  -- A block that was taken: its place in the chain, and the node after it.
  pub record Taken (b : Block) (n m : Node World) : Type 0 where
    pub next_height : b.header.height ≡ n.height + 1
    pub parent : (ltb 0 n.height && not (same b.header.parent_hash n.last_commit_hash)) ≡ false
    pub verified : verify s.crypto b ≡ some true
    pub new_height : m.height ≡ b.header.height
    pub new_hash : header_hash s.crypto b.header ≡ some m.last_commit_hash

  abbrev TakenIf : Block → Node World → Node World × Bool → Type 0
  TakenIf b n r = r.1 ≡ true → Taken b n r.0

  sync_block-Taken :
      (b : Block) (n : Node World)
      → (sync_block s l b n).1 ≡ true
      → Taken b n (sync_block s l b n).0
  unfolding sync_block
  sync_block-Taken b n =
      by_test (TakenIf b n) (not (b.header.height == n.height + 1)) (λ x. no_success)
        (λ x.
          by_test (TakenIf b n)
            (ltb 0 n.height && not (same b.header.parent_hash n.last_commit_hash)) (λ y. no_success)
            (λ y.
              by_option (TakenIf b n) (verify s.crypto b) (λ z. no_success)
                (λ v z.
                  by_test (TakenIf b n) v
                    (λ u h.
                      let (height, hash) = apply_synced-AtBlock b n h in
                      record {
                        next_height = ground arith;
                        parent = y;
                        verified = z ∙ ap some u;
                        new_height = height;
                        new_hash = hash;
                      })
                    (λ u. no_success))))

  -- The height has not fallen, or has grown, if the loop goes on.
  abbrev Raises : ℕ → Node World → Node World × Bool → Type 0
  Raises k n r = r.1 ≡ true → n.height + k ≤ r.0.height

  one_more :
      (b : Block) (n : Node World) (rest : Node World × Bool)
      → Raises 0 (sync_block s l b n).0 rest
      → Raises 1 n (if (sync_block s l b n).1 then rest else sync_block s l b n)
  one_more b n rest h =
      by_test (Raises 1 n) (sync_block s l b n).1
        (λ e g. let t = sync_block-Taken b n e in omega (arith, h g, t.next_height, t.new_height))
        (λ e g. no_success (sym e ∙ g))

  sync_answer-Raises : (bs : List Block) (n : Node World) → Raises 0 n (sync_answer s l bs n)
  unfolding sync_answer
  sync_answer-Raises [] n h = omega arith
  sync_answer-Raises (b ∷ bs) n h =
      omega (arith, one_more b n _ (sync_answer-Raises bs (sync_block s l b n).0) h)

  take_answer-Raises : (o : Option (List Block)) (n : Node World) → Raises 1 n (take_answer s l o n)
  unfolding take_answer sync_answer
  take_answer-Raises none n h = no_success h
  take_answer-Raises (some []) n h = no_success h
  take_answer-Raises (some (b ∷ bs)) n h =
      one_more b n _ (sync_answer-Raises bs (sync_block s l b n).0) h

  fetch_none :
      (p : Peers) (max fuel k : ℕ) (n : Node World)
      → ltb n.height max ≡ false
      → fetch s l fuel p max k n ≡ n
  unfolding fetch
  fetch_none p max zero k n e = refl
  fetch_none p max (suc fuel) k n e = rw (e) refl

  -- The loop of requests ends: the heights that are missing are as good as any more rounds.
  pub fetch_ends :
      (p : Peers) (max fuel extra k : ℕ) (n : Node World)
      → max ≤ fuel + n.height
      → fetch s l (fuel + extra) p max k n ≡ fetch s l fuel p max k n
  unfolding fetch
  fetch_ends p max zero extra k n h = elim (Bool-cases (ltb n.height max)) [
    | inl e ↦ absurd (omega (arith, h, ltb→lt n.height max e))
    | inr e ↦ fetch_none p max (0 + extra) k n e
  ]
  fetch_ends p max (suc fuel) extra k n h =
      ap (λ x. fetch s l x p max k n) (suc_plus fuel extra) ∙ elim (Bool-cases (ltb n.height max)) [
        | inr e ↦ rw (e) refl
        | inl e ↦ rw (e) (elim (Bool-cases (take_answer s l (p.blocks k (n.height + 1) max) n).1) [
          | inl g ↦ rw (g) (
              fetch_ends p max fuel extra (k + 1)
                (take_answer s l (p.blocks k (n.height + 1) max) n).0
                (omega (arith, h, take_answer-Raises (p.blocks k (n.height + 1) max) n g)))
          | inr g ↦ rw (g) refl
        ])
      ]
