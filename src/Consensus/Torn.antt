-- ===== src/Consensus/Torn.antt =====
-- Two proposals of one round: the loop of `startRound` goes on after its vote, and the vote that is not
-- awaited is not stored yet where the loop asks for it.
use bery_bc.Base.{
  ℕ, ◌≡◌, refl, ◌∙◌, ap, true, false, Option, some, List, [], ◌∷◌, ◌++◌, same, leb, ◌==◌,
}
use mathlib.Core.List.{append_assoc, append-nil}
use bery_bc.Base.TextMap.{TextMap}
use bery_bc.Bytes.{Text}
use bery_bc.Core.Block.{Block}
use bery_bc.Consensus.Node.{
  Node, Ledger, Vote, Effect, send_block, save_block, save_receipts, save_slashed, remove_tx,
  emit_committed, prevote, Validator, VoteKey, own_vote, set_timer, send_vote, has_slashed,
  find_vote, bucket, get_proposer, get_quorum, emit, propose, prevoting,
}
use bery_bc.Consensus.Signing.{sign_vote, verify_vote}
use bery_bc.Consensus.Round.{
  Setup, my_address, has_voted, ballot, is_proposal, broadcast_later, vote_for_pending,
  lead_or_follow, start_round,
}

-- The votes among what leaves the node.
abbrev pub sent : List Effect → List Vote
sent [] = []
sent (send_vote v ∷ es) = v ∷ sent es
sent (send_block b ∷ es) = sent es
sent (save_block b ∷ es) = sent es
sent (save_receipts h rs ∷ es) = sent es
sent (save_slashed vs ∷ es) = sent es
sent (remove_tx t ∷ es) = sent es
sent (set_timer r ∷ es) = sent es
sent (emit_committed b ∷ es) = sent es

pub sent-append : (es gs : List Effect) → sent (es ++ gs) ≡ sent es ++ sent gs
sent-append [] gs = refl
sent-append (send_vote v ∷ es) gs = ap (λ vs. v ∷ vs) (sent-append es gs)
sent-append (send_block b ∷ es) gs = sent-append es gs
sent-append (save_block b ∷ es) gs = sent-append es gs
sent-append (save_receipts h rs ∷ es) gs = sent-append es gs
sent-append (save_slashed vs ∷ es) gs = sent-append es gs
sent-append (remove_tx t ∷ es) gs = sent-append es gs
sent-append (set_timer r ∷ es) gs = sent-append es gs
sent-append (emit_committed b ∷ es) gs = sent-append es gs

module _ (s : Setup) (l : Ledger) where
  open l use {World}

  abbrev pub begun : ℕ → Node World → Node World
  begun round n = emit (set_timer round) (record n { round = round; step = propose })

  -- A vote of the loop: it goes out, and waits as a task.
  abbrev pub voted : ℕ → Vote → Node World → Node World
  voted round v n =
      emit (send_vote v) (record (emit (set_timer round) (record n { step = prevoting })) {
        tasks = n.tasks ++ own_vote v ∷ [];
      })

  -- The node's prevote of a round, signed.
  abbrev pub prevote_for : Text → ℕ → ℕ → Text → Vote
  prevote_for hash height round signature = record (ballot s l prevote (some hash) height round) {
    signature = signature;
  }

  abbrev pub prevote_key : ℕ → ℕ → VoteKey
  prevote_key height round = record { height = height; round = round; type = prevote }

  -- A node that follows in a round without votes so far, and two pending blocks that each are a proposal
  -- of the round; one vote is no quorum, and the node is not banned.
  pub record IsTorn (height round : ℕ) (n : Node World) : Type 0 where
    pub going : n.stopped ≡ false
    pub above : leb height n.height ≡ false
    pub later : (round == 0) ≡ false
    pub proposer : Validator
    pub proposer_eq : get_proposer n.validators height round ≡ some proposer
    pub follower : same proposer.public_key (my_address s) ≡ false
    pub hash1 : Text
    pub hash2 : Text
    pub different : same hash1 hash2 ≡ false
    pub block1 : Block
    pub block2 : Block
    pub pending : n.pending_blocks ≡ (hash1, block1) ∷ (hash2, block2) ∷ []
    pub first : is_proposal s l height round proposer.public_key block1 ≡ true
    pub second : is_proposal s l height round proposer.public_key block2 ≡ true
    pub no_votes : bucket (prevote_key height round) n.votes ≡ []
    pub signature1 : Text
    pub signature2 : Text
    pub signed1 :
        sign_vote s.crypto s.key_pair (ballot s l prevote (some hash1) height round)
        ≡ some (prevote_for hash1 height round signature1)
    pub signed2 :
        sign_vote s.crypto s.key_pair (ballot s l prevote (some hash2) height round)
        ≡ some (prevote_for hash2 height round signature2)
    pub verified1 : verify_vote s.crypto (prevote_for hash1 height round signature1) ≡ true
    pub small : leb (get_quorum n.validators) 10 ≡ false
    pub not_banned : has_slashed (my_address s) n.slashed_validators ≡ false
    pub idle : n.tasks ≡ []

  sent-voted :
      (round : ℕ) (v : Vote) (n : Node World)
      → sent (voted round v n).effects ≡ sent n.effects ++ v ∷ []
  sent-voted round v n =
      sent-append (n.effects ++ set_timer round ∷ []) (send_vote v ∷ [])
      ∙ rw (sent-append n.effects (set_timer round ∷ []), append-nil) refl

  -- Both votes go out.
  pub sent-voted_twice :
      (round : ℕ) (v w : Vote) (n : Node World)
      → sent (voted round w (voted round v (begun round n))).effects ≡ sent n.effects ++ v ∷ w ∷ []
  sent-voted_twice round v w n =
      sent-voted round w (voted round v (begun round n))
      ∙ ap (λ vs. vs ++ w ∷ [])
          (sent-voted round v (begun round n)
            ∙ ap (λ vs. vs ++ v ∷ [])
                (sent-append n.effects (set_timer round ∷ []) ∙ append-nil (sent n.effects)))
      ∙ append_assoc (sent n.effects) (v ∷ []) (w ∷ [])

  broadcast_later-signed :
      (u v : Vote) (n : Node World)
      → sign_vote s.crypto s.key_pair u ≡ some v
      → broadcast_later s l u n
        ≡ emit (send_vote v) (record n { tasks = n.tasks ++ own_vote v ∷ [] })
  unfolding broadcast_later
  broadcast_later-signed u v n signed = rw (broadcast_later, signed) refl

  vote_for_pending-cons :
      (height round : ℕ) (proposer hash : Text) (b : Block) (m : TextMap Block) (v : Vote)
      (n : Node World)
      → is_proposal s l height round proposer b ≡ true
      → has_voted s l height round prevote n ≡ false
      → sign_vote s.crypto s.key_pair (ballot s l prevote (some hash) height round) ≡ some v
      → vote_for_pending s l height round proposer ((hash, b) ∷ m) n
        ≡ vote_for_pending s l height round proposer m (voted round v n)
  unfolding vote_for_pending
  vote_for_pending-cons height round proposer hash b m v n fits new signed =
      rw (fits, new)
        (ap (vote_for_pending s l height round proposer m)
          (broadcast_later-signed (ballot s l prevote (some hash) height round) v _ signed))

  has_voted-voted :
      (height round : ℕ) (v : Vote) (n : Node World)
      → has_voted s l height round prevote (voted round v n) ≡ has_voted s l height round prevote n
  unfolding has_voted
  has_voted-voted height round v n = refl

  begun-eq :
      (height round : ℕ) (n : Node World)
      → n.stopped ≡ false
      → leb height n.height ≡ false
      → (round == 0) ≡ false
      → start_round s l height round n
        ≡ lead_or_follow s l height round (get_proposer n.validators height round) (begun round n)
  unfolding start_round
  begun-eq height round n going above later = rw (going, above, later) refl

  followed :
      (height round : ℕ) (o : Option Validator) (v : Validator) (n : Node World)
      → o ≡ some v
      → same v.public_key (my_address s) ≡ false
      → lead_or_follow s l height round o n
        ≡ vote_for_pending s l height round v.public_key n.pending_blocks n
  unfolding lead_or_follow
  followed height round o v n e follower = rw (e, follower) refl

  not_voted :
      (height round : ℕ) (n : Node World)
      → bucket (prevote_key height round) n.votes ≡ []
      → has_voted s l height round prevote n ≡ false
  unfolding has_voted find_vote
  not_voted height round n e = rw (e) refl

  -- It sends a vote for each of them.
  pub start_round_torn :
      (height round : ℕ) (n : Node World) (t : IsTorn height round n)
      → start_round s l height round n
        ≡ voted round
            (prevote_for t.hash2 height round t.signature2)
            (voted round (prevote_for t.hash1 height round t.signature1) (begun round n))
  unfolding vote_for_pending has_voted
  start_round_torn height round n t =
      let a = t.proposer.public_key in
      let new = not_voted height round n t.no_votes in
      let m = voted round (prevote_for t.hash1 height round t.signature1) (begun round n) in
      begun-eq height round n t.going t.above t.later
      ∙ followed height round _ t.proposer (begun round n) t.proposer_eq t.follower
      ∙ ap (λ m. vote_for_pending s l height round a m (begun round n)) t.pending
      ∙ vote_for_pending-cons height round a t.hash1 t.block1 ((t.hash2, t.block2) ∷ []) _
          (begun round n) t.first new t.signed1
      ∙ vote_for_pending-cons height round a t.hash2 t.block2 [] _ m t.second new t.signed2
