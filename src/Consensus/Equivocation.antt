-- ===== src/Consensus/Equivocation.antt =====
-- The node of two proposals handles its own two votes.
use bery_bc.Base.{
  ℕ, ◌≡◌, refl, ◌∙◌, ap, true, false, some, List, [], ◌∷◌, ◌++◌, same_refl, leb, ◌==◌, arith,
  Bool-cases, inl, inr, ◌&&◌,
}
use bery_bc.Base.Int.{ℤ}
use bery_bc.Base.TextMap.{lookup, insert}
use bery_bc.Bytes.{Text}
use bery_bc.Core.Transaction.{Transaction}
use bery_bc.Consensus.Node.{
  Node, Ledger, Vote, VoteType, prevote, precommit, same_type, VoteKey, Task, own_vote, Buckets,
  has_slashed, find_vote, bucket, push_vote, same_key, get_quorum,
}
use bery_bc.Consensus.Signing.{sign_vote, verify_vote}
use bery_bc.Consensus.Round.{Setup, my_address, ballot, start_round}
use bery_bc.Consensus.Quorum.{
  receive, handle_vote, handle_prevote, check_prevotes, prevote_loop, count_votes,
}
use bery_bc.Consensus.Slashing.{double_vote_bans}
use bery_bc.Consensus.System.{run, task_resumed, step, resume}
use bery_bc.Consensus.Torn.{
  begun, voted, prevote_for, prevote_key, IsTorn, sent, sent-voted_twice, start_round_torn,
}

module _ (s : Setup) (l : Ledger) where
  open l use {World}

  same_key_refl : (k : VoteKey) → same_key k k ≡ true
  same_key_refl k = by_type k.type
    where
      by_type :
          (t : VoteType) → ((k.height == k.height) && (k.round == k.round) && same_type t t) ≡ true
      by_type prevote = ground arith
      by_type precommit = ground arith

  bucket-push_vote_empty :
      (k : VoteKey) (v : Vote) (b : Buckets) → bucket k b ≡ [] → bucket k (push_vote k v b) ≡ v ∷ []
  unfolding bucket push_vote
  bucket-push_vote_empty k v [] e = rw (same_key_refl k) refl
  bucket-push_vote_empty k v ((j, vs) ∷ m) e = elim (Bool-cases (same_key k j)) [
    | inl h ↦ rw (h) (rw (h) (ap (λ us. us ++ v ∷ []) (rw (h) at e)))
    | inr h ↦ rw (h) (rw (h) (bucket-push_vote_empty k v m (rw (h) at e)))
  ]

  receive_alone :
      (hash : Text) (height round : ℕ) (signature : Text) (n : Node World)
      → leb height n.height ≡ false
      → has_slashed (my_address s) n.slashed_validators ≡ false
      → bucket (prevote_key s l height round) n.votes ≡ []
      → verify_vote s.crypto (prevote_for s l hash height round signature) ≡ true
      → receive s l (prevote_for s l hash height round signature) n ≡ (
        record n {
          votes =
              push_vote
                (prevote_key s l height round)
                (prevote_for s l hash height round signature)
                n.votes;
        },
        true,
      )
  unfolding receive find_vote
  receive_alone hash height round signature n above not_banned no_votes verified =
      rw (above, not_banned, no_votes, verified) refl

  one_vote_below :
      (height round : ℕ) (v : Vote) (n : Node World)
      → bucket (prevote_key s l height round) n.votes ≡ v ∷ []
      → leb (get_quorum n.validators) 10 ≡ false
      → check_prevotes s l height round n ≡ n
  unfolding check_prevotes prevote_loop count_votes lookup insert
  one_vote_below height round v n one small = rw (one, small) refl

  -- A prevote that is the first of its round, and no quorum.
  handle_vote_alone :
      (hash : Text) (height round : ℕ) (signature : Text) (n : Node World)
      → leb height n.height ≡ false
      → has_slashed (my_address s) n.slashed_validators ≡ false
      → bucket (prevote_key s l height round) n.votes ≡ []
      → verify_vote s.crypto (prevote_for s l hash height round signature) ≡ true
      → leb (get_quorum n.validators) 10 ≡ false
      → handle_vote s l (prevote_for s l hash height round signature) n ≡ record n {
        votes =
            push_vote
              (prevote_key s l height round)
              (prevote_for s l hash height round signature)
              n.votes;
      }
  unfolding handle_vote handle_prevote
  handle_vote_alone hash height round signature n above not_banned no_votes verified small =
      rw (receive_alone hash height round signature n above not_banned no_votes verified) (
        one_vote_below height round (prevote_for s l hash height round signature) _
          (bucket-push_vote_empty (prevote_key s l height round) _ n.votes no_votes) small)

  find_own :
      (hash : Text) (height round : ℕ) (signature : Text)
      → find_vote (my_address s) (prevote_for s l hash height round signature ∷ [])
        ≡ some (prevote_for s l hash height round signature)
  unfolding find_vote
  find_own hash height round signature = rw (same_refl (my_address s)) refl

  resume_own :
      (reward : ℤ) (pool : List Transaction) (timestamp : ℕ) (v : Vote) (ts : List Task)
      (n : Node World)
      → n.tasks ≡ own_vote v ∷ ts
      → step s l (task_resumed reward pool timestamp) n
        ≡ handle_vote s l v (record n { tasks = ts })
  unfolding step resume
  resume_own reward pool timestamp v ts n e = ap (λ us. resume s l reward pool timestamp us n) e

  -- A running follower, not banned, starts a round other than round 0 of a height above its own, with
  -- exactly two pending blocks, both proposals of the round, without a prevote of anyone in it, without
  -- waiting calls, with a quorum above one vote, and with a key whose signatures succeed and verify: it
  -- sends a signed prevote for each of the two, and bans itself when it then handles its own two votes.
  pub start_round_bans_self :
      (height round : ℕ) (n : Node World) (reward : ℤ) (pool : List Transaction) (timestamp : ℕ)
      → (t : IsTorn s l height round n)
      → (v w : Vote) × (sign_vote s.crypto s.key_pair
            (ballot s l prevote (some t.hash1) height round)
          ≡ some v)
        × (sign_vote s.crypto s.key_pair (ballot s l prevote (some t.hash2) height round) ≡ some w)
        × (v.block_hash ≡ some t.hash1)
        × (w.block_hash ≡ some t.hash2)
        × (sent (start_round s l height round n).effects ≡ sent n.effects ++ v ∷ w ∷ [])
        × (has_slashed
              (my_address s)
              (run s l
                (task_resumed reward pool timestamp ∷ task_resumed reward pool timestamp ∷ [])
                (start_round s l height round n)).slashed_validators
            ≡ true)
  unfolding run
  start_round_bans_self height round n reward pool timestamp t =
      let v1 = prevote_for s l t.hash1 height round t.signature1 in
      let v2 = prevote_for s l t.hash2 height round t.signature2 in
      let torn = voted s l round v2 (voted s l round v1 (begun s l round n)) in
      let one = record torn { tasks = own_vote v2 ∷ [] } in
      let two = record one { votes = push_vote (prevote_key s l height round) v1 n.votes } in
      let e1 : step s l (task_resumed reward pool timestamp) (start_round s l height round n)
          ≡ two =
        ap (step s l (task_resumed reward pool timestamp)) (start_round_torn s l height round n t)
        ∙ resume_own reward pool timestamp v1 (own_vote v2 ∷ []) torn
            (ap (λ ts. (ts ++ own_vote v1 ∷ []) ++ own_vote v2 ∷ []) t.idle)
        ∙ handle_vote_alone t.hash1 height round t.signature1 one t.above t.not_banned t.no_votes
            t.verified1 t.small in
      let e2 : step s l (task_resumed reward pool timestamp) two
          ≡ handle_vote s l v2 (record two { tasks = [] }) =
        resume_own reward pool timestamp v2 [] two refl in
      (
        v1,
        v2,
        t.signed1,
        t.signed2,
        refl,
        refl,
        rw (start_round_torn s l height round n t) (sent-voted_twice s l round v1 v2 n),
        rw (e1, e2)
            (double_vote_bans s l v2 v1 v2 (record two { tasks = [] }) t.above t.not_banned
              (ap (find_vote (my_address s))
                  (bucket-push_vote_empty (prevote_key s l height round) v1 n.votes t.no_votes)
                ∙ find_own t.hash1 height round t.signature1)
              t.different refl).0,
      )
