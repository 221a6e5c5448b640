-- ===== src/Tests/Consensus.antt =====
-- Tests of the consensus, with a ledger that never fails.
use bery_bc.Base.{
  ℕ, ◌≡◌, ◌+◌, ◌*◌, ◌<◌, ◌≤◌, refl, true, false, none, some, List, [], ◌∷◌, same, arith,
}
use bery_bc.Base.Int.{pos}
use bery_bc.Bytes.{Text}
use bery_bc.Crypto.Toy.{toy, toy-IsSound}
use bery_bc.Consensus.Node.{
  Node, Ledger, Vote, precommit, Validator, propose, has_slashed, find_vote, bucket, get_quorum,
}
use bery_bc.Consensus.Round.{Setup, with_power}
use bery_bc.Consensus.Quorum.{handle_vote, check_precommits}
use bery_bc.Consensus.System.{Event, timer_fired, vote_received, task_resumed, run}
use bery_bc.Consensus.Ballots.{IsBallots}
use bery_bc.Consensus.Sync.{sync_answer, sync_takes_nothing}
use bery_bc.Tests.Core.{own_header, signed_header}
use bery_bc.Consensus.Runs.{run-IsBallots}
use bery_bc.Consensus.Slashing.{double_vote_bans}
use bery_bc.Consensus.Majority.{supporters, check_precommits_below_quorum}
use bery_bc.Tests.Data.{key}

-- The number of blocks.
abbrev pub toy_ledger : Ledger
toy_ledger = record {
  World = ℕ;
  root = λ w. w ∷ [];
  checkpoint = λ w. w;
  commit = λ w. some (w + 1);
  revert = λ w. some w;
  execute = λ txs w. (w, some (record { valid_txs = txs; receipts = []; total_fees = pos 0 }));
  credit = λ a x w. some w;
  stakers = λ w. some [];
  stake_of = λ w a. pos 0;
}

abbrev pub setup : Setup
setup = record { crypto = toy; key_pair = key; config_validators = []; fee_permille = 500 }

abbrev pub four : List Validator
four = with_power (1 ∷ []) ∷ with_power (2 ∷ []) ∷ with_power (3 ∷ []) ∷ with_power (4 ∷ []) ∷ []

abbrev pub vote_of : Text → Text → Vote
vote_of validator hash = record {
  height = 6;
  round = 0;
  type = precommit;
  block_hash = some hash;
  validator = validator;
  signature = 9 ∷ [];
}

-- At height 5, with two precommits for one block.
abbrev pub node : Node ℕ
node = record {
  height = 5;
  round = 0;
  step = propose;
  locked_block = none;
  last_commit_hash = [];
  stopped = false;
  votes =
      (
        record { height = 6; round = 0; type = precommit },
        vote_of (1 ∷ []) (8 ∷ []) ∷ vote_of (2 ∷ []) (8 ∷ []) ∷ [],
      )
      ∷ [];
  pending_blocks = [];
  slashed_validators = [];
  validators = four;
  world = 0;
  effects = [];
  tasks = [];
}

abbrev events : List Event
events = vote_received (vote_of (3 ∷ []) (8 ∷ [])) ∷ timer_fired ∷ task_resumed (pos 1) [] 0 ∷ []

abbrev fresh_node : Node ℕ
fresh_node = record node { votes = [] }

fresh_node-IsBallots : IsBallots toy fresh_node.votes
unfolding IsBallots
fresh_node-IsBallots = tt

run-IsBallots_example : IsBallots toy (run setup toy_ledger events fresh_node).votes
run-IsBallots_example = run-IsBallots setup toy_ledger events fresh_node fresh_node-IsBallots

double_vote_bans_example :
    (has_slashed
        (1 ∷ [])
        (handle_vote setup toy_ledger (vote_of (1 ∷ []) (7 ∷ [])) node).slashed_validators
      ≡ true)
    × ((handle_vote setup toy_ledger (vote_of (1 ∷ []) (7 ∷ [])) node).votes ≡ node.votes)
    × (handle_vote setup toy_ledger
          (vote_of (1 ∷ []) (8 ∷ []))
          (handle_vote setup toy_ledger (vote_of (1 ∷ []) (7 ∷ [])) node)
        ≡ handle_vote setup toy_ledger (vote_of (1 ∷ []) (7 ∷ [])) node)
unfolding has_slashed find_vote bucket same
double_vote_bans_example =
    double_vote_bans setup toy_ledger (vote_of (1 ∷ []) (7 ∷ [])) (vote_of (1 ∷ []) (8 ∷ []))
      (vote_of (1 ∷ []) (8 ∷ [])) node refl refl refl refl refl

two_supporters : (h : Text) (a b : Vote) → 10 * supporters h (a ∷ b ∷ []) ≤ 20
two_supporters h a b = ground arith

below_quorum :
    (h : Text)
    → 10 * supporters h (bucket (record { height = 6; round = 0; type = precommit }) node.votes)
      < get_quorum four
unfolding bucket get_quorum
below_quorum h =
    omega (arith, two_supporters h (vote_of (1 ∷ []) (8 ∷ [])) (vote_of (2 ∷ []) (8 ∷ [])))

check_precommits_below_quorum_example : check_precommits setup toy_ledger 6 0 node ≡ node
check_precommits_below_quorum_example =
    check_precommits_below_quorum setup toy_ledger 6 0 node below_quorum

-- Worlds with their checkpoints; every execution counts one.
abbrev stack_ledger : Ledger
stack_ledger = record {
  World = ℕ × List ℕ;
  root = λ w. w.0 ∷ [];
  checkpoint = λ w. (w.0, w.0 ∷ w.1);
  commit = λ w. some w;
  revert = λ w. elim w.1 [ [] ↦ none | v ∷ vs ↦ some (v, vs) ];
  execute = λ txs w. ((w.0 + 1, w.1), none);
  credit = λ a x w. some w;
  stakers = λ w. none;
  stake_of = λ w a. pos 0;
}

sync_takes_nothing_example :
    sync_answer setup toy_ledger
      ((record { header = signed_header.0; transactions = [] }) ∷ [])
      node
    ≡ (node, false)
sync_takes_nothing_example =
    sync_takes_nothing setup toy_ledger toy-IsSound key own_header signed_header.0 [] [] node
      signed_header.1
