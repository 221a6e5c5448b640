-- ===== src/State/Manager/Toy.antt =====
-- A store on which the hypotheses on the trie hold: a map and the maps at its checkpoints.
use bery_bc.Base.{◌≡◌, refl, Option, none, some, List, [], ◌∷◌, length, if◌then◌else◌, ◌==◌, arith}
use bery_bc.Base.TextMap.{TextMap, lookup, insert, lookup-insert_self, lookup-insert_ne}
use bery_bc.Bytes.{Bytes}
use bery_bc.State.Manager.Defs.{Trie, IsLawful}

abbrev pub ToyDb : Type 0
ToyDb = TextMap Bytes × List (TextMap Bytes)

-- An empty value stands for none.
abbrev pub present : Option Bytes → Option Bytes
present none = none
present (some []) = none
present (some (x ∷ xs)) = some (x ∷ xs)

abbrev go_back : List (TextMap Bytes) → Option ToyDb
go_back [] = none
go_back (m ∷ ms) = some (m, ms)

abbrev pub toy_trie : Trie
toy_trie = record {
  Db = ToyDb;
  get = λ d k. present (lookup k d.0);
  put = λ k v d. (insert k v d.0, d.1);
  root = λ d. 0 ∷ [];
  at_root = λ r d. d;
  checkpoint = λ d. (d.0, d.0 ∷ d.1);
  commit = λ d. elim d.1 [ [] ↦ none | m ∷ ms ↦ some (d.0, ms) ];
  revert = λ d. go_back d.1;
  raw_get = λ d k. present (lookup k d.0);
  raw_put = λ k v d. (insert k v d.0, d.1);
  storage_get = λ d r k. none;
  storage_put = λ r k v d. (d, v);
  storage_dump = λ d r. [];
}

pub present-some : (v : Bytes) → present (some v) ≡ (if length v == 0 then none else some v)
present-some [] = refl
present-some (x ∷ xs) = ground arith

pub toy_trie-IsLawful : IsLawful toy_trie
toy_trie-IsLawful = record {
  get-put_self = λ k v d. rw (lookup-insert_self k v d.0) (present-some v);
  get-put_ne = λ j k v d h. rw (lookup-insert_ne j k v d.0 h) refl;
  revert-checkpoint = λ d. refl;
  revert-put = λ k v d. refl;
}
