-- ===== src/Storage/Bloom.antt =====
-- `computeLogsBloom`.
use bery_bc.Base.{ℕ, suc, zero, ◌%◌, List, [], ◌∷◌, map, replicate, ◌==◌, ◌&&◌, if◌then◌else◌}
use bery_bc.Bytes.{Bytes, Text, to_hex, from_hex}
use bery_bc.Crypto.{Crypto}
use bery_bc.Vm.Executor.{Log}

-- `text.replace('0x', '')`, the first place that has it.
unfoldable pub drop_0x : Text → Text
drop_0x [] = []
drop_0x (x ∷ []) = x ∷ []
drop_0x (x ∷ y ∷ cs) =
    let rest = drop_0x (y ∷ cs) in if (x == b'0') && (y == b'x') then cs else x ∷ rest

-- `bloom[i] = v`
unfoldable pub set_at : ℕ → ℕ → Bytes → Bytes
set_at i v [] = []
set_at zero v (b ∷ bs) = v ∷ bs
set_at (suc i) v (b ∷ bs) = b ∷ set_at i v bs

-- `h[0]`, `h[1]` and `h[2]` modulo the size; where there is no such byte, NaN is no place.
unfoldable pub places : Bytes → List ℕ
places [] = []
places (a ∷ []) = (a % 256) ∷ []
places (a ∷ b ∷ []) = (a % 256) ∷ (b % 256) ∷ []
places (a ∷ b ∷ d ∷ rest) = (a % 256) ∷ (b % 256) ∷ (d % 256) ∷ []

unfoldable pub mark_all : List ℕ → Bytes → Bytes
unfolding set_at
mark_all [] bloom = bloom
mark_all (i ∷ is) bloom = mark_all is (set_at i 255 bloom)

-- The address and the topics of a log.
abbrev pub items : Log → List Text
items l = drop_0x l.address ∷ map drop_0x l.topics

module _ (c : Crypto) where
  unfoldable pub item_places : Text → List ℕ
  unfolding places
  item_places item = places (c.keccak_256 (from_hex item))

  unfoldable pub mark_items : List Text → Bytes → Bytes
  unfolding item_places mark_all
  mark_items [] bloom = bloom
  mark_items (x ∷ xs) bloom = mark_items xs (mark_all (item_places x) bloom)

  unfoldable pub mark_logs : List Log → Bytes → Bytes
  unfolding mark_items
  mark_logs [] bloom = bloom
  mark_logs (l ∷ ls) bloom = mark_logs ls (mark_items (items l) bloom)

  unfoldable pub compute_logs_bloom : List Log → Text
  unfolding mark_logs
  compute_logs_bloom logs = to_hex (mark_logs logs (replicate 256 0))
