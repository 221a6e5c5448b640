-- ===== src/Storage/BloomLaws.antt =====
-- The bloom of a block misses no log.
use bery_bc.Base.{
  ℕ, suc, zero, ◌≡◌, refl, ◌∙◌, some, List, [], ◌∷◌, length, replicate, get_elem?, ◌<◌, arith,
  length-replicate, ◌%◌, map,
}
use bery_bc.Base.Throws.{some-inj}
use bery_bc.Bytes.{Bytes, Text, to_hex, from_hex}
use bery_bc.Crypto.{Crypto}
use bery_bc.Vm.Executor.{Log}
use bery_bc.Storage.Bloom.{
  drop_0x, set_at, places, mark_all, items, item_places, mark_items, mark_logs, compute_logs_bloom,
}

-- All these places are marked.
abbrev pub AllMarked : List ℕ → Bytes → Type 0
AllMarked [] bloom = Unit {0}
AllMarked (i ∷ is) bloom = (get_elem? bloom i ≡ some 255) × AllMarked is bloom

-- A mark stays.
set_at-keeps :
    (i j : ℕ) (bloom : Bytes)
    → get_elem? bloom j ≡ some 255
    → get_elem? (set_at i 255 bloom) j ≡ some 255
unfolding set_at
set_at-keeps i j [] h = h
set_at-keeps zero zero (b ∷ bs) h = refl
set_at-keeps zero (suc j) (b ∷ bs) h = h
set_at-keeps (suc i) zero (b ∷ bs) h = h
set_at-keeps (suc i) (suc j) (b ∷ bs) h = set_at-keeps i j bs h

set_at-marks :
    (i : ℕ) (bloom : Bytes) → i < length bloom → get_elem? (set_at i 255 bloom) i ≡ some 255
unfolding set_at
set_at-marks zero [] h = absurd (omega arith)
set_at-marks (suc i) [] h = absurd (omega arith)
set_at-marks zero (b ∷ bs) h = refl
set_at-marks (suc i) (b ∷ bs) h = set_at-marks i bs (omega arith)

length-set_at : (i v : ℕ) (bloom : Bytes) → length (set_at i v bloom) ≡ length bloom
unfolding set_at
length-set_at i v [] = refl
length-set_at zero v (b ∷ bs) = refl
length-set_at (suc i) v (b ∷ bs) = omega (arith, length-set_at i v bs)

length-mark_all : (is : List ℕ) (bloom : Bytes) → length (mark_all is bloom) ≡ length bloom
unfolding mark_all
length-mark_all [] bloom = refl
length-mark_all (i ∷ is) bloom = length-mark_all is (set_at i 255 bloom) ∙ length-set_at i 255 bloom

mark_all-keeps :
    (is : List ℕ) (j : ℕ) (bloom : Bytes)
    → get_elem? bloom j ≡ some 255
    → get_elem? (mark_all is bloom) j ≡ some 255
unfolding mark_all
mark_all-keeps [] j bloom h = h
mark_all-keeps (i ∷ is) j bloom h =
    mark_all-keeps is j (set_at i 255 bloom) (set_at-keeps i j bloom h)

-- Places of a bloom of 256 bytes.
abbrev AllBelow : List ℕ → Type 0
AllBelow [] = Unit {0}
AllBelow (i ∷ is) = (i < 256) × AllBelow is

places-AllBelow : (h : Bytes) → AllBelow (places h)
unfolding places
places-AllBelow [] = tt
places-AllBelow (a ∷ []) = (omega arith, tt)
places-AllBelow (a ∷ b ∷ []) = (omega arith, (omega arith, tt))
places-AllBelow (a ∷ b ∷ d ∷ rest) = (omega arith, (omega arith, (omega arith, tt)))

mark_all-AllMarked :
    (is : List ℕ) (bloom : Bytes)
    → AllBelow is
    → length bloom ≡ 256
    → AllMarked is (mark_all is bloom)
unfolding mark_all
mark_all-AllMarked [] bloom b h = tt
mark_all-AllMarked (i ∷ is) bloom (low, b) h = (
  mark_all-keeps is i (set_at i 255 bloom) (set_at-marks i bloom (omega (arith, h))),
  mark_all-AllMarked is (set_at i 255 bloom) b (length-set_at i 255 bloom ∙ h),
)

mark_all-AllMarked_keeps :
    (is js : List ℕ) (bloom : Bytes) → AllMarked js bloom → AllMarked js (mark_all is bloom)
mark_all-AllMarked_keeps is [] bloom m = tt
mark_all-AllMarked_keeps is (j ∷ js) bloom (h, m) =
    (mark_all-keeps is j bloom h, mark_all-AllMarked_keeps is js bloom m)

module _ (c : Crypto) where
  -- The places of these items are marked.
  abbrev pub AllItems : List Text → Bytes → Type 0
  AllItems [] bloom = Unit {0}
  AllItems (x ∷ xs) bloom = AllMarked (item_places c x) bloom × AllItems xs bloom

  -- A bloom that has the places of the items of these logs.
  abbrev AllLogs : List Log → Bytes → Type 0
  AllLogs [] bloom = Unit {0}
  AllLogs (l ∷ ls) bloom = AllItems (items l) bloom × AllLogs ls bloom

  -- The first three bytes of the hash of a text in hexadecimal, each modulo 256, are marked places.
  abbrev pub IsMarked : Bytes → Text → Type 0
  IsMarked bloom x =
      (i a : ℕ)
      → i < 3
      → get_elem? (c.keccak_256 (from_hex (drop_0x x))) i ≡ some a
      → get_elem? bloom (a % 256) ≡ some 255

  abbrev pub AreMarked : Bytes → List Text → Type 0
  AreMarked bloom [] = Unit {0}
  AreMarked bloom (x ∷ xs) = IsMarked bloom x × AreMarked bloom xs

  -- The address and every topic of these logs are marked.
  abbrev pub Covers : List Log → Bytes → Type 0
  Covers [] bloom = Unit {0}
  Covers (l ∷ ls) bloom = IsMarked bloom l.address × AreMarked bloom l.topics × Covers ls bloom

  place_marked :
      (h bloom : Bytes)
      → AllMarked (places h) bloom
      → (i a : ℕ) → i < 3
      → get_elem? h i ≡ some a
      → get_elem? bloom (a % 256) ≡ some 255
  unfolding places
  place_marked [] bloom m i a small e = cc
  place_marked (x ∷ []) bloom m zero a small e = rw (← some-inj e) m.0
  place_marked (x ∷ []) bloom m (suc i) a small e = cc
  place_marked (x ∷ y ∷ []) bloom m zero a small e = rw (← some-inj e) m.0
  place_marked (x ∷ y ∷ []) bloom m (suc zero) a small e = rw (← some-inj e) m.1.0
  place_marked (x ∷ y ∷ []) bloom m (suc (suc i)) a small e = cc
  place_marked (x ∷ y ∷ z ∷ h) bloom m zero a small e = rw (← some-inj e) m.0
  place_marked (x ∷ y ∷ z ∷ h) bloom m (suc zero) a small e = rw (← some-inj e) m.1.0
  place_marked (x ∷ y ∷ z ∷ h) bloom m (suc (suc zero)) a small e = rw (← some-inj e) m.1.1.0
  place_marked (x ∷ y ∷ z ∷ h) bloom m (suc (suc (suc i))) a small e = absurd (omega (arith, small))

  topics-AreMarked :
      (ts : List Text) (bloom : Bytes) → AllItems (map drop_0x ts) bloom → AreMarked bloom ts
  unfolding item_places
  topics-AreMarked [] bloom m = tt
  topics-AreMarked (t ∷ ts) bloom (m, ms) = (place_marked _ bloom m, topics-AreMarked ts bloom ms)

  AllLogs-Covers : (ls : List Log) (bloom : Bytes) → AllLogs ls bloom → Covers ls bloom
  unfolding item_places
  AllLogs-Covers [] bloom m = tt
  AllLogs-Covers (l ∷ ls) bloom ((m, ms), rest) =
      (place_marked _ bloom m, topics-AreMarked l.topics bloom ms, AllLogs-Covers ls bloom rest)

  length-mark_items :
      (xs : List Text) (bloom : Bytes) → length (mark_items c xs bloom) ≡ length bloom
  unfolding mark_items
  length-mark_items [] bloom = refl
  length-mark_items (x ∷ xs) bloom =
      length-mark_items xs _ ∙ length-mark_all (item_places c x) bloom

  mark_items-keeps :
      (xs : List Text) (js : List ℕ) (bloom : Bytes)
      → AllMarked js bloom
      → AllMarked js (mark_items c xs bloom)
  unfolding mark_items
  mark_items-keeps [] js bloom m = m
  mark_items-keeps (x ∷ xs) js bloom m =
      mark_items-keeps xs js _ (mark_all-AllMarked_keeps (item_places c x) js bloom m)

  mark_items-AllItems :
      (xs : List Text) (bloom : Bytes) → length bloom ≡ 256 → AllItems xs (mark_items c xs bloom)
  unfolding mark_items item_places
  mark_items-AllItems [] bloom h = tt
  mark_items-AllItems (x ∷ xs) bloom h = (
    mark_items-keeps xs (item_places c x) _ (
        mark_all-AllMarked (item_places c x) bloom (places-AllBelow (c.keccak_256 (from_hex x))) h),
    mark_items-AllItems xs _ (length-mark_all (item_places c x) bloom ∙ h),
  )

  mark_logs-keeps_places :
      (ls : List Log) (js : List ℕ) (bloom : Bytes)
      → AllMarked js bloom
      → AllMarked js (mark_logs c ls bloom)
  unfolding mark_logs
  mark_logs-keeps_places [] js bloom m = m
  mark_logs-keeps_places (l ∷ ls) js bloom m =
      mark_logs-keeps_places ls js _ (mark_items-keeps (items l) js bloom m)

  mark_logs-keeps :
      (ls : List Log) (xs : List Text) (bloom : Bytes)
      → AllItems xs bloom
      → AllItems xs (mark_logs c ls bloom)
  mark_logs-keeps ls [] bloom m = tt
  mark_logs-keeps ls (x ∷ xs) bloom (h, m) =
      (mark_logs-keeps_places ls (item_places c x) bloom h, mark_logs-keeps ls xs bloom m)

  mark_logs-AllLogs :
      (ls : List Log) (bloom : Bytes) → length bloom ≡ 256 → AllLogs ls (mark_logs c ls bloom)
  unfolding mark_logs
  mark_logs-AllLogs [] bloom h = tt
  mark_logs-AllLogs (l ∷ ls) bloom h = (
    mark_logs-keeps ls (items l) _ (mark_items-AllItems (items l) bloom h),
    mark_logs-AllLogs ls _ (length-mark_items (items l) bloom ∙ h),
  )

  -- The bloom of a block's logs is the hexadecimal text of bytes in which the address and each topic of
  -- every log are marked: at each of the first three bytes of its hash, modulo 256, the byte is 255.
  pub compute_logs_bloom-Covers :
      (ls : List Log) → (bloom : Bytes) × (compute_logs_bloom c ls ≡ to_hex bloom) × Covers ls bloom
  unfolding compute_logs_bloom
  compute_logs_bloom-Covers ls = (
    mark_logs c ls (replicate 256 0),
    refl,
    AllLogs-Covers ls _ (mark_logs-AllLogs ls (replicate 256 0) (length-replicate {A = ℕ} 256 0)),
  )
