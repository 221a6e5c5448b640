-- ===== src/Storage/FilterLaws.antt =====
-- What the filter of `getLogs` lets through, and the logs of receipts as a client is given them.
use bery_bc.Base.{
  ℕ, suc, zero, ◌+◌, ◌≡◌, refl, ◌∙◌, ap, Bool, true, some, List, [], ◌∷◌, ◌++◌, same-eq, same_refl,
  get_elem?, ◌⊎◌, inl, inr, ◌↔◌, if◌then◌else◌, arith, Bool-cases,
}
use bery_bc.Base.Int.{pos}
use bery_bc.Base.Throws.{some-inj}
use bery_bc.Bytes.{Text, to_string}
use bery_bc.Vm.Executor.{Log, Receipt}
use bery_bc.Storage.Database.{StoredLog}
use bery_bc.Storage.Logs.{
  stored_logs, LogFilter, LogAnswer, ox, log_answer, topics_match, address_matches, log_matches,
  answers_of,
}

-- A text that is not empty stands at this position of the log's topics, in any case of letters.
abbrev pub IsAt : (Text → Text) → Text → List Text → ℕ → Type 0
IsAt lower x topics i =
    (y : ℕ) × (ys : Text) × (get_elem? topics i ≡ some (y ∷ ys)) × (lower (y ∷ ys) ≡ lower x)

-- Every topic of the filter that is not null stands at the same position of the log.
abbrev pub AreAt : (Text → Text) → List Text → List Text → Type 0
AreAt lower wanted topics =
    (i x : ℕ) (xs : Text) → get_elem? wanted i ≡ some (x ∷ xs) → IsAt lower (x ∷ xs) topics i

-- The address of the log is the one that the filter has, if it has one, and its topics are there.
abbrev pub IsMatch : (Text → Text) → LogFilter → Log → Type 0
IsMatch lower q l =
    ((q.address ≡ []) ⊎ (lower l.address ≡ lower q.address)) × AreAt lower q.topics l.topics

-- The logs of one receipt that a test lets through, from number `i` on.
abbrev pub answers_in : (Log → Bool) → ℕ → Text → Text → ℕ → List Log → List LogAnswer
answers_in p height block_hash hash i [] = []
answers_in p height block_hash hash i (l ∷ ls) =
    let rest = answers_in p height block_hash hash (i + 1) ls in
    if p l
    then record {
      log = l;
      block_hash = ox ++ block_hash;
      block_number = ox ++ to_string 16 (pos height);
      transaction_hash = ox ++ hash;
      log_index = ox ++ to_string 16 (pos i);
      transaction_index = ox ++ to_string 16 (pos 0);
    }
      ∷ rest
    else rest

-- The logs of all receipts that a test lets through, each receipt's numbered from zero.
abbrev pub answers_for : (Log → Bool) → ℕ → Text → List Receipt → List LogAnswer
answers_for p height block_hash [] = []
answers_for p height block_hash (r ∷ rs) =
    answers_in p height block_hash r.transaction_hash 0 r.logs ++ answers_for p height block_hash rs

module _ (lower : Text → Text) where
  topics_match-AreAt : (ts us : List Text) → topics_match lower ts us ≡ true → AreAt lower ts us
  unfolding topics_match
  topics_match-AreAt [] us h i x xs e = cc
  topics_match-AreAt ([] ∷ ts) [] h zero x xs e = cc
  topics_match-AreAt ([] ∷ ts) [] h (suc i) x xs e = topics_match-AreAt ts [] h i x xs e
  topics_match-AreAt ([] ∷ ts) (u ∷ us) h zero x xs e = cc
  topics_match-AreAt ([] ∷ ts) (u ∷ us) h (suc i) x xs e = topics_match-AreAt ts us h i x xs e
  topics_match-AreAt ((z ∷ zs) ∷ ts) [] h i x xs e = cc
  topics_match-AreAt ((z ∷ zs) ∷ ts) ([] ∷ us) h i x xs e = cc
  topics_match-AreAt ((z ∷ zs) ∷ ts) ((y ∷ ys) ∷ us) h zero x xs e = (
    y,
    ys,
    refl,
    same-eq (lower (y ∷ ys)) (lower (z ∷ zs)) (ground arith) ∙ ap lower (some-inj e),
  )
  topics_match-AreAt ((z ∷ zs) ∷ ts) ((y ∷ ys) ∷ us) h (suc i) x xs e =
      topics_match-AreAt ts us (ground arith) i x xs e

  AreAt-topics_match : (ts us : List Text) → AreAt lower ts us → topics_match lower ts us ≡ true
  unfolding topics_match
  AreAt-topics_match [] us h = refl
  AreAt-topics_match ([] ∷ ts) [] h = AreAt-topics_match ts [] (λ i x xs e. h (suc i) x xs e)
  AreAt-topics_match ([] ∷ ts) (u ∷ us) h = AreAt-topics_match ts us (λ i x xs e. h (suc i) x xs e)
  AreAt-topics_match ((z ∷ zs) ∷ ts) [] h = let (y, ys, e, _) = h zero z zs refl in cc
  AreAt-topics_match ((z ∷ zs) ∷ ts) ([] ∷ us) h = let (y, ys, e, _) = h zero z zs refl in cc
  AreAt-topics_match ((z ∷ zs) ∷ ts) ((y ∷ ys) ∷ us) h =
      let (v, vs, e, equal) = h zero z zs refl in
      let here : lower (y ∷ ys) ≡ lower (z ∷ zs) = ap lower (some-inj e) ∙ equal in
      rw (here, same_refl (lower (z ∷ zs)))
        (AreAt-topics_match ts us (λ i x xs e. h (suc i) x xs e))

  address_matches-eq :
      (wanted address : Text)
      → (address_matches lower wanted address ≡ true)
        ↔ ((wanted ≡ []) ⊎ (lower address ≡ lower wanted))
  address_matches-eq [] address = ((λ h. inl refl), (λ h. refl))
  address_matches-eq (x ∷ xs) address = (
    (λ h. inr (same-eq (lower address) (lower (x ∷ xs)) h)),
    (λ h. elim h [ inl e ↦ cc | inr e ↦ rw (e) (same_refl (lower (x ∷ xs))) ]),
  )

  -- The test of the code is this description.
  pub log_matches-IsMatch :
      (q : LogFilter) (l : Log) → (log_matches lower q l ≡ true) ↔ IsMatch lower q l
  unfolding log_matches
  log_matches-IsMatch q l = (
    (λ h. (
      (address_matches-eq q.address l.address).0 (ground arith),
      topics_match-AreAt q.topics l.topics (ground arith),
    )),
    (λ h.
        rw
          ((address_matches-eq q.address l.address).1 h.0, AreAt-topics_match q.topics l.topics h.1)
          refl),
  )

  pub answers_of-append :
      (q : LogFilter) (ks ls : List StoredLog)
      → answers_of lower q (ks ++ ls) ≡ answers_of lower q ks ++ answers_of lower q ls
  unfolding answers_of
  answers_of-append q [] ls = refl
  answers_of-append q (k ∷ ks) ls = elim (Bool-cases (log_matches lower q k.log)) [
    | inl h ↦ rw (h) (ap (λ zs. log_answer k ∷ zs) (answers_of-append q ks ls))
    | inr h ↦ rw (h) (answers_of-append q ks ls)
  ]

  pub answers_of-stored_logs :
      (q : LogFilter) (height : ℕ) (block_hash hash : Text) (i : ℕ) (ls : List Log)
      → answers_of lower q (stored_logs i hash height block_hash ls)
        ≡ answers_in (log_matches lower q) height block_hash hash i ls
  unfolding answers_of stored_logs log_answer
  answers_of-stored_logs q height block_hash hash i [] = refl
  answers_of-stored_logs q height block_hash hash i (l ∷ ls) =
      rw (answers_of-stored_logs q height block_hash hash (i + 1) ls) refl
