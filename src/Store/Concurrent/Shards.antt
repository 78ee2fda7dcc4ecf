-- ===== src/Store/Concurrent/Shards.antt =====
-- How `_run_workers` shards its items.
use native.Mathlib.Nat.{mod-add-div, mod-lt}
use scholight.Prelude.{
  ℕ, zero, suc, ◌+◌, ◌*◌, ◌/◌, ◌%◌, ◌≡◌, ◌≤◌, ◌<◌, refl, ◌∙◌, true, some, List, [], ◌∷◌, ◌++◌,
  if◌then◌else◌, ◌==◌, length, contains, min, arith, ==_refl, All, take, length-append,
}
use scholight.Store.Slices.{slices}
use scholight.Store.Slices.Laws.{join, join-slices, slices_bounded, length-slices}
use scholight.Store.Slices.Full.{slices_more}
use scholight.Store.Concurrent.{Chunk, worker_goal, shard_size, shards, paper_ids}

module _ {ℓ} {A : Type ℓ} where
  shards_parts :
      (concurrency : ℕ) (items : List A) {ss : List (List A)}
      → 0 < length items
      → shards concurrency items ≡ some ss
      → (0 < worker_goal concurrency (length items))
        × (ss ≡ slices (shard_size (worker_goal concurrency (length items)) (length items)) items)
  unfolding shards
  shards_parts concurrency [] pos h = absurd (omega arith)
  shards_parts concurrency (x ∷ xs) pos h = ground arith

  -- The shards of a list, one after another, are the list: each item goes to exactly one worker and
  -- the order within a shard is kept. No shard is empty or longer than the shard size.
  pub shards_partition :
      (concurrency : ℕ) (items : List A) {ss : List (List A)}
      → shards concurrency items ≡ some ss
      → let size = shard_size (worker_goal concurrency (length items)) (length items) in
        (join ss ≡ items) × All (λ s. (0 < length s) × (length s ≤ size)) ss
  unfolding shards
  shards_partition concurrency [] {ss} h = let e : [] ≡ ss = cc in rw (← e) (refl, tt)
  shards_partition concurrency (x ∷ xs) {ss} h =
      let (pos, e) = shards_parts concurrency (x ∷ xs) (omega arith) h in
      let size : ℕ = shard_size (worker_goal concurrency (length (x ∷ xs))) (length (x ∷ xs)) in
      rw e (join-slices size (x ∷ xs) (omega arith), slices_bounded size (x ∷ xs) (omega arith))

lt_of_mul : (a b q : ℕ) → a * q < b * q → a < b
lt_of_mul a b q h = grind arith

quotient_large : (n q r : ℕ) → r < n → 100 * n ≤ r + n * q → 100 ≤ q
quotient_large n q r small enough = lt_of_mul 99 q n (omega arith)

count_exact :
    (k n q r : ℕ)
    → r < n
    → n ≤ 100
    → 100 ≤ q
    → (r + n * q ≤ k * q) × (k * q < r + n * q + q)
    → k ≡ (if r == 0 then n else suc n)
count_exact k n q zero small le large (enough, tight) =
    let below = lt_of_mul k (suc n) q (omega arith) in
    let above = lt_of_mul n (suc k) q (omega arith) in omega arith
count_exact k n q (suc r) small le large (enough, tight) =
    let below = lt_of_mul k (suc (suc n)) q (omega arith) in
    let above = lt_of_mul n k q (omega arith) in ground (arith, below, above)

-- With a concurrency of at most 100 and at least 100 items, `_run_workers` starts as many workers as
-- its goal `n`, the smaller of the concurrency and a hundredth of the items rounded down, if `n`
-- divides the number of items, and one more than `n` if it does not.
pub shard_count {ℓ} :
    {A : Type ℓ} (concurrency : ℕ) (items : List A) {ss : List (List A)}
    → concurrency ≤ 100
    → 100 ≤ length items
    → shards concurrency items ≡ some ss
    → let n = min concurrency (length items / 100) in
      length ss ≡ (if length items % n == 0 then n else suc n)
shard_count concurrency items {ss} le enough h =
    let count : ℕ = length items in
    let (pos, e) = shards_parts concurrency items (omega arith) h in
    let n : ℕ = min concurrency (count / 100) in
    let goal : worker_goal concurrency count ≡ n = omega arith in
    let small : count % n < n = mod-lt count (omega arith) in
    let parts : count % n + n * (count / n) ≡ count = mod-add-div count n in
    let large : 100 ≤ count / n =
      quotient_large n (count / n) (count % n) small (rw parts (omega arith)) in
    let size : shard_size (worker_goal concurrency count) count ≡ count / n =
      rw goal (omega arith) in
    count_exact (length ss) n (count / n) (count % n) small (omega arith) large
      (rw (parts, e, size) (length-slices (count / n) items (omega arith) (omega arith)))

-- Chunks are sharded by position, so one paper can go to two workers: where two neighbours of the
-- same paper stand on either side of the first shard's end, both the first and the second shard
-- have chunks of that paper.
pub shards_share_paper :
    (concurrency : ℕ) (before after : List Chunk) (a b : Chunk) {ss : List (List Chunk)}
    → let items = (before ++ a ∷ []) ++ b ∷ after in
      suc (length before) ≡ shard_size (worker_goal concurrency (length items)) (length items)
      → a.arxiv_id ≡ b.arxiv_id
      → shards concurrency items ≡ some ss
      → (first : List Chunk) × (second : List Chunk) × (rest : List (List Chunk)) × (ss
          ≡ first ∷ second ∷ rest)
        × (contains a.arxiv_id (paper_ids first) ≡ true)
        × (contains a.arxiv_id (paper_ids second) ≡ true)
shards_share_paper concurrency before after a b {ss} full same h =
    let xs : List Chunk = before ++ a ∷ [] in
    let items : List Chunk = xs ++ b ∷ after in
    let some_items : 0 < length items = omega (arith, length-append {0} xs (b ∷ after)) in
    let (pos, e) = shards_parts concurrency items some_items h in
    let size : ℕ = shard_size (worker_goal concurrency (length items)) (length items) in
    let whole : length xs ≡ size = omega (arith, length-append {0} before (a ∷ []), full) in
    let (rest, cut) = slices_more size xs (b ∷ after) whole (omega arith) (omega arith) in
    (xs, take size (b ∷ after), rest, e ∙ cut, listed_last before, listed_first size (omega arith))
  where
    listed_last : (cs : List Chunk) → contains a.arxiv_id (paper_ids (cs ++ a ∷ [])) ≡ true
    listed_last [] = rw (==_refl a.arxiv_id)
    listed_last (c ∷ cs) = ground (arith, listed_last cs)

    listed_first : (k : ℕ) → 0 < k → contains a.arxiv_id (paper_ids (take k (b ∷ after))) ≡ true
    listed_first zero h = absurd (omega arith)
    listed_first (suc k) h = rw (same, ==_refl b.arxiv_id)
