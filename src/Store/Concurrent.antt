-- ===== src/Store/Concurrent.antt =====
-- scholight/store/concurrent.py: how items are sharded over workers, and what a chunk worker writes.
-- Papers are numbered; the text of a paper's identifier matters only in the filter of a delete.
pub mod Shards
pub mod LastWrite
mod Tests
use scholight.Prelude.{
  ℕ, zero, suc, ◌+◌, ◌/◌, ◌≡◌, ◌≤◌, Bool, true, false, not, Option, none, some, List, [], ◌∷◌, ◌++◌,
  if◌then◌else◌, ◌==◌, length, contains, map, min, max,
}
use scholight.Prelude.Text.{Text}
use scholight.Store.Slices.{slices, batched}

-- `n = min(concurrency, max(1, len(items) // 100))`
abbrev pub worker_goal : ℕ → ℕ → ℕ
worker_goal concurrency count = min concurrency (max 1 (count / 100))

-- `shard_size = max(1, len(items) // n)`, behind the division's own check.
abbrev pub shard_size : ℕ → ℕ → ℕ
shard_size n count = max 1 (count / n)

-- The shards of `_run_workers`; `none` is the `ZeroDivisionError` of a concurrency of 0.
unfoldable pub shards {ℓ} : {A : Type ℓ} → ℕ → List A → Option (List (List A))
shards concurrency [] = some []
shards concurrency (x ∷ xs) =
    let items = x ∷ xs in
    let n = worker_goal concurrency (length items) in
    if n == 0 then none else some (slices (shard_size n (length items)) items)

pub record Chunk : Type 0 where
  pub chunk_id : ℕ
  pub arxiv_id : ℕ

-- `escape_sql` of scholight/store/client.py: 39 is the quote, 92 the backslash.
unfoldable pub escape_sql : Text → Text
escape_sql [] = []
escape_sql (c ∷ s) = let rest = escape_sql s in if c == 39 then 92 ∷ 39 ∷ rest else c ∷ rest

-- The collection `arxiv_chunks` of the vector database, a service outside the repository: the
-- identifiers that papers have, what a client reads of the collection, and its two writes, each of
-- which may fail. A delete is given the filter `arxiv_id in ['...', '...']` by the texts that stand
-- between its quotes.
pub record Collection : Type 1 where
  pub State : Type 0
  pub text_of : ℕ → Text
  pub rows : State → List Chunk
  pub delete : List Text → State → Option State
  pub insert : List Chunk → State → Option State

abbrev pub keep : (Chunk → Bool) → List Chunk → List Chunk
keep p [] = []
keep p (c ∷ cs) = if p c then c ∷ keep p cs else keep p cs

-- A delete removes the rows whose paper is listed, where quoted texts without a quote and a backslash
-- stand for themselves, as the identifiers of arXiv do, which have neither; an insert adds its rows.
pub record Documented (db : Collection) : Type 0 where
  pub plain : (i : ℕ) → (contains 39 (db.text_of i) ≡ false) × (contains 92 (db.text_of i) ≡ false)
  pub deletes :
      (ids : List ℕ) (s : db.State) {t : db.State}
      → db.delete (map db.text_of ids) s ≡ some t
      → db.rows t ≡ keep (λ c. not (contains c.arxiv_id ids)) (db.rows s)
  pub inserts :
      (cs : List Chunk) (s : db.State) {t : db.State}
      → db.insert cs s ≡ some t
      → db.rows t ≡ db.rows s ++ cs

-- `{c["arxiv_id"] for c in batch}`; only its members matter.
abbrev pub paper_ids : List Chunk → List ℕ
paper_ids [] = []
paper_ids (c ∷ cs) = c.arxiv_id ∷ paper_ids cs

-- `StoreError`, or the number of rows inserted.
pub data Outcome : Type 0 where
  inserted : ℕ → Outcome
  store_error : Outcome

module _ (db : Collection) where
  -- The quoted texts of `id_list`.
  unfoldable pub id_list : List ℕ → List Text
  unfolding escape_sql
  id_list [] = []
  id_list (i ∷ ids) = escape_sql (db.text_of i) ∷ id_list ids

  -- `if paper_ids: client.delete(...)`
  unfoldable pub delete_listed : List ℕ → db.State → Option db.State
  unfolding id_list
  delete_listed [] s = some s
  delete_listed (i ∷ ids) s = db.delete (id_list (i ∷ ids)) s

  -- One round of the loop of `_worker_insert_chunks`: `false` is a `MilvusException`, and what was
  -- written before it stays written.
  unfoldable pub write_batch : List Chunk → db.State → Bool × db.State
  unfolding delete_listed
  write_batch batch s = elim (delete_listed (paper_ids batch) s) [
    | none ↦ (false, s)
    | some t ↦ elim (db.insert batch t) [ none ↦ (false, t) | some u ↦ (true, u) ]
  ]

  unfoldable pub write_batches : ℕ → List (List Chunk) → db.State → Outcome × db.State
  write_batches count [] s = (inserted count, s)
  write_batches count (b ∷ bs) s =
      let (written, t) = write_batch b s in
      let rest = write_batches (count + length b) bs t in if written then rest else (store_error, t)

  -- `_worker_insert_chunks`
  unfoldable pub worker_insert_chunks : List Chunk → db.State → Outcome × db.State
  unfolding write_batches write_batch
  worker_insert_chunks chunks s = write_batches 0 (batched chunks) s
