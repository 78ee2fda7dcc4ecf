-- ===== src/Store/Concurrent/Tests.antt =====
-- Small uploads, with a collection that keeps its rows in a list.
use scholight.Prelude.{
  ℕ, zero, suc, ◌/◌, ◌%◌, ◌≡◌, ◌≤◌, ◌<◌, refl, ◌∙◌, ap, true, false, not, some, List, [], ◌∷◌, ◌++◌,
  if◌then◌else◌, ◌==◌, length, map, contains, min, arith, replicate, All,
}
use scholight.Prelude.Text.{Text, codes}
use scholight.Store.Slices.{slices, batched, range_from}
use scholight.Store.Slices.Laws.{join}
use scholight.Store.Concurrent.{
  Chunk, Collection, Documented, keep, escape_sql, paper_ids, inserted, delete_listed,
  worker_insert_chunks, shards, shard_size, worker_goal,
}
use scholight.Store.Concurrent.Shards.{shards_partition, shard_count, shards_share_paper}
use scholight.Store.Concurrent.LastWrite.{
  rows_of, last_write, worker_last_write, crossing_paper_loses,
}

-- Identifiers that are told apart by their length.
abbrev unary : ℕ → Text
unary i = replicate i 97

unary-plain : (i : ℕ) → (contains 39 (unary i) ≡ false) × (contains 92 (unary i) ≡ false)
unary-plain zero = (refl, refl)
unary-plain (suc i) = unary-plain i

length-unary : (i : ℕ) → length (unary i) ≡ i
length-unary zero = refl
length-unary (suc i) = ap suc (length-unary i)

lengths : (ids : List ℕ) → map length (map unary ids) ≡ ids
lengths [] = refl
lengths (i ∷ ids) = rw (length-unary i, lengths ids) refl

abbrev rows_in_list : Collection
rows_in_list = record {
  State = List Chunk;
  text_of = unary;
  rows = λ s. s;
  delete = λ texts s. some (keep (λ c. not (contains c.arxiv_id (map length texts))) s);
  insert = λ cs s. some (s ++ cs);
}

rows_in_list-Documented : Documented rows_in_list
rows_in_list-Documented = record {
  plain = unary-plain;
  deletes = λ ids s {t} e.
      let e' : t ≡ keep (λ c. not (contains c.arxiv_id (map length (map unary ids)))) s = cc in
      e' ∙ ap (λ l. keep (λ c. not (contains c.arxiv_id l)) s) (lengths ids);
  inserts = λ cs s {t} e. let e' : t ≡ s ++ cs = cc in e';
}

escape_runs : escape_sql (codes "o'x") ≡ codes "o\\'x"
unfolding escape_sql
escape_runs = refl

abbrev chunk : ℕ → ℕ → Chunk
chunk i p = record { chunk_id = i; arxiv_id = p }

abbrev upload : List Chunk
upload = chunk 1 7 ∷ chunk 2 7 ∷ chunk 3 8 ∷ []

abbrev stored : List Chunk
stored = chunk 10 7 ∷ chunk 11 9 ∷ []

upload_runs :
    worker_insert_chunks rows_in_list upload stored
    ≡ (inserted 3, chunk 11 9 ∷ chunk 1 7 ∷ chunk 2 7 ∷ chunk 3 8 ∷ [])
unfolding worker_insert_chunks batched delete_listed range_from
upload_runs = refl

worker_last_write_example :
    (◌≡◌ {A = ℕ} 3 (length upload))
    × ((p : ℕ)
        → rows_of p (chunk 11 9 ∷ chunk 1 7 ∷ chunk 2 7 ∷ chunk 3 8 ∷ [])
          ≡ last_write p (rows_of p stored) (batched upload))
worker_last_write_example =
    worker_last_write rows_in_list rows_in_list-Documented upload 3 stored
      (chunk 11 9 ∷ chunk 1 7 ∷ chunk 2 7 ∷ chunk 3 8 ∷ []) upload_runs

-- A thousand chunks of paper 7 and one more.
abbrev thousand : List Chunk
thousand = replicate 1000 (chunk 1 7)

crossing_paper_loses_example : rows_of 7 (chunk 2 7 ∷ []) ≡ rows_of 7 (chunk 2 7 ∷ [])
unfolding worker_insert_chunks batched delete_listed range_from
crossing_paper_loses_example =
    crossing_paper_loses rows_in_list rows_in_list-Documented 7 thousand (chunk 2 7 ∷ []) 1001 []
      (chunk 2 7 ∷ []) refl (omega arith) refl refl

shards_partition_example :
    (join (upload ∷ []) ≡ upload)
    × All
        (λ (s : List Chunk).
          (0 < length s) × (length s ≤ shard_size (worker_goal 8 (length upload)) (length upload)))
        (upload ∷ [])
unfolding shards slices range_from
shards_partition_example = shards_partition 8 upload refl

abbrev many : List ℕ
many = replicate 401 0

shard_count_example : length (slices 100 many) ≡ (
    if length many % min 4 (length many / 100) == 0
    then min 4 (length many / 100)
    else suc (min 4 (length many / 100)))
unfolding shards
shard_count_example = shard_count 4 many (omega arith) (omega arith) refl

abbrev ninety_nine : List Chunk
ninety_nine = replicate 99 (chunk 0 1)

shards_share_paper_example :
    (first : List Chunk) × (second : List Chunk) × (rest : List (List Chunk)) × (slices 100
        ((ninety_nine ++ chunk 1 7 ∷ []) ++ chunk 2 7 ∷ ninety_nine)
      ≡ first ∷ second ∷ rest)
    × (contains 7 (paper_ids first) ≡ true)
    × (contains 7 (paper_ids second) ≡ true)
unfolding shards
shards_share_paper_example =
    shards_share_paper 2 ninety_nine ninety_nine (chunk 1 7) (chunk 2 7) refl refl refl
