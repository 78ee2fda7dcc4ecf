-- ===== src/Store/Concurrent/LastWrite.antt =====
-- What a chunk worker leaves in the collection.
use scholight.Prelude.{
  ℕ, ◌+◌, ◌≡◌, ◌≤◌, ◌<◌, refl, sym, ◌∙◌, ap, Bool, true, false, not, some, List, [], ◌∷◌, ◌++◌,
  if◌then◌else◌, ◌==◌, length, contains, map, arith, Bool-cases, Option-cases, inl, inr, ==_iff,
  append-nil, length-append,
}
use scholight.Prelude.Text.{Text}
use scholight.Store.Slices.{batched, slices}
use scholight.Store.Slices.Laws.{join, join-slices}
use scholight.Store.Slices.Full.{slices-two}
use scholight.Store.Concurrent.{
  Chunk, Collection, Documented, escape_sql, id_list, delete_listed, keep, paper_ids, inserted,
  write_batch, write_batches, worker_insert_chunks,
}

-- The chunks of one paper, in order.
abbrev pub rows_of : ℕ → List Chunk → List Chunk
rows_of p = keep (λ c. c.arxiv_id == p)

-- What of one paper is left by batches that each replace the papers in them: the chunks of the last
-- batch that has any, or else what was there.
abbrev pub last_write : ℕ → List Chunk → List (List Chunk) → List Chunk
last_write p old [] = old
last_write p old (b ∷ bs) = last_write p (if contains p (paper_ids b) then rows_of p b else old) bs

keep-append : (p : Chunk → Bool) (xs ys : List Chunk) → keep p (xs ++ ys) ≡ keep p xs ++ keep p ys
keep-append p [] ys = refl
keep-append p (x ∷ xs) ys = ground (arith, keep-append p xs ys)

rows_of-absent : (p : ℕ) (b : List Chunk) → contains p (paper_ids b) ≡ false → rows_of p b ≡ []
rows_of-absent p [] h = refl
rows_of-absent p (c ∷ b) h = ground (arith, rows_of-absent p b)

rows_of-deleted :
    (p : ℕ) (ids : List ℕ) (xs : List Chunk)
    → rows_of p (keep (λ c. not (contains c.arxiv_id ids)) xs)
      ≡ (if contains p ids then [] else rows_of p xs)
rows_of-deleted p ids [] = ground arith
rows_of-deleted p ids (c ∷ xs) = elim (Bool-cases (c.arxiv_id == p)) [
  | inl same ↦
      let e : c.arxiv_id ≡ p = (==_iff c.arxiv_id p).0 same in
      ground (arith, ap (λ t. contains t ids) e, rows_of-deleted p ids xs)
  | inr other ↦ ground (arith, rows_of-deleted p ids xs)
]

keep-all : (xs : List Chunk) → keep (λ c. true) xs ≡ xs
keep-all [] = refl
keep-all (x ∷ xs) = ap (λ t. x ∷ t) (keep-all xs)

replaced :
    (p : ℕ) (b old : List Chunk)
    → (if contains p (paper_ids b) then [] else rows_of p old) ++ rows_of p b
      ≡ (if contains p (paper_ids b) then rows_of p b else rows_of p old)
replaced p b old = elim (Bool-cases (contains p (paper_ids b))) [
  | inl listed ↦ rw listed
  | inr absent ↦ rw (absent, rows_of-absent p b absent) (append-nil (rows_of p old))
]

escape_sql-plain : (t : Text) → contains 39 t ≡ false → escape_sql t ≡ t
unfolding escape_sql
escape_sql-plain [] h = refl
escape_sql-plain (c ∷ t) h = ground (arith, escape_sql-plain t)

module _ (db : Collection) (doc : Documented db) where
  -- The identifiers are plain, so that escaping leaves them alone.
  id_list-plain : (ids : List ℕ) → id_list db ids ≡ map db.text_of ids
  unfolding id_list
  id_list-plain [] = refl
  id_list-plain (i ∷ ids) =
      rw (escape_sql-plain (db.text_of i) (doc.plain i).0, id_list-plain ids) refl

  delete_listed-rows :
      (ids : List ℕ) (s t : db.State)
      → delete_listed db ids s ≡ some t
      → db.rows t ≡ keep (λ c. not (contains c.arxiv_id ids)) (db.rows s)
  unfolding delete_listed
  delete_listed-rows [] s t h = let e : t ≡ s = cc in ap db.rows e ∙ sym (keep-all (db.rows s))
  delete_listed-rows (i ∷ ids) s t h =
      doc.deletes (i ∷ ids) s (ap (λ l. db.delete l s) (sym (id_list-plain (i ∷ ids))) ∙ h)

  -- The two writes of a round that went through.
  write_batch_parts :
      (b : List Chunk) (s t : db.State)
      → write_batch db b s ≡ (true, t)
      → (m : db.State) × (delete_listed db (paper_ids b) s ≡ some m) × (db.insert b m ≡ some t)
  unfolding write_batch
  write_batch_parts b s t h = elim (Option-cases (delete_listed db (paper_ids b) s)) [
    | inl failed ↦ absurd (ground (arith, ap (λ r. r.0) h))
    | inr (m, e) ↦ elim (Option-cases (db.insert b m)) [
      | inl failed ↦ absurd (ground (arith, ap (λ r. r.0) h))
      | inr (u, k) ↦ (m, e, ground arith)
    ]
  ]

  write_batch-rows :
      (p : ℕ) (b : List Chunk) (s t : db.State)
      → write_batch db b s ≡ (true, t)
      → rows_of p (db.rows t)
        ≡ (if contains p (paper_ids b) then rows_of p b else rows_of p (db.rows s))
  write_batch-rows p b s t h =
      let (m, e, k) = write_batch_parts b s t h in
      ap (rows_of p) (doc.inserts b m k)
      ∙ keep-append (λ c. c.arxiv_id == p) (db.rows m) b
      ∙ ap (λ r. rows_of p r ++ rows_of p b) (delete_listed-rows (paper_ids b) s m e)
      ∙ ap (λ r. r ++ rows_of p b) (rows_of-deleted p (paper_ids b) (db.rows s))
      ∙ replaced p b (db.rows s)

  write_batches-rows :
      (p : ℕ) (bs : List (List Chunk)) (count n : ℕ) (s t : db.State)
      → write_batches db count bs s ≡ (inserted n, t)
      → (n ≡ count + length (join bs))
        × (rows_of p (db.rows t) ≡ last_write p (rows_of p (db.rows s)) bs)
  unfolding write_batches
  write_batches-rows p [] count n s t h =
      (ground (arith, ap (λ r. r.0) h), ap (λ r. rows_of p (db.rows r.1)) (sym h))
  write_batches-rows p (b ∷ bs) count n s t h = elim (Bool-cases (write_batch db b s).0) [
    | inr failed ↦ absurd (ground (arith, ap (λ r. r.0) h))
    | inl written ↦
        let u : db.State = (write_batch db b s).1 in
        let rest : write_batches db (count + length b) bs u ≡ (inserted n, t) = rw written at h in
        let (size, rows) = write_batches-rows p bs (count + length b) n u t rest in
        (
          omega (arith, size, length-append {0} b (join bs)),
          rows ∙ ap (λ r. last_write p r bs) (write_batch-rows p b s u (ap (λ x. (x, u)) written)),
        )
  ]

  -- A chunk worker that succeeds reports as many rows as it was given, and of every paper exactly
  -- those chunks are then stored that the last of its batches of 1000 with chunks of that paper has,
  -- in order; of a paper that it was given no chunk of, the chunks stored before it. (The collection
  -- behaves as documented: a delete removes the rows of the listed papers, whose
  -- identifiers have no quote and no backslash, and an insert adds its rows.)
  pub worker_last_write :
      (chunks : List Chunk) (n : ℕ) (s t : db.State)
      → worker_insert_chunks db chunks s ≡ (inserted n, t)
      → (n ≡ length chunks)
        × ((p : ℕ) → rows_of p (db.rows t) ≡ last_write p (rows_of p (db.rows s)) (batched chunks))
  unfolding worker_insert_chunks batched
  worker_last_write chunks n s t h = (
    omega (
      arith,
      (write_batches-rows 0 (slices 1000 chunks) 0 n s t h).0,
      ap length (join-slices 1000 chunks (omega arith)),
    ),
    λ p. (write_batches-rows p (slices 1000 chunks) 0 n s t h).1,
  )

nonempty_of_listed : (p : ℕ) (ys : List Chunk) → contains p (paper_ids ys) ≡ true → 0 < length ys
nonempty_of_listed p [] h = absurd (ground arith)
nonempty_of_listed p (y ∷ ys) h = omega arith

module _ (db : Collection) (doc : Documented db) where
  -- A paper whose chunks cross the end of the worker's first batch loses chunks: of 1000 chunks
  -- followed by at most 1000 more, where the later ones have some of paper `p`, a worker that
  -- succeeds leaves of `p` exactly the later ones.
  pub crossing_paper_loses :
      (p : ℕ) (xs ys : List Chunk) (n : ℕ) (s t : db.State)
      → length xs ≡ 1000
      → length ys ≤ 1000
      → contains p (paper_ids ys) ≡ true
      → worker_insert_chunks db (xs ++ ys) s ≡ (inserted n, t)
      → rows_of p (db.rows t) ≡ rows_of p ys
  unfolding batched
  crossing_paper_loses p xs ys n s t ex few listed h =
      let two_batches : batched (xs ++ ys) ≡ xs ∷ ys ∷ [] =
        slices-two 1000 xs ys ex (omega arith) (nonempty_of_listed p ys listed) few in
      (worker_last_write db doc (xs ++ ys) n s t h).1 p
      ∙ ap (last_write p (rows_of p (db.rows s))) two_batches
      ∙ rw listed
