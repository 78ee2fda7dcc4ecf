-- ===== src/Extract/Cache/System.antt =====
-- Everything that callers do to the cache, in any order.
use scholight.Prelude.{
  ℕ, ◌+◌, ◌≡◌, ◌≤◌, refl, sym, ◌∙◌, ap, Bool, true, false, Option, none, some, [], ◌∷◌, ◌++◌,
  length, leb, if◌then◌else◌, arith, Option-cases, inl, inr, total-append, length-append,
}
use scholight.Prelude.Int.{ℤ, pos, pos_part, neg_part, int_laws}
use scholight.Prelude.Text.{Text}
use scholight.Extract.Cursor.{position}
use scholight.Extract.Cache.{
  Entry, SizedEntry, Cache, PageSlice, new, lookup, pop, store, move_to_end, prune, added,
  put_private, read_at, read, index_bytes,
}
use scholight.Extract.Cache.Accounting.{
  Unique, stored_size, Counted, Limited, total-pop, Unique-pop, prune-Counted, prune-Limited,
}
use scholight.Extract.Cache.Keys.{store-new, Unique-append, lookup-pop_self, key-lookup, length-pop}

module _ {M : Type 0} (sign : Text → Text) (retained_size : Text → Entry M → ℕ) where
  -- A token that is drawn is none of those in use: it is 24 random bytes.
  pub data Step : Cache M → Cache M → Type 0 where
    put :
        (c : Cache M) (now soon later : ℕ) (token actor_key url content : Text) (metadata : M)
        → lookup token (prune now c).entries ≡ none
        → Step c
            (put_private sign retained_size now soon later token actor_key url content metadata c).1
    get :
        (c : Cache M) (now : ℕ) (cursor actor_key : Text) (max_chars : ℤ)
        → Step c (read sign now cursor actor_key max_chars c).1
    clean : (c : Cache M) (now : ℕ) → Step c (prune now c)

  pub data Reach (s : Cache M) : Cache M → Type 0 where
    here : Reach s s
    next : {c d : Cache M} → Reach s c → Step c d → Reach s d

module _ {M : Type 0} where
  added-Counted :
      (item : SizedEntry M) (c : Cache M)
      → Counted c
      → lookup item.key c.entries ≡ none
      → Counted (added item c)
  added-Counted item c v h =
      let e : store item c.entries ≡ c.entries ++ item ∷ [] = store-new item c.entries h in
      let sums = total-append (λ (x : SizedEntry M). x.size) c.entries (item ∷ []) in
      record {
        counted = rw e (omega (int_laws, sums, ap pos_part v.counted, ap neg_part v.counted));
        unique = rw e (Unique-append c.entries item v.unique h);
      }

  -- What every operation keeps.
  record Kept (c : Cache M) : Type 0 where
    counted : Counted c
    limited : Limited c

  prune-Kept : (now : ℕ) (c : Cache M) → Counted c → Kept (prune now c)
  prune-Kept now c v = record { counted = prune-Counted now c v; limited = prune-Limited now c v }

  moved-Kept :
      (x : SizedEntry M) (key : Text) (c : Cache M)
      → lookup key c.entries ≡ some x
      → Kept c
      → Kept (record c { entries = move_to_end x c.entries })
  moved-Kept x key c found v =
      let at : key ≡ x.key = key-lookup key c.entries found in
      let has : lookup x.key c.entries ≡ some x = ap (λ k. lookup k c.entries) (sym at) ∙ found in
      let sums = total-append (λ (y : SizedEntry M). y.size) (pop x.key c.entries) (x ∷ []) in
      let less = total-pop x.key c.entries has in
      let same : stored_size (pop x.key c.entries ++ x ∷ []) ≡ stored_size c.entries =
        omega (arith, sums, less) in
      let long : length (pop x.key c.entries ++ x ∷ []) ≡ length c.entries =
        omega
          (arith, length-append (pop x.key c.entries) (x ∷ []), length-pop x.key c.entries has) in
      record {
        counted = record {
          counted = rw same v.counted.counted;
          unique =
              Unique-append (pop x.key c.entries) x (Unique-pop x.key c.entries v.counted.unique)
                (lookup-pop_self x.key c.entries v.counted.unique);
        };
        limited = record {
          bytes_fit = rw same v.limited.bytes_fit;
          entries_fit = rw long v.limited.entries_fit;
        };
      }

module _ {M : Type 0} (sign : Text → Text) where
  answered-Kept :
      (refused : Bool) (answer : Option (PageSlice M)) (c d : Cache M)
      → Kept c
      → Kept d
      → (let result : Option (PageSlice M) × Cache M = if refused then (none, c) else (answer, d) in
          Kept result.1)
  answered-Kept true answer c d v w = v
  answered-Kept false answer c d v w = w

  Kept-if : (b : Bool) (c d : Cache M) → Kept c → Kept d → Kept (if b then c else d)
  Kept-if true c d v w = v
  Kept-if false c d v w = w

  read_at-Kept :
      (where_at : Option (Text × ℕ)) (actor_key : Text) (max_chars : ℤ) (c : Cache M)
      → Kept c
      → Kept (read_at sign where_at actor_key max_chars c).1
  unfolding read_at
  read_at-Kept none actor_key max_chars c v = v
  read_at-Kept (some (entry_id, offset)) actor_key max_chars c v =
      elim (Option-cases (lookup entry_id c.entries)) [
        | inl missing ↦ rw (read_at, missing) v
        | inr (x, found) ↦
            rw (read_at, found) (answered-Kept _ _ _ _ v (moved-Kept x entry_id c found v))
      ]

  put_private-Kept :
      (retained_size : Text → Entry M → ℕ) (c : Cache M) (now soon later : ℕ)
      (token actor_key url content : Text) (metadata : M)
      → Counted c
      → lookup token (prune now c).entries ≡ none
      → Kept
          (put_private sign retained_size now soon later token actor_key url content metadata c).1
  unfolding put_private
  put_private-Kept retained_size c now soon later token actor_key url content metadata v fresh =
      let entry : Entry M = record {
        actor_key = actor_key;
        url = url;
        content = content;
        metadata = metadata;
        expires_at = soon + c.ttl;
      } in
      let item : SizedEntry M = record {
        key = token;
        value = entry;
        size = retained_size token entry + index_bytes;
      } in
      Kept-if (leb (retained_size token entry + index_bytes) c.max_bytes)
        (prune later (added item (prune now c))) (prune now c)
        (prune-Kept later (added item (prune now c))
          (added-Counted item (prune now c) (prune-Counted now c v) fresh))
        (prune-Kept now c v)

  Step-Kept :
      (retained_size : Text → Entry M → ℕ) {c d : Cache M}
      → Step sign retained_size c d
      → Kept c
      → Kept d
  unfolding read
  Step-Kept retained_size (put c now soon later token actor_key url content metadata fresh) v =
      put_private-Kept retained_size c now soon later token actor_key url content metadata v.counted
        fresh
  Step-Kept retained_size (get c now cursor actor_key max_chars) v =
      read_at-Kept (position sign cursor) actor_key max_chars (prune now c)
        (prune-Kept now c v.counted)
  Step-Kept retained_size (clean c now) v = prune-Kept now c v.counted

  new-Kept : (ttl max_bytes max_entries : ℕ) → Kept {M = M} (new ttl max_bytes max_entries)
  unfolding new
  new-Kept ttl max_bytes max_entries = record {
    counted = record { counted = refl; unique = tt };
    limited = record { bytes_fit = omega arith; entries_fit = omega arith };
  }

  Reach-Kept :
      (retained_size : Text → Entry M → ℕ) {s c : Cache M}
      → Kept s
      → Reach sign retained_size s c
      → Kept c
  Reach-Kept retained_size v here = v
  Reach-Kept retained_size v (next r step) =
      Step-Kept retained_size step (Reach-Kept retained_size v r)

  -- Whatever is put, read and pruned, at any times and with any sizes, as long as the tokens drawn
  -- are not in use: the byte counter is the sum of the sizes of the entries, which is at most the
  -- cache's limit, and so is their number; and no entry id stands twice.
  pub cache_limited :
      (retained_size : Text → Entry M → ℕ) (ttl max_bytes max_entries : ℕ) {c : Cache M}
      → Reach sign retained_size (new ttl max_bytes max_entries) c
      → (c.bytes ≡ pos (stored_size c.entries))
        × (stored_size c.entries ≤ c.max_bytes)
        × (length c.entries ≤ c.max_entries)
        × Unique c.entries
  cache_limited retained_size ttl max_bytes max_entries r =
      let v = Reach-Kept retained_size (new-Kept ttl max_bytes max_entries) r in
      (v.counted.counted, v.limited.bytes_fit, v.limited.entries_fit, v.counted.unique)
