-- ===== src/Extract/Cache/Serving.antt =====
-- Whose pages `read` returns, and until when.
use scholight.Prelude.{
  ℕ, zero, suc, ◌≡◌, ◌≤◌, ◌<◌, refl, sym, ◌∙◌, ap, Bool, true, false, Option, none, some, List, [],
  ◌∷◌, length, leb, if◌then◌else◌, arith, Bool-cases, Option-cases, inl, inr,
}
use scholight.Prelude.Int.{ℤ, pos_part}
use scholight.Prelude.Text.{Text, text_eq}
use scholight.Extract.Cursor.{position, new_cursor}
use scholight.Extract.Cursor.Laws.{position_sound}
use scholight.Prelude.TextEquality.{eq_of_text_eq}
use scholight.Extract.Cache.{
  SizedEntry, Cache, PageSlice, lookup, pop, drop_entry, drop_expired, drop_first, drop_oldest,
  over_limit, prune, read_at, read, page,
}
use scholight.Extract.Cache.Accounting.{
  Counted, drop_entry-Counted, drop_expired-Counted, drop_first-Counted, entries-drop_entry,
}
use scholight.Extract.Cache.Keys.{lookup-pop_self, key-lookup}

module _ {M : Type 0} where
  lookup-of_pop :
      (k q : Text) (xs : List (SizedEntry M)) {y : SizedEntry M}
      → lookup k (pop q xs) ≡ some y
      → text_eq k q ≡ false
      → lookup k xs ≡ some y
  lookup-of_pop k q [] h apart = h
  lookup-of_pop k q (x ∷ xs) h apart = elim (Bool-cases (text_eq q x.key)) [
    | inl same ↦
        let e : q ≡ x.key = eq_of_text_eq q x.key same in
        let other : text_eq k x.key ≡ false = ap (text_eq k) (sym e) ∙ apart in ground arith
    | inr differ ↦ elim (Bool-cases (text_eq k x.key)) [
      | inl found ↦ ground arith
      | inr further ↦
          let e = lookup-of_pop k q xs (simp (differ, further) at h) apart in rw further e
    ]
  ]

  -- What is found after an entry was dropped was there before, under another key.
  lookup-of_drop_entry :
      (k q : Text) (c : Cache M) {y : SizedEntry M}
      → Counted c
      → lookup k (drop_entry q c).entries ≡ some y
      → (lookup k c.entries ≡ some y) × (text_eq k q ≡ false)
  lookup-of_drop_entry k q c {y} v h =
      let popped : lookup k (pop q c.entries) ≡ some y =
        ap (lookup k) (sym (entries-drop_entry q c)) ∙ h in
      elim (Bool-cases (text_eq k q)) [
        | inl same ↦
            let gone : lookup k (pop q c.entries) ≡ none =
              ap (λ t. lookup t (pop q c.entries)) (eq_of_text_eq k q same)
              ∙ lookup-pop_self q c.entries v.unique in
            absurd (ground arith)
        | inr apart ↦ (lookup-of_pop k q c.entries popped apart, apart)
      ]

  lookup-of_drop_expired :
      (now : ℕ) (xs : List (SizedEntry M)) (c : Cache M) (k : Text) {y : SizedEntry M}
      → Counted c
      → lookup k (drop_expired now xs c).entries ≡ some y
      → (lookup k c.entries ≡ some y) × (lookup k xs ≡ some y → now < y.value.expires_at)
  unfolding drop_expired
  lookup-of_drop_expired now [] c k v h = (h, λ g. absurd (ground arith))
  lookup-of_drop_expired now (x ∷ xs) c k {y} v h = elim (Bool-cases (leb x.value.expires_at now)) [
    | inl over ↦
        let (kept, alive) =
          lookup-of_drop_expired now xs (drop_entry x.key c) k {y = y}
            (drop_entry-Counted x.key c v) (simp over at h) in
        let (was, apart) = lookup-of_drop_entry k x.key c v kept in
        (was, λ g. alive (simp apart at g))
    | inr young ↦
        let (kept, alive) = lookup-of_drop_expired now xs c k {y = y} v (simp young at h) in
        (
          kept,
          λ g. elim (Bool-cases (text_eq k x.key)) [
            | inl same ↦
                let e : some x ≡ some y = ground arith in
                let f : x ≡ y = cc in
                let late : x.value.expires_at ≡ y.value.expires_at =
                  ap (λ z. z.value.expires_at) f in
                ground arith
            | inr apart ↦ alive (simp apart at g)
          ],
        )
  ]

  lookup-of_drop_first :
      (xs : List (SizedEntry M)) (c : Cache M) (k : Text) {y : SizedEntry M}
      → Counted c
      → lookup k (drop_first xs c).entries ≡ some y
      → lookup k c.entries ≡ some y
  unfolding drop_first
  lookup-of_drop_first [] c k v h = h
  lookup-of_drop_first (x ∷ xs) c k v h = (lookup-of_drop_entry k x.key c v h).0

  lookup-of_drop_oldest :
      (fuel : ℕ) (c : Cache M) (k : Text) {y : SizedEntry M}
      → Counted c
      → lookup k (drop_oldest fuel c).entries ≡ some y
      → lookup k c.entries ≡ some y
  unfolding drop_oldest
  lookup-of_drop_oldest zero c k v h = h
  lookup-of_drop_oldest (suc fuel) c k v h = elim (Bool-cases (over_limit c)) [
    | inl over ↦ lookup-of_drop_first c.entries c k v (
        lookup-of_drop_oldest fuel (drop_first c.entries c) k (drop_first-Counted c.entries c v)
          (simp over at h))
    | inr fine ↦ simp fine at h
  ]

  -- What pruning leaves was there before, and has not expired.
  pub lookup-of_prune :
      (now : ℕ) (c : Cache M) (k : Text) {y : SizedEntry M}
      → Counted c
      → lookup k (prune now c).entries ≡ some y
      → (lookup k c.entries ≡ some y) × (now < y.value.expires_at)
  unfolding prune
  lookup-of_prune now c k v h =
      let (kept, alive) = lookup-of_drop_expired now c.entries c k v (
        lookup-of_drop_oldest _ (drop_expired now c.entries c) k
          (drop_expired-Counted now c.entries c v) h) in
      (kept, alive kept)

module _ {M : Type 0} (sign : Text → Text) where
  -- A page is cut from an entry of the cache, at the offset that the cursor was made for.
  pub record Serves (now : ℕ) (cursor actor_key : Text) (max_chars : ℤ) (c : Cache M)
      (p : PageSlice M) : Type 0 where
    pub item : SizedEntry M
    pub offset : ℕ
    pub present : lookup item.key c.entries ≡ some item
    pub genuine : cursor ≡ new_cursor sign item.key offset
    pub owned : item.value.actor_key ≡ actor_key
    pub fresh : now < item.value.expires_at
    pub inside : offset ≤ length item.value.content
    pub cut : p ≡ page sign item.key offset (pos_part max_chars) item.value

  answered :
      (refused : Bool) (answer p : PageSlice M) (c d e : Cache M)
      → (let result : Option (PageSlice M) × Cache M =
            if refused then (none, c) else (some answer, d) in
          result ≡ (some p, e))
      → (refused ≡ false) × (answer ≡ p)
  answered true answer p c d e h = absurd (ground arith)
  answered false answer p c d e h = let f : some answer ≡ some p = ap (λ r. r.0) h in (refl, cc)

  found_page :
      (where_at : Option (Text × ℕ)) (actor_key : Text) (max_chars : ℤ) (c d : Cache M)
      (p : PageSlice M)
      → read_at sign where_at actor_key max_chars c ≡ (some p, d)
      → (item : SizedEntry M) × (offset : ℕ) × (where_at ≡ some (item.key, offset))
        × (lookup item.key c.entries ≡ some item)
        × (item.value.actor_key ≡ actor_key)
        × (offset ≤ length item.value.content)
        × (page sign item.key offset (pos_part max_chars) item.value ≡ p)
  unfolding read_at
  found_page none actor_key max_chars c d p h = absurd (ground arith)
  found_page (some (entry_id, offset)) actor_key max_chars c d p h =
      elim (Option-cases (lookup entry_id c.entries)) [
        | inl missing ↦
            let empty : Option (PageSlice M) × Cache M = (none, c) in
            let nothing : empty ≡ (some p, d) = simp (read_at, missing) at h in
            let e : empty.0 ≡ some p = ap (λ r. r.0) nothing in absurd (ground arith)
        | inr (x, found) ↦
            let at : entry_id ≡ x.key = key-lookup entry_id c.entries found in
            let (fine, e) = answered _ _ p c _ d (simp (read_at, found) at h) in
            let owner : text_eq x.value.actor_key actor_key ≡ true = ground arith in
            (
              x,
              offset,
              ap (λ k. some (k, offset)) at,
              ap (λ k. lookup k c.entries) (sym at) ∙ found,
              eq_of_text_eq x.value.actor_key actor_key owner,
              ground arith,
              ap (λ k. page sign k offset (pos_part max_chars) x.value) (sym at) ∙ e,
            )
      ]

  -- A page that `read` returns is cut from an entry that the cache held before, that belongs to the
  -- actor who asks and has not expired, at an offset inside its content; and the cursor is the very
  -- one that was made for that entry and offset.
  pub read-Serves :
      (now : ℕ) (cursor actor_key : Text) (max_chars : ℤ) (c d : Cache M) (p : PageSlice M)
      → Counted c
      → read sign now cursor actor_key max_chars c ≡ (some p, d)
      → Serves now cursor actor_key max_chars c p
  unfolding read
  read-Serves now cursor actor_key max_chars c d p v h =
      let (x, offset, at, found, owner, inside, cut) =
        found_page (position sign cursor) actor_key max_chars (prune now c) d p h in
      let (was, young) = lookup-of_prune now c x.key v found in
      record {
        item = x;
        offset = offset;
        present = was;
        genuine = position_sound sign cursor x.key offset at;
        owned = owner;
        fresh = young;
        inside = inside;
        cut = sym cut;
      }
