-- ===== src/Extract/Cache.antt =====
-- `ExtractResultCache` of scholight/web_extract/cache.py. Times are whole ticks of the clock, which
-- an operation reads once for each of its time arguments; metadata is never looked into. What
-- `retained_size` measures of an entry and the signature of a payload are parameters.
pub mod Accounting
pub mod Keys
pub mod System
pub mod Serving
mod Tests
use scholight.Prelude.{
  ℕ, zero, suc, ◌+◌, Bool, true, false, not, ◌||◌, Option, none, some, List, [], ◌∷◌, ◌++◌, length,
  ltb, leb, if◌then◌else◌,
}
use scholight.Prelude.Int.{ℤ, pos, pos_part, ◌+ℤ◌, ◌-ℤ◌, ltb_ℤ, leb_ℤ}
use scholight.Prelude.Text.{Text, text_eq}
use scholight.Store.Slices.{slice}
use scholight.Extract.Cursor.{new_cursor, position}

-- `_Entry`
pub record Entry (M : Type 0) : Type 0 where
  pub actor_key : Text
  pub url : Text
  pub content : Text
  pub metadata : M
  pub expires_at : ℕ

-- `_SizedEntry`, with the key it stands under.
pub record SizedEntry (M : Type 0) : Type 0 where
  pub key : Text
  pub value : Entry M
  pub size : ℕ

-- An ordered dictionary lists its items from the oldest to the newest.
pub record Cache (M : Type 0) : Type 0 where
  pub ttl : ℕ
  pub max_bytes : ℕ
  pub max_entries : ℕ
  pub entries : List (SizedEntry M)
  pub bytes : ℤ

pub record PageSlice (M : Type 0) : Type 0 where
  pub content : Text
  pub next_cursor : Option Text
  pub metadata : M

abbrev pub index_bytes : ℕ
index_bytes = 256

module _ {M : Type 0} where
  unfoldable pub new : ℕ → ℕ → ℕ → Cache M
  new ttl max_bytes max_entries = record {
    ttl = ttl;
    max_bytes = max_bytes;
    max_entries = max_entries;
    entries = [];
    bytes = pos 0;
  }

  -- `entries.get(key)`
  abbrev pub lookup : Text → List (SizedEntry M) → Option (SizedEntry M)
  lookup key [] = none
  lookup key (x ∷ xs) = if text_eq key x.key then some x else lookup key xs

  -- `entries.pop(key, None)`
  abbrev pub pop : Text → List (SizedEntry M) → List (SizedEntry M)
  pop key [] = []
  pop key (x ∷ xs) = if text_eq key x.key then xs else x ∷ pop key xs

  -- `entries[key] = item`
  abbrev pub store : SizedEntry M → List (SizedEntry M) → List (SizedEntry M)
  store item [] = item ∷ []
  store item (x ∷ xs) = if text_eq item.key x.key then item ∷ xs else x ∷ store item xs

  -- `entries.move_to_end(key)`, of an item that the dictionary has.
  abbrev pub move_to_end : SizedEntry M → List (SizedEntry M) → List (SizedEntry M)
  move_to_end item xs = pop item.key xs ++ item ∷ []

  -- `_drop`
  unfoldable pub drop_entry : Text → Cache M → Cache M
  drop_entry key c = elim (lookup key c.entries) [
    | none ↦ c
    | some x ↦ record c { entries = pop key c.entries; bytes = c.bytes -ℤ pos x.size }
  ]

  -- The first loop of `prune`, over the items that were there when it began.
  unfoldable pub drop_expired : ℕ → List (SizedEntry M) → Cache M → Cache M
  unfolding drop_entry
  drop_expired now [] c = c
  drop_expired now (x ∷ xs) c =
      drop_expired now xs (if leb x.value.expires_at now then drop_entry x.key c else c)

  abbrev pub over_limit : Cache M → Bool
  over_limit c = ltb_ℤ (pos c.max_bytes) c.bytes || ltb c.max_entries (length c.entries)

  abbrev pub drop_first : List (SizedEntry M) → Cache M → Cache M
  unfolding drop_entry
  drop_first [] c = c
  drop_first (x ∷ xs) c = drop_entry x.key c

  -- The second loop of `prune`, which drops one item per round.
  unfoldable pub drop_oldest : ℕ → Cache M → Cache M
  unfolding drop_entry drop_first
  drop_oldest zero c = c
  drop_oldest (suc fuel) c =
      let rest = drop_oldest fuel (drop_first c.entries c) in if over_limit c then rest else c

  -- `prune`
  unfoldable pub prune : ℕ → Cache M → Cache M
  unfolding drop_expired drop_oldest
  prune now c = let fresh = drop_expired now c.entries c in drop_oldest (length fresh.entries) fresh

  abbrev pub added : SizedEntry M → Cache M → Cache M
  added item c = record c { entries = store item c.entries; bytes = c.bytes +ℤ pos item.size }

  module _ (sign : Text → Text) where
    -- `put_private`, with the token drawn for the entry; the clock is read three times.
    unfoldable pub put_private :
        (Text → Entry M → ℕ) → ℕ → ℕ → ℕ → Text → Text → Text → Text → M → Cache M → Text × Cache M
    unfolding prune
    put_private retained_size now soon later token actor_key url content metadata c =
        let clean = prune now c in
        let entry : Entry M = record {
          actor_key = actor_key;
          url = url;
          content = content;
          metadata = metadata;
          expires_at = soon + c.ttl;
        } in
        let size = retained_size token entry + index_bytes in
        let item : SizedEntry M = record { key = token; value = entry; size = size } in
        (
          new_cursor sign token 0,
          if leb size c.max_bytes then prune later (added item clean) else clean,
        )

    -- `read`, behind the checks of the cursor: the page and the next cursor.
    abbrev pub page : Text → ℕ → ℕ → Entry M → PageSlice M
    page entry_id offset max_chars entry =
        let content = slice offset (offset + max_chars) entry.content in
        let next_offset = offset + length content in
        record {
          content = content;
          next_cursor =
              if ltb next_offset (length entry.content)
              then some (new_cursor sign entry_id next_offset)
              else none;
          metadata = entry.metadata;
        }

    unfoldable pub read_at : Option (Text × ℕ) → Text → ℤ → Cache M → Option (PageSlice M) × Cache M
    read_at none actor_key max_chars c = (none, c)
    read_at (some (entry_id, offset)) actor_key max_chars c = elim (lookup entry_id c.entries) [
      | none ↦ (none, c)
      | some stored ↦
          if not (text_eq stored.value.actor_key actor_key)
            || ltb (length stored.value.content) offset
            || leb_ℤ max_chars (pos 0)
          then (none, c)
          else (
            some (page entry_id offset (pos_part max_chars) stored.value),
            record c { entries = move_to_end stored c.entries },
          )
    ]

    -- `read`
    unfoldable pub read : ℕ → Text → Text → ℤ → Cache M → Option (PageSlice M) × Cache M
    unfolding prune read_at
    read now cursor actor_key max_chars c =
        read_at (position sign cursor) actor_key max_chars (prune now c)
