-- ===== src/Extract/Spool/Reserved.antt =====
-- The allowance of the spool over any use of it.
use scholight.Prelude.{
  ℕ, ◌+◌, ◌-◌, ◌≡◌, ◌≤◌, refl, ◌∙◌, ap, Bool, true, false, not, some, List, [], ◌∷◌, zero, suc,
  contains, get_elem?, set, ◌&&◌, ◌||◌, if◌then◌else◌, arith, Bool-cases, inl, inr,
}
use scholight.Prelude.Int.{ℤ, pos, negsuc, pos_part, neg_part, ◌-ℤ◌, sub_ℕ, int_laws}
use scholight.Extract.Spool.{
  SpoolFile, Spool, Outcome, done, not_started, capacity_exceeded, os_error, new, allocate,
  registered, write, release, close_file, seal,
}
use scholight.Extract.Spool.System.{
  written_at, Step, begin, open_file, put, finish, shut, Reach, here, next, Inv,
}
use scholight.Extract.Spool.Balance.{
  registered-Inv, start-Inv, replaced-Inv, write-Fits, close_file-Inv,
}

chosen-Inv :
    (idle full created : Bool) (s t : Spool)
    → Inv s
    → (full ≡ false → Inv t)
    → (let r : Outcome × Spool =
          if idle
          then (not_started, s)
          else if full
          then (capacity_exceeded, s)
          else if created
          then (done, t)
          else (os_error, s) in
        Inv r.1)
chosen-Inv true full created s t v w = v
chosen-Inv false true created s t v w = v
chosen-Inv false false true s t v w = w refl
chosen-Inv false false false s t v w = v

allocate-Inv : (created : Bool) (limit : ℤ) (s : Spool) → Inv s → Inv (allocate created limit s).1
unfolding allocate
allocate-Inv created (pos limit) s v =
    chosen-Inv (not s.started) _ created s (registered limit s) v
      (λ fits. registered-Inv limit s v (ground arith))
allocate-Inv created (negsuc n) s v =
    chosen-Inv (not s.started) _ created s (registered 0 s) v (λ fits. absurd (ground arith))

seal-Inv :
    (s : Spool) (i : ℕ) (f : SpoolFile)
    → get_elem? s.bodies i ≡ some f
    → f.closed ≡ false
    → Inv s
    → Inv (seal i f s)
unfolding seal
seal-Inv s i f at still_open v =
    let fits : f.size ≤ f.limit = v.sizes i at in
    let back : ℤ = sub_ℕ f.limit f.size in
    let whole : back ≡ pos (f.limit - f.size) = ground arith in
    let moved : pos_part (s.reserved_bytes -ℤ back) + neg_part s.reserved_bytes + f.limit
        ≡ neg_part (s.reserved_bytes -ℤ back) + pos_part s.reserved_bytes + f.size =
      omega (int_laws, ap pos_part whole, ap neg_part whole) in
    replaced-Inv s i f (record f { limit = f.size }) _ v at still_open still_open (omega arith) fits
      moved

put-Inv :
    (s : Spool) (i n : ℕ) (written : Bool) (f : SpoolFile)
    → get_elem? s.bodies i ≡ some f
    → f.closed ≡ false
    → Inv s
    → Inv (written_at i (write written n f) s)
put-Inv s i n written f at still_open v =
    let (small, same, state) = write-Fits written n f (v.sizes i at) in
    replaced-Inv s i f (write written n f).1 s.reserved_bytes v at still_open (state ∙ still_open)
      (omega arith) (omega arith) (omega arith)

Step-Inv : {s t : Spool} → Step s t → Inv s → Inv t
Step-Inv (begin s locked) v = start-Inv locked s v
Step-Inv (open_file s created limit) v = allocate-Inv created limit s v
Step-Inv (put s i {f = f} at still_open written n) v = put-Inv s i n written f at still_open v
Step-Inv (finish s i {f = f} at still_open) v = seal-Inv s i f at still_open v
Step-Inv (shut s i {f = f} at unlinked) v = close_file-Inv unlinked s i f at v

new-Inv : (max_bytes : ℕ) → Inv (new max_bytes)
unfolding new
new-Inv max_bytes = record {
  balanced = refl;
  bounded = omega arith;
  sizes = λ i h. absurd (ground arith);
  listed = λ i h. absurd (ground arith);
}

Reach-Inv : {s t : Spool} → Inv s → Reach s t → Inv t
Reach-Inv v here = v
Reach-Inv v (next r step) = Step-Inv step (Reach-Inv v r)

-- The bytes that an open file counts as written.
abbrev pub used : SpoolFile → ℕ
used f = if f.closed then 0 else f.size

get_elem?-set_same {ℓ} :
    {A : Type ℓ} (xs : List A) (i : ℕ) (v : A) {w : A}
    → get_elem? xs i ≡ some w
    → get_elem? (set xs i v) i ≡ some v
get_elem?-set_same [] i v h = absurd (ground arith)
get_elem?-set_same (x ∷ xs) zero v h = refl
get_elem?-set_same (x ∷ xs) (suc i) v h = get_elem?-set_same xs i v h

-- Closing any file of such a spool never raises a KeyError: it succeeds if the file is closed
-- already or can be unlinked, and otherwise raises an error of the operating system. A close that
-- succeeds on an open file leaves it closed and gives back its limit; every other leaves the spool
-- as it is, so that a failed close can be tried again.
pub close_file-done :
    (max_bytes : ℕ) {s : Spool} (i : ℕ) (f : SpoolFile) (unlinked : Bool)
    → Reach (new max_bytes) s
    → get_elem? s.bodies i ≡ some f
    → let after = (close_file unlinked i f s).1 in
      ((close_file unlinked i f s).0 ≡ (if f.closed || unlinked then done else os_error))
      × (if not f.closed && unlinked
          then (get_elem? after.bodies i ≡ some (record f { closed = true }))
            × (after.reserved_bytes ≡ s.reserved_bytes -ℤ pos f.limit)
          else after ≡ s)
unfolding close_file release
close_file-done max_bytes {s} i f unlinked r at =
    let v = Reach-Inv (new-Inv max_bytes) r in
    let listed : contains i s.files ≡ not f.closed = v.listed i at in
    elim (Bool-cases f.closed) [
      | inl shut_before ↦ rw shut_before (refl, refl)
      | inr still_open ↦
          let has : contains i s.files ≡ true = listed ∙ ap not still_open in
          rw (still_open, has)
            (elim (Bool-cases unlinked) [
              | inl gone ↦ rw gone (refl, (get_elem?-set_same s.bodies i _ at, refl))
              | inr kept ↦ rw kept (refl, refl)
            ])
    ]
