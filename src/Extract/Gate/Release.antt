-- ===== src/Extract/Gate/Release.antt =====
-- Which future `release` grants.
use mathlib.Core.Path.{subst, sym, ◌∙◌}
use scholight.Prelude.{
  ℕ, ◌≡◌, refl, ◌⊎◌, inl, inr, true, false, List, [], ◌∷◌, ◌++◌, arith, update, All, Bool-cases, ap,
}
use scholight.Prelude.Int.{ℤ, pos, ◌+ℤ◌, ◌-ℤ◌, int_laws}
use scholight.Extract.Gate.{Future, pending, granted, done, Gate, hand_over, release}

-- The futures before `f` are done, and `f` is not.
pub record FirstPending (fs : ℕ → Future) (q : List ℕ) : Type 0 where
  pub before : List ℕ
  pub chosen : ℕ
  pub after : List ℕ
  pub split : q ≡ before ++ chosen ∷ after
  pub skipped : All (λ r. done (fs r) ≡ true) before
  pub waits : fs chosen ≡ pending

abbrev pub granting : {fs : ℕ → Future} {q : List ℕ} → FirstPending fs q → Gate → Gate
granting p g = record g {
  queue = p.after;
  active = g.active +ℤ pos 1;
  futures = update g.futures p.chosen granted;
}

pub pending_of_not_done : (x : Future) → done x ≡ false → x ≡ pending
pending_of_not_done x h = ground arith

hand_over-cons_done :
    (g : Gate) (f : ℕ) (q : List ℕ)
    → done (g.futures f) ≡ true
    → hand_over (f ∷ q) g ≡ hand_over q g
unfolding hand_over
hand_over-cons_done g f q h = rw h

pub hand_over_cases :
    (g : Gate) (q : List ℕ)
    → (All (λ r. done (g.futures r) ≡ true) q × (hand_over q g ≡ record g { queue = [] }))
      ⊎ ((p : FirstPending g.futures q) × (hand_over q g ≡ granting p g))
unfolding hand_over
hand_over_cases g [] = inl (tt, refl)
hand_over_cases g (f ∷ q) = elim (Bool-cases (done (g.futures f))) [
  | inr waits ↦ inr (
    record {
      before = [];
      chosen = f;
      after = q;
      split = refl;
      skipped = tt;
      waits = pending_of_not_done (g.futures f) waits;
    },
    rw waits,
  )
  | inl over ↦ elim (hand_over_cases g q) [
    | inl (all_done, e) ↦ inl ((over, all_done), rw over e)
    | inr (p, e) ↦ inr (
      record {
        before = f ∷ p.before;
        chosen = p.chosen;
        after = p.after;
        split = ap (λ t. f ∷ t) p.split;
        skipped = (over, p.skipped);
        waits = p.waits;
      },
      rw over e,
    )
  ]
]

hand_over_first :
    (g : Gate) (before after : List ℕ) (f : ℕ)
    → All (λ r. done (g.futures r) ≡ true) before
    → g.futures f ≡ pending
    → hand_over (before ++ f ∷ after) g
      ≡ record g { queue = after; active = g.active +ℤ pos 1; futures = update g.futures f granted }
unfolding hand_over
hand_over_first g [] after f skipped waits = rw waits
hand_over_first g (r ∷ before) after f skipped waits =
    rw (skipped.0) (hand_over_first g before after f skipped.1 waits)

sub_add_one : (a : ℤ) → a -ℤ pos 1 +ℤ pos 1 ≡ a
sub_add_one a = omega int_laws

-- `release` hands its slot to the waiter that has stood longest in the queue among those that are
-- still pending: the count of active slots stays, that future alone is granted, every future before
-- it, being done, leaves the queue with it, and those behind it keep their order.
pub release_fifo :
    (g : Gate) (before after : List ℕ) (f : ℕ)
    → g.queue ≡ before ++ f ∷ after
    → All (λ r. done (g.futures r) ≡ true) before
    → g.futures f ≡ pending
    → release g ≡ record g { queue = after; futures = update g.futures f granted }
unfolding release
release_fifo g before after f split skipped waits =
    let freed = record g { active = g.active -ℤ pos 1 } in
    subst
      (λ q. hand_over q freed ≡ record g { queue = after; futures = update g.futures f granted })
      (sym split)
      (hand_over_first freed before after f skipped waits
        ∙ ap (λ a. record g { queue = after; active = a; futures = update g.futures f granted })
            (sub_add_one g.active))
