-- ===== src/Extract/Budget/Costs.antt =====
-- What the estimates of the default model promise.
use scholight.Prelude.{
  ℕ, ◌≤◌, ◌≡◌, inl, inr, Bool, true, false, [], ◌∷◌, arith, if◌then◌else◌, Bool-cases,
}
use scholight.Prelude.Int.{pos}
use scholight.Prelude.Text.{Text, codes, one_of, text_eq}
use scholight.Extract.Budget.{
  Stage, ok, StageCost, cost, default_model, media_type, stage_choice, estimate,
}

abbrev Covers : StageCost → StageCost → Type 0
Covers c d = (c.fixed ≤ d.fixed) × (c.per_input_byte ≤ d.per_input_byte)

stage_choice-warm :
    (stage : Stage) (mime : Text) (warm : Bool)
    → Covers
        (stage_choice default_model stage mime warm)
        (stage_choice default_model stage mime false)
unfolding stage_choice
stage_choice-warm Stage.download mime warm = ground arith
stage_choice-warm Stage.browser mime warm = ground arith
stage_choice-warm Stage.parse mime warm =
    elim (Bool-cases (one_of mime (codes "text/html" ∷ codes "application/xhtml+xml" ∷ []))) [
      | inl html ↦ rw html (omega arith, omega arith)
      | inr other ↦ rw other (elim (Bool-cases (text_eq mime (codes "application/pdf"))) [
        | inl pdf ↦ rw pdf (warm_pdf warm)
        | inr none_of_them ↦ rw none_of_them (omega arith, omega arith)
      ])
    ]
  where
    warm_pdf :
        (w : Bool)
        → Covers (if w then default_model.pdf_warm else default_model.pdf) default_model.pdf
    warm_pdf true = (omega arith, omega arith)
    warm_pdf false = (omega arith, omega arith)

cost_mono : (c d : StageCost) (m n : ℕ) → Covers c d → m ≤ n → cost c m ≤ cost d n
cost_mono c d m n h le = grind arith

-- With the default model an input that is no smaller, of the same media type, has an estimate that is
-- no smaller, for a warm worker as for a cold one, and a warm worker never costs more than a cold one.
pub estimate_mono :
    (stage : Stage) (mime : Text) (warm : Bool) (m n : ℕ) {a b c : ℕ}
    → m ≤ n
    → estimate default_model stage (pos m) mime warm ≡ ok a
    → estimate default_model stage (pos n) mime warm ≡ ok b
    → estimate default_model stage (pos n) mime false ≡ ok c
    → (a ≤ b) × (b ≤ c)
unfolding estimate
estimate_mono stage mime warm m n le ea eb ec =
    let t = media_type mime in
    let chosen : StageCost = stage_choice default_model stage t warm in
    let cold : StageCost = stage_choice default_model stage t false in
    (
      ground (arith, cost_mono chosen chosen m n (omega arith, omega arith) le),
      ground (arith, cost_mono chosen cold n n (stage_choice-warm stage t warm) (omega arith)),
    )
