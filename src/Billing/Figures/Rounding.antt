-- ===== src/Billing/Figures/Rounding.antt =====
-- How far the stored columns of an invoice (src/modules/billing/invoice.service.ts) can be apart.
use corporate_lawyers_backen.Prelude.{ℕ, ◌+◌, ◌*◌, ◌/◌, ◌≤◌, ◌≡◌, refl, ap, ◌∙◌, List, arith}
use corporate_lawyers_backen.Billing.Figures.{Numeric, Item, subtotal_of, totals}

-- The stored total is within one cent of the stored subtotal plus the stored tax.
pub totals-within_a_cent :
    (numeric : Numeric) (items : List Item) (rate : ℕ)
    → let t = totals numeric (subtotal_of items) rate in
      (t.total ≤ t.subtotal + t.tax_amount + 1) × (t.subtotal + t.tax_amount ≤ t.total + 1)
totals-within_a_cent numeric items rate =
    let exact = subtotal_of items in
    let above₁ = numeric.store_above (exact * 100) in
    let below₁ = numeric.store_below (exact * 100) in
    let above₂ = numeric.store_above (exact * rate) in
    let below₂ = numeric.store_below (exact * rate) in
    let above₃ = numeric.store_above (exact * 100 + exact * rate) in
    let below₃ = numeric.store_below (exact * 100 + exact * rate) in (omega arith, omega arith)

-- From a subtotal of whole cents, as `recalculateTotals` has it, the total is exactly the subtotal
-- plus the tax, and the stored subtotal is the one that it was computed from.
pub totals_of_cents :
    (numeric : Numeric) (cents rate : ℕ)
    → let t = totals numeric (cents * 100) rate in
      (t.subtotal ≡ cents) × (t.total ≡ cents + t.tax_amount)
totals_of_cents numeric cents rate =
    let zero_stored = numeric.store_above 0 in
    let shift = numeric.store_shift cents 0 in
    let whole : cents * 100 * 100 ≡ 10000 * cents + 0 = omega arith in
    let taxed : cents * 100 * 100 + cents * 100 * rate ≡ 10000 * cents + cents * 100 * rate =
      omega arith in
    (
      ap numeric.store whole ∙ omega arith,
      ap numeric.store taxed ∙ numeric.store_shift cents (cents * 100 * rate),
    )

pub half_up_shift : (c x : ℕ) → (10000 * c + x + 5000) / 10000 ≡ c + (x + 5000) / 10000
half_up_shift c x = omega arith

pub half_up_above : (x : ℕ) → 10000 * ((x + 5000) / 10000) ≤ x + 5000
half_up_above x = omega arith

pub half_up_below : (x : ℕ) → x ≤ 10000 * ((x + 5000) / 10000) + 5000
half_up_below x = omega arith

-- PostgreSQL rounds a half away from zero.
abbrev pub half_up : Numeric
half_up = record {
  store = λ x. (x + 5000) / 10000;
  store_shift = λ c x. half_up_shift c x;
  store_above = λ x. half_up_above x;
  store_below = λ x. half_up_below x;
}

-- From prices and hours of two decimal places the stored columns need not add up: 0.25 hours at a
-- rate of 0.18 (a fee of 0.045) and a tax rate of 1 give 0.05 + 0.05, and a total of 0.09.
pub totals_drift :
    let t = totals half_up (25 * 18) 100 in (t.subtotal ≡ 5) × (t.tax_amount ≡ 5) × (t.total ≡ 9)
totals_drift = (refl, refl, refl)
