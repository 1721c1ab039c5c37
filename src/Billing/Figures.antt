-- ===== src/Billing/Figures.antt =====
-- The arithmetic of src/modules/billing/invoice.service.ts. Decimal computes it exactly: a product
-- of two columns has four decimal places, and a product of three has six. What rounds is the
-- database, when a value is stored in a column of two places.
pub mod Rounding
use corporate_lawyers_backen.Prelude.{
  ℕ, ◌+◌, ◌-◌, ◌*◌, ◌/◌, ◌≤◌, List, [], ◌∷◌, ◌++◌, ◌≡◌, sum_by, map, arith,
}
use corporate_lawyers_backen.World.{TimeEntry, Expense, InvoiceItem}

-- PostgreSQL's cast of a numeric to numeric(12, 2), from millionths to hundredths: it rounds to a
-- nearest value, and hundredths that stand in front are kept.
pub record Numeric : Type 0 where
  pub store : ℕ → ℕ
  pub store_shift : (c x : ℕ) → store (10000 * c + x) ≡ c + store x
  pub store_above : (x : ℕ) → 10000 * store x ≤ x + 5000
  pub store_below : (x : ℕ) → x ≤ 10000 * store x + 5000

pub record Item : Type 0 where
  pub description : ℕ
  pub quantity : ℕ
  pub unit_price : ℕ

-- `quantity * unitPrice`, in ten-thousandths.
abbrev pub amount : Item → ℕ
amount item = item.quantity * item.unit_price

abbrev pub time_entry_item : TimeEntry → Item
time_entry_item e = record { description = e.description; quantity = e.hours; unit_price = e.rate }

-- The quantity is 1.
abbrev pub expense_item : Expense → Item
expense_item e = record { description = e.description; quantity = 100; unit_price = e.amount }

-- The subtotal of the items, in ten-thousandths.
abbrev pub subtotal_of : List Item → ℕ
subtotal_of items = sum_by amount items

-- 0.16
abbrev pub default_tax_rate : ℕ
default_tax_rate = 16

pub record Totals : Type 0 where
  pub subtotal : ℕ
  pub tax_amount : ℕ
  pub total : ℕ

module _ (numeric : Numeric) where
  -- The three columns, from an exact subtotal in ten-thousandths and a tax rate in hundredths.
  abbrev pub totals : ℕ → ℕ → Totals
  totals exact rate = record {
    subtotal = numeric.store (exact * 100);
    tax_amount = numeric.store (exact * rate);
    total = numeric.store (exact * 100 + exact * rate);
  }

  -- The stored amount of an item.
  abbrev pub stored_amount : Item → ℕ
  stored_amount item = numeric.store (amount item * 100)
