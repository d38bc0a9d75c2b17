-- ===== src/Invoice/Decimal.antt =====
-- Python's `decimal.Decimal`, as the program uses it: finite values, `coefficient / 10 ^ places`.
-- The arithmetic is exact, which Python's is for results of at most 28 digits.
use ai_document_ops_system.Prelude.{ℕ, ◌+◌, ◌-◌, ◌^◌, Bool, max, if◌then◌else◌}
use ai_document_ops_system.Prelude.Int.{ℤ, pos, ◌+ℤ◌, ◌-ℤ◌, ◌*ℤ◌, ltb_ℤ}

pub record Decimal : Type 0 where
  pub coefficient : ℤ
  pub places : ℕ

-- The coefficient of the same value with `p` places, for `p` at least the value's own places.
unfoldable pub rescale : ℕ → Decimal → ℤ
rescale p a = a.coefficient *ℤ pos (10 ^ (p - a.places))

unfoldable pub add : Decimal → Decimal → Decimal
unfolding rescale
add a b =
    let p = max a.places b.places in record { coefficient = rescale p a +ℤ rescale p b; places = p }

unfoldable pub sub : Decimal → Decimal → Decimal
unfolding rescale
sub a b =
    let p = max a.places b.places in record { coefficient = rescale p a -ℤ rescale p b; places = p }

unfoldable pub mul : Decimal → Decimal → Decimal
mul a b = record { coefficient = a.coefficient *ℤ b.coefficient; places = a.places + b.places }

unfoldable pub abs : Decimal → Decimal
abs a = record a {
  coefficient = if ltb_ℤ a.coefficient (pos 0) then pos 0 -ℤ a.coefficient else a.coefficient;
}

-- `a > b`
unfoldable pub gt : Decimal → Decimal → Bool
unfolding rescale
gt a b = let p = max a.places b.places in ltb_ℤ (rescale p b) (rescale p a)
