-- ===== src/Invoice/Near.antt =====
-- Two decimals within a hundredth of one another, stated by integers, and the test that the rules
-- make of it.
use native.Mathlib.Nat.{pow-suc}
use ai_document_ops_system.Prelude.{
  ℕ, zero, suc, ◌*◌, ◌^◌, ◌≤◌, ◌-◌, ◌≡◌, ◌↔◌, refl, false, arith, max, ltb,
}
use ai_document_ops_system.Prelude.Int.{ℤ, pos, negsuc, ◌-ℤ◌, ◌*ℤ◌}
use ai_document_ops_system.Invoice.Decimal.{Decimal, rescale, sub, abs, gt}
use ai_document_ops_system.Invoice.Validation.{money_tolerance, differs}

-- The size of an integer.
abbrev pub size : ℤ → ℕ
size (pos n) = n
size (negsuc n) = suc n

-- The difference of the coefficients, brought to the same places, is at most a hundredth of a unit.
abbrev pub Near : Decimal → Decimal → Type 0
Near a b = let p = max a.places b.places in 100 * size (rescale p a -ℤ rescale p b) ≤ 10 ^ p

places :
    (p : ℕ)
    → (max (suc (suc p)) 2 ≡ suc (suc p)) × (suc (suc p) - 2 ≡ p) × (suc (suc p) - suc (suc p) ≡ 0)
places p = (omega arith, omega arith, omega arith)

hundredfold : (p : ℕ) → 10 ^ suc (suc p) ≡ 100 * 10 ^ p
hundredfold p = rw (pow-suc, pow-suc) (omega arith)

-- |d| / 10 ^ p > 1 / 100, at the places that both sides have in common.
exceeds : (p n : ℕ) → ltb (10 ^ (max p 2 - 2)) (n * 10 ^ (max p 2 - p)) ≡ false → 100 * n ≤ 10 ^ p
exceeds zero n h = ground arith
exceeds (suc zero) n h = ground arith
exceeds (suc (suc p)) n h =
    let (top, over, under) = places p in
    let k = rw (top, over, under) at h in grind (arith, hundredfold p)

within : (p n : ℕ) → 100 * n ≤ 10 ^ p → ltb (10 ^ (max p 2 - 2)) (n * 10 ^ (max p 2 - p)) ≡ false
within zero n h = ground arith
within (suc zero) n h = ground arith
within (suc (suc p)) n h =
    let (top, over, under) = places p in rw (top, over, under) (ground (arith, hundredfold p))

-- The test of the rules as a comparison of natural numbers.
size_scaled : (x : ℤ) (k : ℕ) → size (x *ℤ pos k) ≡ size x * k
unfolding ◌*ℤ◌
size_scaled (pos n) k = grind arith
size_scaled (negsuc n) k = grind arith

size-abs :
    (d : ℤ) (p : ℕ) → (abs (record { coefficient = d; places = p })).coefficient ≡ pos (size d)
unfolding abs ◌-ℤ◌
size-abs (pos n) p = ground arith
size-abs (negsuc n) p = ground arith

places-abs : (a : Decimal) → (abs a).places ≡ a.places
unfolding abs
places-abs a = refl

gt_tolerance :
    (a : Decimal) (n : ℕ)
    → a.coefficient ≡ pos n
    → gt a money_tolerance ≡ ltb (10 ^ (max a.places 2 - 2)) (n * 10 ^ (max a.places 2 - a.places))
unfolding gt rescale ◌*ℤ◌
gt_tolerance a n e = rw (e, rescale) (ground arith)

differs_lem :
    (a b : Decimal)
    → let p = max a.places b.places in
      differs a b
      ≡ ltb (10 ^ (max p 2 - 2)) (size (rescale p a -ℤ rescale p b) * 10 ^ (max p 2 - p))
unfolding differs sub abs ◌-ℤ◌
differs_lem a b =
    let d = sub a b in gt_tolerance (abs d) (size d.coefficient) (size-abs d.coefficient d.places)

-- The rules take two amounts to differ exactly if they are more than a hundredth apart.
pub differs-Near : (a b : Decimal) → (differs a b ≡ false) ↔ Near a b
differs-Near a b =
    let p = max a.places b.places in
    let n = size (rescale p a -ℤ rescale p b) in rw differs_lem ((exceeds p n), (within p n))
