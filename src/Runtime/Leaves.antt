-- ===== src/Runtime/Leaves.antt =====
-- What holds of the tables after a call that returns.
use ai_document_ops_system.Prelude.{◌≡◌, refl, true}
use ai_document_ops_system.Core.Errors.{Result, ok, err, is_ok}
use ai_document_ops_system.Runtime.{Tables, World, M, resume, close_transaction, transaction, ◌>>=◌}
use ai_document_ops_system.Runtime.Keeps.{Keeps}
use ai_document_ops_system.Runtime.Yields.{OfOk, Yields}

-- Wherever `m` returns, `P` holds of the tables that it leaves.
pub record Leaves {A : Type 0} (P : Tables → Type 0) (m : M A) : Type 0 where
  pub left : (w : World) → is_ok (m w).0 ≡ true → P (m w).1.tables

module _ {A : Type 0} (P : Tables → Type 0) where
  closed :
      (r : Result A) (before w : World)
      → is_ok r ≡ true
      → P w.tables
      → P (close_transaction r before w).tables
  closed (ok a) before w h p = p
  closed (err e) before w h p = cc

pub Leaves-transaction :
    {A : Type 0} {P : Tables → Type 0} (m : M A) → Leaves P m → Leaves P (transaction m)
unfolding transaction
Leaves-transaction {P = P} m l = record { left = λ w h. closed P (m w).0 w (m w).1 h (l.left w h) }

module _ {A B : Type 0} {P : Tables → Type 0} (m : M A) (f : A → M B) where
  resume-last :
      (r : Result A) (w : World)
      → ((a : A) → Leaves P (f a))
      → is_ok (resume r f w).0 ≡ true
      → P (resume r f w).1.tables
  resume-last (ok a) w k h = (k a).left w h
  resume-last (err e) w k h = cc

  -- The last call is what counts.
  pub Leaves-last : ((a : A) → Leaves P (f a)) → Leaves P (m >>= f)
  Leaves-last k = record { left = λ w h. resume-last (m w).0 (m w).1 k h }

  resume-then :
      (r : Result A) (w : World)
      → (is_ok r ≡ true → P w.tables)
      → ((a : A) → Keeps P (f a))
      → is_ok (resume r f w).0 ≡ true
      → P (resume r f w).1.tables
  resume-then (ok a) w p k h = (k a).kept w (p refl)
  resume-then (err e) w p k h = cc

  -- What the first call leaves, the rest keeps.
  pub Leaves-then : Leaves P m → ((a : A) → Keeps P (f a)) → Leaves P (m >>= f)
  Leaves-then l k = record { left = λ w h. resume-then (m w).0 (m w).1 (l.left w) k h }

module _ {A B : Type 0} {P : Tables → Type 0} {Q : A → Type 0} (m : M A) (f : A → M B) where
  resume-known :
      (r : Result A) (w : World)
      → OfOk Q r
      → ((a : A) → Q a → Leaves P (f a))
      → is_ok (resume r f w).0 ≡ true
      → P (resume r f w).1.tables
  unfolding OfOk
  resume-known (ok a) w q k h = (k a q).left w h
  resume-known (err e) w q k h = cc

  -- What the first call yields may be used of the rest.
  pub Leaves-known : Yields Q m → ((a : A) → Q a → Leaves P (f a)) → Leaves P (m >>= f)
  Leaves-known y k = record { left = λ w h. resume-known (m w).0 (m w).1 (y.yielded w) k h }
