-- ===== src/Runtime/Refuses.antt =====
-- Calls that leave the whole world alone, and calls that are refused without a trace.
use ai_document_ops_system.Prelude.{
  ◌≡◌, refl, ◌∙◌, subst, sym, Bool, true, false, Bool-cases, inl, inr, if◌then◌else◌,
}
use ai_document_ops_system.Core.Errors.{Error, Result, ok, err, is_ok}
use ai_document_ops_system.Runtime.{
  Tables, World, M, pure, raise, lift, resume, handle, try, read, close_transaction, ◌>>=◌,
}
use ai_document_ops_system.Runtime.Yields.{OfOk}

-- `m` changes nothing, neither a table nor the clock nor the queue.
pub record Silent {A : Type 0} (m : M A) : Type 0 where
  pub left_alone : (w : World) → (m w).1 ≡ w

-- Wherever `P` holds, `m` raises and changes nothing.
pub record Refuses {A : Type 0} (P : Tables → Type 0) (m : M A) : Type 0 where
  pub refused : (w : World) → P w.tables → (is_ok (m w).0 ≡ false) × ((m w).1 ≡ w)

-- Wherever `P` holds, `m` returns `a` or raises, and changes nothing.
pub record Tells {A : Type 0} (P : Tables → Type 0) (a : A) (m : M A) : Type 0 where
  pub told : (w : World) → P w.tables → OfOk (λ x. x ≡ a) (m w).0 × ((m w).1 ≡ w)

module _ {A : Type 0} where
  pub Silent-pure : (a : A) → Silent (pure a)
  Silent-pure a = record { left_alone = λ w. refl }

  pub Silent-lift : (r : Result A) → Silent (lift r)
  Silent-lift r = record { left_alone = λ w. refl }

  pub Silent-raise : (e : Error) → Silent (raise {A = A} e)
  Silent-raise e = record { left_alone = λ w. refl }

  pub Silent-read : (f : Tables → A) → Silent (read f)
  Silent-read f = record { left_alone = λ w. refl }

  pub Silent-if : (b : Bool) (m n : M A) → Silent m → Silent n → Silent (if b then m else n)
  Silent-if true m n h k = h
  Silent-if false m n h k = k

module _ {A B : Type 0} (f : A → M B) where
  resume-Silent : (r : Result A) (w : World) → ((a : A) → Silent (f a)) → (resume r f w).1 ≡ w
  resume-Silent (ok a) w h = (h a).left_alone w
  resume-Silent (err e) w h = refl

  resume_refused :
      {P : Tables → Type 0} (r : Result A) (w : World)
      → P w.tables
      → ((a : A) → Refuses P (f a))
      → (is_ok (resume r f w).0 ≡ false) × ((resume r f w).1 ≡ w)
  resume_refused (ok a) w p h = (h a).refused w p
  resume_refused (err e) w p h = (refl, refl)

  resume_told :
      {P : Tables → Type 0} (a : A) (r : Result A) (w : World)
      → OfOk (λ x. x ≡ a) r
      → P w.tables
      → Refuses P (f a)
      → (is_ok (resume r f w).0 ≡ false) × ((resume r f w).1 ≡ w)
  unfolding OfOk
  resume_told a (ok x) w known p h = rw known (h.refused w p)
  resume_told a (err e) w known p h = (refl, refl)

module _ {A B : Type 0} (m : M A) (f : A → M B) where
  pub Silent-bind : Silent m → ((a : A) → Silent (f a)) → Silent (m >>= f)
  Silent-bind s h = record { left_alone = λ w. resume-Silent f (m w).0 (m w).1 h ∙ s.left_alone w }

  pub Refuses-bind :
      {P : Tables → Type 0} → Silent m → ((a : A) → Refuses P (f a)) → Refuses P (m >>= f)
  Refuses-bind {P = P} s h = record {
    refused = λ w p.
        let (fails, same) =
          resume_refused f (m w).0 (m w).1 (subst (λ v. P v.tables) (sym (s.left_alone w)) p) h in
        (fails, same ∙ s.left_alone w);
  }

  -- What the first call tells is known to what follows.
  pub Refuses-told :
      {P : Tables → Type 0} (a : A) → Tells P a m → Refuses P (f a) → Refuses P (m >>= f)
  Refuses-told {P = P} a t h = record {
    refused = λ w p.
        let (known, same) = t.told w p in
        let (fails, kept) =
          resume_told f a (m w).0 (m w).1 known (subst (λ v. P v.tables) (sym same) p) h in
        (fails, kept ∙ same);
  }

module _ {A : Type 0} where
  handle-Silent :
      (r : Result A) (w : World) (h : Error → M A)
      → ((e : Error) → Silent (h e))
      → (handle r h w).1 ≡ w
  handle-Silent (ok a) w h k = refl
  handle-Silent (err e) w h k = (k e).left_alone w

  pub Silent-try :
      (m : M A) (h : Error → M A) → Silent m → ((e : Error) → Silent (h e)) → Silent (try m h)
  Silent-try m h s k = record {
    left_alone = λ w. handle-Silent (m w).0 (m w).1 h k ∙ s.left_alone w;
  }

pub Tells-read :
    {A : Type 0} {P : Tables → Type 0} (a : A) (f : Tables → A)
    → ((t : Tables) → P t → f t ≡ a)
    → Tells P a (read f)
unfolding OfOk
Tells-read a f h = record { told = λ w p. (h w.tables p, refl) }

-- A transaction that changed nothing leaves nothing changed, whether it is rolled back or not.
pub closed : (w : World) → (if w.rollback then record w { tables = w.tables } else w) ≡ w
closed w = elim (Bool-cases w.rollback) [ inl b ↦ rw b refl | inr b ↦ rw b refl ]

pub closed_same : {A : Type 0} (r : Result A) (w v : World) → v ≡ w → close_transaction r w v ≡ w
closed_same (ok i) w v h = h
closed_same (err e) w v h = rw h (closed w)

pub ruleset silent_rules =
    (Silent-pure, Silent-lift, Silent-raise, Silent-read, Silent-bind, Silent-if, Silent-try)
