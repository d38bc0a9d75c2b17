-- ===== src/Review/Approval.antt =====
-- What an approval needs and what it does.
use ai_document_ops_system.Prelude.{
  ℕ, String, none, some, [], ◌∷◌, ◌++◌, true, false, ◌≡◌, ◌↔◌, ◌⊎◌, inl, inr, refl, arith, str_eq,
  eq_iff, Option-cases, subst, sym, ap, ◌∙◌,
}
use ai_document_ops_system.Prelude.Dict.{lookup, insert}
use ai_document_ops_system.Core.Errors.{ok, is_ok}
use ai_document_ops_system.Core.Security.{SecurityContext, require_any_role}
use ai_document_ops_system.Documents.Contracts.{StoredExtraction}
use ai_document_ops_system.Documents.Models.{DocumentRecord, ReviewTask}
use ai_document_ops_system.Documents.Status.{status_eq_iff, approved, needs_review, can_transition}
use ai_document_ops_system.Documents.Workflow.Effect.{transition_allowed, moved, move_event}
use ai_document_ops_system.Invoice.Validation.{has_errors}
use ai_document_ops_system.Review.Service.{approve, reviewable, get_or_create_task, close_task}
use ai_document_ops_system.Documents.Workflow.{transition}
use ai_document_ops_system.Runtime.{Tables, World, M, ◌>>◌}

abbrev pub CanReview : SecurityContext → Type 0
CanReview context =
    (context.role ≡ "reviewer") ⊎ ((context.role ≡ "admin") × (context.is_admin ≡ true))

-- The document is there, in the caller's workspace, waits for a review and was extracted with no
-- error; and the caller is a reviewer.
pub record IsApprovable (id : ℕ) (context : SecurityContext) (t : Tables) : Type 0 where
  pub document : DocumentRecord
  pub found : lookup id t.documents ≡ some document
  pub same_workspace : document.workspace_id ≡ context.workspace_id
  pub waiting : document.status ≡ needs_review
  pub stored : StoredExtraction
  pub extracted : lookup id t.extractions ≡ some stored
  pub no_errors : has_errors stored.validation_report ≡ false
  pub reviewer : CanReview context

admin_not_reviewer : (role : String) → str_eq role "admin" ≡ true → str_eq role "reviewer" ≡ false
admin_not_reviewer role h =
    subst (λ r. str_eq r "reviewer" ≡ false) (sym ((eq_iff role "admin").0 h)) refl

roles_iff :
    (context : SecurityContext)
    → (is_ok (require_any_role context ("admin" ∷ "reviewer" ∷ [])) ≡ true) ↔ CanReview context
unfolding require_any_role
roles_iff context = ground (
  arith,
  eq_iff context.role "admin",
  eq_iff context.role "reviewer",
  admin_not_reviewer context.role,
)

role_ok :
    (context : SecurityContext)
    → (require_any_role context ("admin" ∷ "reviewer" ∷ []) ≡ ok tt) ↔ CanReview context
role_ok context = ground (arith, roles_iff context)

-- The guards before the transaction, one document given.
reviewable_iff :
    (id : ℕ) (context : SecurityContext) (w : World) (d : DocumentRecord)
    → lookup id w.tables.documents ≡ some d
    → (is_ok (reviewable id context w).0 ≡ true)
      ↔ (CanReview context × (d.workspace_id ≡ context.workspace_id) × (d.status ≡ needs_review))
unfolding reviewable
reviewable_iff id context w d found = ground (
  arith,
  role_ok context,
  eq_iff d.workspace_id context.workspace_id,
  status_eq_iff d.status needs_review,
)

reviewable_found :
    (id : ℕ) (context : SecurityContext) (w : World)
    → is_ok (reviewable id context w).0 ≡ true
    → (d : DocumentRecord) × (lookup id w.tables.documents ≡ some d)
      × (reviewable id context w ≡ (ok d, w))
unfolding reviewable
reviewable_found id context w h = elim (Option-cases (lookup id w.tables.documents)) [
  | inl missing ↦ absurd (ground arith)
  | inr (d, found) ↦ (d, found, ground arith)
]

-- The task is found or made, without a write to any table.
task_lem :
    (id : ℕ) (w : World)
    → (task : ReviewTask) × (get_or_create_task id w ≡ (ok task, (get_or_create_task id w).1))
      × ((get_or_create_task id w).1.tables ≡ w.tables)
unfolding get_or_create_task
task_lem id w = elim (Option-cases (lookup id w.tables.reviews)) [
  | inl missing ↦ rw missing (_, refl, refl)
  | inr (task, found) ↦ rw found (task, refl, refl)
]

may_approve :
    (d : DocumentRecord) → d.status ≡ needs_review → can_transition d.status approved ≡ true
unfolding can_transition
may_approve d h = rw h refl

-- The tables after an approval that started with the task found in `w`.
record Effect (d : DocumentRecord) (context : SecurityContext) (before : World) (after : Tables)
    : Type 0 where
  pub documents_lem :
      after.documents ≡ insert d.id (moved d approved before) before.tables.documents
  pub audits_lem :
      after.audits ≡ before.tables.audits ++ move_event d approved context.actor none before ∷ []
  pub extractions_lem : after.extractions ≡ before.tables.extractions
  pub jobs_lem : after.jobs ≡ before.tables.jobs

-- The transaction once the task is at hand.
abbrev body : DocumentRecord → SecurityContext → ReviewTask → M ReviewTask
body d context task = do
  transition d approved context.actor none
  close_task task "approved" task.reviewer_notes context

body_lem :
    (d : DocumentRecord) (context : SecurityContext) (task : ReviewTask) (w : World)
    → d.status ≡ needs_review
    → (closed : ReviewTask) × (after : World) × (body d context task w ≡ (ok closed, after))
      × Effect d context w after.tables
unfolding close_task
body_lem d context task w h =
    rw (transition_allowed d approved context.actor none w (may_approve d h)) (
      _,
      _,
      refl,
      record { documents_lem = refl; audits_lem = refl; extractions_lem = refl; jobs_lem = refl },
    )

reviewable_returns :
    (id : ℕ) (context : SecurityContext) (w : World) (d : DocumentRecord)
    → lookup id w.tables.documents ≡ some d
    → CanReview context
    → d.workspace_id ≡ context.workspace_id
    → d.status ≡ needs_review
    → reviewable id context w ≡ (ok d, w)
unfolding reviewable
reviewable_returns id context w d found role workspace waiting = ground (
  arith,
  role_ok context,
  eq_iff d.workspace_id context.workspace_id,
  status_eq_iff d.status needs_review,
)

-- The approval of a document that may be approved goes through and moves it to `approved`: of the
-- documents only this one is written, one audit event is appended, and the extractions and the jobs
-- are left alone.
pub approve_approvable :
    (id : ℕ) (context : SecurityContext) (w : World) (a : IsApprovable id context w.tables)
    → let before = (get_or_create_task id w).1 in
      let after = (approve id context w).1.tables in
      (is_ok (approve id context w).0 ≡ true)
      × (after.documents
          ≡ insert a.document.id (moved a.document approved before) w.tables.documents)
      × (after.audits
          ≡ w.tables.audits ++ move_event a.document approved context.actor none before ∷ [])
      × (after.extractions ≡ w.tables.extractions)
      × (after.jobs ≡ w.tables.jobs)
unfolding approve
approve_approvable id context w a =
    let guards =
      reviewable_returns id context w a.document a.found a.reviewer a.same_workspace a.waiting in
    let (task, taken, same) = task_lem id w in
    let before = (get_or_create_task id w).1 in
    let (closed, after, ran, effect) = body_lem a.document context task before a.waiting in
    rw (guards, a.extracted, a.no_errors, taken, ran)
      (
        refl,
        effect.documents_lem
            ∙ ap
                (λ (t : Tables).
                  insert a.document.id (moved a.document approved before) t.documents)
                same,
        effect.audits_lem
            ∙ ap
                (λ (t : Tables).
                  t.audits ++ move_event a.document approved context.actor none before ∷ [])
                same,
        effect.extractions_lem ∙ ap (λ (t : Tables). t.extractions) same,
        effect.jobs_lem ∙ ap (λ (t : Tables). t.jobs) same,
      )

guards_held :
    (id : ℕ) (context : SecurityContext) (w : World) (d : DocumentRecord) (s : StoredExtraction)
    → lookup id w.tables.documents ≡ some d
    → lookup id w.tables.extractions ≡ some s
    → is_ok (approve id context w).0 ≡ true
    → (is_ok (reviewable id context w).0 ≡ true) × (has_errors s.validation_report ≡ false)
unfolding approve reviewable
guards_held id context w d s found extracted h = ground arith

stored_if_approved :
    (id : ℕ) (context : SecurityContext) (w : World)
    → is_ok (approve id context w).0 ≡ true
    → (d : DocumentRecord) × (s : StoredExtraction) × (lookup id w.tables.documents ≡ some d)
      × (lookup id w.tables.extractions ≡ some s)
unfolding approve reviewable
stored_if_approved id context w h = elim (Option-cases (lookup id w.tables.documents)) [
  | inl missing ↦ absurd (ground arith)
  | inr (d, found) ↦ elim (Option-cases (lookup id w.tables.extractions)) [
    | inl nothing ↦ absurd (ground arith)
    | inr (s, extracted) ↦ (d, s, found, extracted)
  ]
]

-- An approval goes through only for a document that may be approved: one of the caller's workspace
-- that waits for review and whose stored extraction has no error, the caller being a reviewer or an
-- administrator.
pub approve_only :
    (id : ℕ) (context : SecurityContext) (w : World)
    → is_ok (approve id context w).0 ≡ true
    → IsApprovable id context w.tables
approve_only id context w h =
    let (d, s, found, extracted) = stored_if_approved id context w h in
    let (guarded, clean) = guards_held id context w d s found extracted h in
    let (role, workspace, waiting) = (reviewable_iff id context w d found).0 guarded in
    record {
      document = d;
      found = found;
      same_workspace = workspace;
      waiting = waiting;
      stored = s;
      extracted = extracted;
      no_errors = clean;
      reviewer = role;
    }
