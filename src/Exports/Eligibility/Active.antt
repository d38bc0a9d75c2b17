-- ===== src/Exports/Eligibility/Active.antt =====
-- The batches that hold a document, and the documents of a workspace, by an account of their own.
use ai_document_ops_system.Prelude.{
  ℕ, Bool, true, false, not, ◌&&◌, ◌||◌, Option, some, String, List, [], ◌∷◌, ◌++◌, ◌==◌, ◌≡◌, ◌∙◌,
  refl, arith, if◌then◌else◌, any, any-append, any-select, select, map, str_eq, eq_iff, opt_eq,
}
use ai_document_ops_system.Prelude.Dict.{lookup, values}
use ai_document_ops_system.Documents.Models.{DocumentRecord}
use ai_document_ops_system.Exports.Eligibility.{
  contains_key, set_defaults, is_excluded, is_active, membership_from, active_membership, available,
  workspace_membership,
}
use ai_document_ops_system.Exports.Models.{ExportBatchRecord, ExportBatchStatus}
use ai_document_ops_system.Exports.Repository.{insert_latest, sort_latest}
use ai_document_ops_system.Runtime.{Tables}

-- A batch with this status keeps its documents to itself.
abbrev pub keeps : ExportBatchStatus → Bool
keeps ExportBatchStatus.draft = false
keeps ExportBatchStatus.ready = true
keeps ExportBatchStatus.running = true
keeps ExportBatchStatus.completed = false
keeps ExportBatchStatus.failed = true

abbrev pub holds : String → Option ℕ → ℕ → ExportBatchRecord → Bool
holds workspace_id exclude id b =
    str_eq b.workspace_id workspace_id
    && (not (opt_eq (some b.id) exclude) && keeps b.status && any (λ x. x == id) b.document_ids)

-- The same of a batch that is known to be of the workspace.
abbrev in_batch : Option ℕ → ℕ → ExportBatchRecord → Bool
in_batch exclude id b =
    not (opt_eq (some b.id) exclude) && keeps b.status && any (λ x. x == id) b.document_ids

abbrev pub is_held : String → Option ℕ → ℕ → Tables → Bool
is_held workspace_id exclude id t = any (holds workspace_id exclude id) t.batches

keeps_lem : (b : ExportBatchRecord) → is_active b ≡ keeps b.status
unfolding is_active
keeps_lem b = ground arith

key_eq : (x id : ℕ) (m : List (ℕ × ℕ)) → (x == id) ≡ true → contains_key x m ≡ contains_key id m
key_eq x id [] h = refl
key_eq x id (e ∷ m) h = ground (arith, h, key_eq x id m)

one_more :
    (batch_id id x : ℕ) (m : List (ℕ × ℕ))
    → contains_key id (if contains_key x m then m else m ++ (x, batch_id) ∷ [])
      ≡ (contains_key id m || x == id)
one_more batch_id id x m =
    ground (arith, key_eq x id m, any-append (λ (e : ℕ × ℕ). e.0 == id) m ((x, batch_id) ∷ []))

set_defaults_lem :
    (batch_id id : ℕ) (ids : List ℕ) (m : List (ℕ × ℕ))
    → contains_key id (set_defaults batch_id ids m) ≡ (contains_key id m || any (λ x. x == id) ids)
unfolding set_defaults
set_defaults_lem batch_id id [] m = ground arith
set_defaults_lem batch_id id (x ∷ ids) m =
    let next = if contains_key x m then m else m ++ (x, batch_id) ∷ [] in
    rw (set_defaults_lem batch_id id ids next) (ground (arith, one_more batch_id id x m))

membership_from_lem :
    (exclude : Option ℕ) (id : ℕ) (bs : List ExportBatchRecord) (m : List (ℕ × ℕ))
    → contains_key id (membership_from exclude bs m)
      ≡ (contains_key id m || any (in_batch exclude id) bs)
unfolding membership_from is_excluded
membership_from_lem exclude id [] m = ground arith
membership_from_lem exclude id (b ∷ bs) m =
    let next = if is_excluded exclude b then m else set_defaults b.id b.document_ids m in
    rw (membership_from_lem exclude id bs next)
      (ground (arith, keeps_lem b, set_defaults_lem b.id id b.document_ids m))

any-insert_latest :
    (p : ExportBatchRecord → Bool) (b : ExportBatchRecord) (cs : List ExportBatchRecord)
    → any p (insert_latest b cs) ≡ (p b || any p cs)
unfolding insert_latest
any-insert_latest p b [] = refl
any-insert_latest p b (c ∷ cs) = ground (arith, any-insert_latest p b cs)

any-sort_latest :
    (p : ExportBatchRecord → Bool) (bs : List ExportBatchRecord) → any p (sort_latest bs) ≡ any p bs
unfolding sort_latest
any-sort_latest p [] = refl
any-sort_latest p (b ∷ bs) =
    ground (arith, any-sort_latest p bs, any-insert_latest p b (sort_latest bs))

-- A document is in the membership of the active batches exactly where one of them holds it.
pub membership_lem :
    (t : Tables) (workspace_id : String) (exclude : Option ℕ) (id : ℕ)
    → contains_key id (workspace_membership t workspace_id exclude)
      ≡ is_held workspace_id exclude id t
unfolding active_membership
membership_lem t workspace_id exclude id =
    membership_from_lem exclude id
      (sort_latest (select (λ b. str_eq b.workspace_id workspace_id) t.batches)) []
    ∙ any-sort_latest (in_batch exclude id)
        (select (λ b. str_eq b.workspace_id workspace_id) t.batches)
    ∙ any-select (λ b. str_eq b.workspace_id workspace_id) (in_batch exclude id) t.batches

in_workspace :
    (workspace_id : String) (id : ℕ) (ds : List DocumentRecord) (d : DocumentRecord)
    → lookup id (map (λ d. (d.id, d)) (select (λ d. str_eq d.workspace_id workspace_id) ds))
      ≡ some d
    → d.workspace_id ≡ workspace_id
unfolding lookup
in_workspace workspace_id id [] d h = cc
in_workspace workspace_id id (x ∷ ds) d h =
    ground (arith, h, eq_iff x.workspace_id workspace_id, in_workspace workspace_id id ds d)

pub available_in :
    (t : Tables) (workspace_id : String) (id : ℕ) (d : DocumentRecord)
    → available t workspace_id id ≡ some d
    → d.workspace_id ≡ workspace_id
unfolding available
available_in t workspace_id id d h = in_workspace workspace_id id (values t.documents) d h
