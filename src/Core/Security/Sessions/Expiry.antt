-- ===== src/Core/Security/Sessions/Expiry.antt =====
-- The life of a session: created, read until it expires or is revoked.
use ai_document_ops_system.Prelude.{
  ℕ, ◌+◌, leb, false, none, some, String, ◌≡◌, if◌then◌else◌, arith,
}
use ai_document_ops_system.Prelude.Text.{is_empty_text}
use ai_document_ops_system.Prelude.TextDict.{lookup-insert, lookup-remove}
use ai_document_ops_system.Core.Security.Context.{SecurityContext}
use ai_document_ops_system.Core.Security.Sessions.{SessionStore, create, get_entry, get, revoke}

-- A session read after its creation gives the caller it was created for before its time to live is
-- over, and from then on gives nobody.
pub get-create :
    (id : String) (created at : ℕ) (c : SecurityContext) (s : SessionStore)
    → is_empty_text id ≡ false
    → (get (some id) at (create id created c s)).0
      ≡ (if leb (created + s.ttl_seconds) at then none else some c)
unfolding get get_entry create
get-create id created at c s n =
    ground (arith, n, lookup-insert id (c, created + s.ttl_seconds) s.sessions)

-- A session that was revoked is gone: whenever it is read
-- afterwards, it gives nobody.
revoked-gone :
    (id : String) (at : ℕ) (s : SessionStore)
    → is_empty_text id ≡ false
    → (get (some id) at (revoke (some id) s)).0 ≡ none
unfolding get get_entry revoke
revoked-gone id at s n = ground (arith, n, lookup-remove id s.sessions)
