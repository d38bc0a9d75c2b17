-- ===== src/Core/Security/Sessions.antt =====
-- `SessionStore` of backend/app/core/security.py. A call runs under the store's lock, so it is one
-- step; `token_urlsafe(32)` and the time come as arguments, the time in seconds.
pub mod Expiry
use ai_document_ops_system.Prelude.{
  ℕ, ◌+◌, leb, Bool, Option, none, some, String, List, [], ◌∷◌, str_eq, if◌then◌else◌,
}
use ai_document_ops_system.Prelude.Text.{is_empty_text}
use ai_document_ops_system.Prelude.TextDict.{lookup, insert, remove}
use ai_document_ops_system.Core.Security.Context.{SecurityContext}

pub record SessionStore : Type 0 where
  pub ttl_seconds : ℕ
  pub sessions : List (String × (SecurityContext × ℕ))

-- `create`, at the time `current` and with the new session's identifier.
unfoldable pub create : String → ℕ → SecurityContext → SessionStore → SessionStore
unfolding insert
create session_id current context s = record s {
  sessions = insert session_id (context, current + s.ttl_seconds) s.sessions;
}

unfoldable pub get_entry :
    String → ℕ → Option (SecurityContext × ℕ) → SessionStore → Option SecurityContext × SessionStore
unfolding remove
get_entry session_id current none s = (none, s)
get_entry session_id current (some (context, expires_at)) s =
    if leb expires_at current
    then (none, record s { sessions = remove session_id s.sessions })
    else (some context, s)

unfoldable pub get : Option String → ℕ → SessionStore → Option SecurityContext × SessionStore
unfolding is_empty_text lookup get_entry
get none current s = (none, s)
get (some session_id) current s =
    if is_empty_text session_id
    then (none, s)
    else get_entry session_id current (lookup session_id s.sessions) s

unfoldable pub revoke : Option String → SessionStore → SessionStore
unfolding is_empty_text remove
revoke none s = s
revoke (some session_id) s =
    if is_empty_text session_id then s else record s { sessions = remove session_id s.sessions }
