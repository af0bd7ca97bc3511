-- ===== src/Sandbox/Scopes/Forget.antt =====
-- A scope that is evicted is forgotten, and no other is (internal/sandbox/scope.go, `touchScope`).
use pikopod.Base.{ℕ, ◌≡◌, ◌≢◌, true, [], ◌==◌, arith, if◌then◌else◌, bytes_eq, bytes_beq_iff}
use pikopod.Base.Bytes.{Bytes}
use pikopod.Sandbox.Journal.{list_entries}
use pikopod.Sandbox.Journal.Queries.{list-drop_scope}
use pikopod.Sandbox.Scopes.{Engine, touch_scope, victim_for}

-- Touching a named scope, which a request does before it is handled and recorded, leaves what the
-- journal shows to every named scope as it was, except to the scope that is evicted to make room, to
-- which it shows nothing.
pub touch_scope-journal :
    (e : Engine) (scope other : Bytes) (limit : ℕ)
    → scope ≢ []
    → other ≢ []
    → (list_entries (touch_scope e scope).journal other true limit).0 ≡ (
        if other == victim_for e.scopes scope
        then []
        else (list_entries e.journal other true limit).0)
unfolding touch_scope
touch_scope-journal e scope other limit ne named = ground (
  arith,
  list-drop_scope e.journal (victim_for e.scopes scope) other limit,
  bytes_beq_iff scope [],
  bytes_beq_iff (victim_for e.scopes scope) [],
  bytes_beq_iff other (victim_for e.scopes scope),
)
