-- ===== src/Sandbox/Scopes.antt =====
-- internal/sandbox/scope.go: the scopes of parallel test runs. The engine here is the part that
-- scopes reach: the registry, the journal, the windows of the faults and of the rules, and the
-- recordings.
pub mod Registry
pub mod Forget
use pikopod.Base.{
  ℕ, ◌+◌, Bool, true, false, not, ◌&&◌, Option, none, some, List, [], ◌∷◌, ◌==◌, leb, if◌then◌else◌,
  length, bytes_eq, map,
}
use pikopod.Base.Map.{Map, lookup, insert, delete, has}
use pikopod.Base.Map.Oldest.{oldest}
use pikopod.Base.Bytes.{Bytes}
use pikopod.Sandbox.Journal.{Journal}
use pikopod.Sandbox.Journal as Journal
use pikopod.Sandbox.Windows.{drop_prefixed, scope_prefix}
use pikopod.Sandbox.Faults.{FaultRule}
use pikopod.Replay.{ReplaySet}
use pikopod.Replay as Replay

abbrev pub max_scopes : ℕ
max_scopes = 256

pub record ScopeRegistry : Type 0 where
  pub seen : Map Bytes ℕ
  pub tick : ℕ
  pub evicted : ℕ

pub record Engine : Type 0 where
  pub scopes : ScopeRegistry
  pub journal : Journal
  pub faults : List FaultRule
  pub rule_windows : List (Map Bytes ℕ)
  pub recordings : Option ReplaySet

unfoldable pub forget_rule : Bytes → FaultRule → FaultRule
unfolding drop_prefixed
forget_rule prefix f = record f { consumed = drop_prefixed f.consumed prefix }

-- `forgetScope`
unfoldable pub forget_scope : Engine → Bytes → Engine
unfolding forget_rule scope_prefix
forget_scope e scope =
    let prefix = scope_prefix scope in
    record e {
      journal = Journal.drop_scope e.journal scope;
      faults = map (forget_rule prefix) e.faults;
      rule_windows = map (λ m. drop_prefixed m prefix) e.rule_windows;
      recordings = elim e.recordings [ none ↦ none | some s ↦ some (Replay.forget_scope s scope) ];
    }

-- The scope that has to make room for a new one, if the registry is full; the empty text for none.
unfoldable pub victim_for : ScopeRegistry → Bytes → Bytes
unfolding oldest has
victim_for r scope =
    if not (has scope r.seen) && leb max_scopes (length r.seen)
    then oldest (λ n. n) [] 0 r.seen
    else []

-- The part of `touchScope` under the registry's mutex.
unfoldable pub touch_registry : ScopeRegistry → Bytes → ScopeRegistry
unfolding victim_for insert delete
touch_registry r scope =
    let full = not (has scope r.seen) && leb max_scopes (length r.seen) in
    let kept = if full then delete (victim_for r scope) r.seen else r.seen in
    record {
      seen = insert scope (r.tick + 1) kept;
      tick = r.tick + 1;
      evicted = if full then r.evicted + 1 else r.evicted;
    }

-- `touchScope`
unfoldable pub touch_scope : Engine → Bytes → Engine
unfolding touch_registry forget_scope
touch_scope e scope =
    let victim = victim_for e.scopes scope in
    let touched = record e { scopes = touch_registry e.scopes scope } in
    if scope == [] then e else if victim == [] then touched else forget_scope touched victim

-- `resetScopes`
unfoldable pub reset_scopes : ScopeRegistry → ScopeRegistry
reset_scopes r = record r { seen = []; evicted = 0 }
