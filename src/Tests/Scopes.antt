-- ===== src/Tests/Scopes.antt =====
-- Scopes and recorded identifiers on concrete inputs.
use pikopod.Base.{
  Option, List, sym, ap, ◌∙◌, true, ℕ, ◌+◌, ◌≤◌, ◌≡◌, ◌≢◌, refl, not, ◌&&◌, none, some, [], ◌∷◌,
  ◌==◌, arith, if◌then◌else◌, bytes_eq, All, map, length,
}
use pikopod.Base.Map.{
  Map, lookup, has, insert, delete, lookup-insert, lookup-delete, insert-IsMap, delete-IsMap, IsMap,
}
use pikopod.Base.Bytes.{Bytes, codes, split, join, slash}
use pikopod.Sandbox.Journal.{Journal, list_entries}
use pikopod.Sandbox.Journal as Journal
use pikopod.Sandbox.Scopes.{
  ScopeRegistry, Engine, max_scopes, victim_for, touch_registry, touch_scope,
}
use pikopod.Sandbox.Scopes.Registry as Registry
use pikopod.Sandbox.Scopes.Registry.{touch_registry_lru}
use pikopod.Sandbox.Scopes.Forget.{touch_scope-journal}
use pikopod.Sandbox.RecordedIds.{
  IdTable, RecordedId, RecordedIds, remember_recorded_id, load_recorded_ids, rewrite_path,
}
use pikopod.Sandbox.RecordedIds.Lru as Lru
use pikopod.Sandbox.RecordedIds.Lru.{remember_all, remember-IsValid, load-remembered}
use pikopod.Sandbox.RecordedIds.Rewrite.{resolved, rewrite_path_lem}

abbrev registry : ScopeRegistry
registry = record { seen = (codes "a", 1) ∷ (codes "b", 2) ∷ []; tick = 2; evicted = 0 }

registry_IsValid : Registry.IsValid registry
registry_IsValid = record {
  bounded = omega arith;
  keyed = unfold has in (refl, (refl, tt));
  named = (λ e. ground (arith, e), (λ e. ground (arith, e), tt));
  past = (omega arith, (omega arith, tt));
}

touch_registry_lru_example :
    Registry.IsValid (touch_registry registry (codes "c"))
    × (lookup (codes "a") (touch_registry registry (codes "c")).seen ≡ (
        if codes "c" == codes "a"
        then some (2 + 1)
        else if (victim_for registry (codes "c") == codes "a") && not (codes "a" == [])
        then none
        else lookup (codes "a") registry.seen))
    × (victim_for registry (codes "c") ≢ []
        → (lookup (codes "c") registry.seen ≡ none)
          × (length registry.seen ≡ max_scopes)
          × (w : ℕ) × (lookup (victim_for registry (codes "c")) registry.seen ≡ some w)
          × All (λ (p : Bytes × ℕ). w ≤ p.1) registry.seen)
touch_registry_lru_example =
    touch_registry_lru registry (codes "c") (codes "a") (λ e. ground (arith, e)) registry_IsValid

abbrev engine : Engine
engine = record {
  scopes = registry;
  journal = Journal.empty;
  faults = [];
  rule_windows = [];
  recordings = none;
}

touch_scope-journal_example :
    (list_entries (touch_scope engine (codes "c")).journal (codes "a") true 5).0 ≡ (
      if codes "a" == victim_for registry (codes "c")
      then []
      else (list_entries Journal.empty (codes "a") true 5).0)
touch_scope-journal_example =
    touch_scope-journal engine (codes "c") (codes "a") 5 (λ e. ground (arith, e))
      (λ e. ground (arith, e))

abbrev or_rows : Map Bytes RecordedId → Option (Map Bytes RecordedId) → Map Bytes RecordedId
or_rows m none = m
or_rows m (some n) = n

abbrev ap_rows : Option ((m : Map Bytes RecordedId) × IsMap m) → Option (Map Bytes RecordedId)
ap_rows none = none
ap_rows (some t) = some t.0

-- A table of rows in which a token stands once.
abbrev rows_table : IdTable
rows_table = record {
  Table = (m : Map Bytes RecordedId) × IsMap m;
  put = λ t k v. some (insert k v t.0, insert-IsMap k v t.0 t.1);
  remove = λ t k. some (delete k t.0, delete-IsMap k t.0 t.1);
  list_rows = λ t. some t.0;
  rows = λ t. t.0;
  rows-IsMap = λ t. t.1;
  list-rows = λ t m e. sym (ap (or_rows []) e);
  lookup-put =
      λ t t' k j v e. ap (λ o. lookup j (or_rows [] (ap_rows o))) (sym e) ∙ lookup-insert k j v t.0;
  lookup-remove =
      λ t t' k j e. ap (λ o. lookup j (or_rows [] (ap_rows o))) (sym e) ∙ lookup-delete k j t.0;
}

abbrev ids : Map Bytes RecordedId
ids = (codes "tok_1", record { typ = codes "pet"; key = codes "7"; seq = 1 }) ∷ []

ids_IsMap : IsMap ids
unfolding has
ids_IsMap = (refl, tt)

abbrev recorded : RecordedIds rows_table
recorded = record { by_token = ids; seq = 1; table = (ids, ids_IsMap) }

recorded_IsValid : Lru.IsValid rows_table recorded
recorded_IsValid = record {
  bounded = omega arith;
  keyed = ids_IsMap;
  named = (λ e. ground (arith, e), tt);
}

remember-IsValid_example :
    Lru.IsValid rows_table
      (remember_recorded_id rows_table recorded (codes "tok_2") (codes "pet") (codes "8"))
remember-IsValid_example =
    remember-IsValid rows_table recorded (codes "tok_2") (codes "pet") (codes "8") recorded_IsValid

abbrev new_ids : List (Bytes × Bytes × Bytes)
new_ids = (codes "tok_2", codes "pet", codes "8") ∷ []

load-remembered_example :
    lookup
      (codes "tok_2")
      (load_recorded_ids rows_table
        (remember_all rows_table
          (load_recorded_ids rows_table (ids, ids_IsMap))
          new_ids).0.table).by_token
    ≡ lookup
        (codes "tok_2")
        (remember_all rows_table (load_recorded_ids rows_table (ids, ids_IsMap)) new_ids).0.by_token
unfolding remember_all load_recorded_ids remember_recorded_id
load-remembered_example =
    load-remembered rows_table (ids, ids_IsMap) ids _ new_ids (codes "tok_2") refl refl refl

rewrite_path_lem_example :
    (rewrite_path ids (codes "/pets/tok_1")).0
    ≡ join slash (map (resolved ids) (split slash (codes "/pets/tok_1")))
rewrite_path_lem_example = rewrite_path_lem ids (codes "/pets/tok_1")
