-- ===== src/Tests/Journal.antt =====
-- The journal, the windows and the delivery log on concrete inputs.
use pikopod.Base.{
  ℕ, ◌+◌, ◌-◌, ◌≤◌, ◌≡◌, false, none, some, List, [], ◌∷◌, ◌++◌, arith, length, keep_last, bytes_eq,
}
use pikopod.Base.Map.{Map, lookup}
use pikopod.Base.Bytes.{Bytes, codes}
use pikopod.Sandbox.Journal.{JournalEntry, Journal, empty, max_journal_entries}
use pikopod.Sandbox.Journal.Window.{record_all, number_from, record_all_window}
use pikopod.Sandbox.Journal.Invariant.{Call, recording, dropping}
use pikopod.Sandbox.Windows.{or_zero, max_fault_window_keys, scope_key_mark}
use pikopod.Sandbox.Windows.Count.{consume_all, window_limit}
use pikopod.Sandbox.Deliveries.{WebhookDelivery, Outbox}

abbrev entry : Bytes → JournalEntry
entry scope = record {
  seq = 0;
  method = codes "GET";
  path = codes "/pets/7";
  template = codes "/pets/{id}";
  status = 200;
  body = none;
  body_truncated = false;
  headers = [];
  headers_truncated = false;
  query = [];
  query_truncated = false;
  at_ms = 5;
  wall_ms = 6;
  scope = scope;
}

abbrev two : List JournalEntry
two = entry (codes "a") ∷ entry (codes "b") ∷ []

abbrev journal : Journal
journal = record { entries = two; seq = 2; evicted = 0 }

record_all_window_example :
    ((record_all empty two).entries ≡ keep_last max_journal_entries (number_from 1 two))
    × ((record_all empty two).evicted ≡ length (number_from 1 two) - max_journal_entries)
    × ((record_all empty two).seq ≡ length (number_from 1 two))
record_all_window_example = record_all_window two

abbrev calls : List Call
calls = recording (entry (codes "a")) ∷ recording (entry (codes "b")) ∷ dropping (codes "a") ∷ []

abbrev key : Bytes
key = codes "path:/pets"

abbrev counts : Map Bytes ℕ
counts = (key, 1) ∷ []

abbrev keys : List Bytes
keys = key ∷ codes "path:/x" ∷ key ∷ key ∷ []

window_limit_example :
    (or_zero (lookup key counts) + (consume_all 2 key counts keys).1 ≤ 2)
    × (length (consume_all 2 key counts keys).0 ≤ max_fault_window_keys)
window_limit_example = window_limit 2 key counts keys (unfold lookup in omega arith) (omega arith)

abbrev scoped_counts : Map Bytes ℕ
scoped_counts =
    (codes "a" ++ scope_key_mark ∷ key, 1) ∷ (codes "b" ++ scope_key_mark ∷ key, 2) ∷ (key, 3) ∷ []

abbrev delivery : WebhookDelivery
delivery = record {
  id = codes "evt_1";
  event = codes "pet.created";
  seq = 1;
  virtual_time_ms = 10;
  due_ms = 20;
  payload = codes "{}";
  signature = [];
}

abbrev outbox : Outbox
outbox = record {
  webhook_log = delivery ∷ [];
  sink = some (record { queue = []; closed = false; dropped = 0 });
}
