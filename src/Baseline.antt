-- ===== src/Baseline.antt =====
-- internal/baseline/baseline.go: the learner of what responses look like. The records keep the nil
-- maps of the source as empty ones, but for `Values`, whose nil says that none are tracked. A family
-- is put back in the map where the source changes it through a pointer. The age of the warm-up is not
-- negative.
pub mod Families
pub mod Runs
pub mod Seen
pub mod Learned
pub mod Frozen
pub mod Bounds
use pikopod.Base.{
  ℕ, ◌+◌, Bool, true, false, not, ◌&&◌, ◌||◌, Option, none, some, List, [], ◌∷◌, ◌++◌, ◌==◌,
  nat_beq, leb, ltb, if◌then◌else◌, length, bytes_eq, filter_by,
}
use pikopod.Base.Map.{Map, lookup, insert, delete, has}
use pikopod.Base.Bytes.{Bytes, codes, slash, to_lower}
use pikopod.Base.Json.{Json, Items, Members, null, bool, num, str, arr, obj, nil, cons, end, member}
use pikopod.Base.Time.{elapsed}
use pikopod.Base.Decimal.{itoa}
use pikopod.PathTemplates.{Guard, Promotion, apply, merge_key, new_guard}
use pikopod.Volatile.{Matcher, match_path, record_drop, leaf}

pub record FieldStats : Type 0 where
  pub count : ℕ
  pub types : Map Bytes ℕ
  pub values : Option (Map Bytes ℕ)
  pub high_cardinality : Bool
  pub churned : Bool
  pub last_value : Bytes
  pub seen_value : Bool

pub record Family : Type 0 where
  pub method : Bytes
  pub template : Bytes
  pub status_class : Bytes
  pub samples : ℕ
  pub first_seen : ℕ
  pub last_seen : ℕ
  pub fields : Map Bytes FieldStats
  pub status_codes : Map Bytes ℕ
  pub ref_status_codes : Map Bytes ℕ
  pub frozen : Bool
  pub reference : Map Bytes FieldStats
  pub frozen_at : ℕ
  pub frozen_samples : ℕ

pub record FieldValue : Type 0 where
  pub typ : Bytes
  pub value : Bytes

pub record Warmup : Type 0 where
  pub min_samples : ℕ
  pub min_age : ℕ

-- The one `VolatileMatcher` there is.
pub record Learner : Type 0 where
  pub guard : Guard
  pub warmup : Warmup
  pub families : Map Bytes Family
  pub matcher : Option Matcher
  pub value_volatile : List Bytes

pub record Observation : Type 0 where
  pub family : Family
  pub ready : Bool
  pub fields : Map Bytes FieldValue
  pub template : Bytes
  pub status : ℕ

abbrev pub field_track_cap : ℕ
field_track_cap = 2000

abbrev pub value_track_cap : ℕ
value_track_cap = 24

abbrev pub or_0 : Option ℕ → ℕ
or_0 none = 0
or_0 (some n) = n

-- `m[k] += n`
unfoldable pub add_count : Map Bytes ℕ → Bytes → ℕ → Map Bytes ℕ
unfolding lookup insert
add_count m k n = insert k (or_0 (lookup k m) + n) m

-- `key`
unfoldable pub family_key : Bytes → Bytes → Bytes → Bytes
family_key method template class = method ++ 32 ∷ (template ++ 32 ∷ class)

-- `StatusClass`
unfoldable pub status_class_of : ℕ → Bytes
status_class_of status =
    if leb 200 status && ltb status 300
    then codes "2xx"
    else if leb 300 status && ltb status 400
    then codes "3xx"
    else if leb 400 status && ltb status 500
    then codes "4xx"
    else codes "5xx"

-- `strings.ReplaceAll(k, "/", "~1")`
unfoldable pub escape_slash : Bytes → Bytes
escape_slash [] = []
escape_slash (c ∷ k) =
    let rest = escape_slash k in if nat_beq c slash then b'~' ∷ b'1' ∷ rest else c ∷ rest

-- `joinField`
unfoldable pub join_field : Bytes → Bytes → Bytes
unfolding escape_slash
join_field base k = if base == [] then escape_slash k else base ++ slash ∷ escape_slash k

abbrev pub plain : Bytes → FieldValue
plain typ = record { typ = typ; value = [] }

-- `walk` of `Flatten`; the map is what was found before.
unfoldable mutual
  unfolding insert join_field

  pub walk : Json → Bytes → Map Bytes FieldValue → Map Bytes FieldValue
  walk null path out = insert path (plain (codes "null")) out
  walk (bool b) path out = insert path (plain (codes "bool")) out
  walk (num n) path out = insert path (plain (codes "number")) out
  walk (str s) path out = insert path (record { typ = codes "string"; value = s }) out
  walk (arr items) path out = walk_items items path (insert path (plain (codes "array")) out)
  walk (obj members) path out =
      walk_members members path
        (if path == [] then out else insert path (plain (codes "object")) out)

  pub walk_items : Items → Bytes → Map Bytes FieldValue → Map Bytes FieldValue
  walk_items nil path out = out
  walk_items (cons v items) path out = walk_items items path (walk v (path ++ codes "[]") out)

  pub walk_members : Members → Bytes → Map Bytes FieldValue → Map Bytes FieldValue
  walk_members end path out = out
  walk_members (member k v members) path out =
      walk_members members path (walk v (join_field path k) out)

-- `Flatten`; the body `nil` is `null`.
unfoldable pub flatten : Json → Map Bytes FieldValue
unfolding walk delete
flatten body = delete [] (walk body [] [])

abbrev pub forget_values : FieldStats → FieldStats
forget_values st = record st { values = none; high_cardinality = true }

abbrev pub is_string : FieldValue → Bool
is_string fv = fv.typ == codes "string"

abbrev pub in_set : Bytes → List Bytes → Bool
in_set k [] = false
in_set k (x ∷ xs) = (x == k) || in_set k xs

abbrev pub or_no_map : Option (Map Bytes ℕ) → Map Bytes ℕ
or_no_map none = []
or_no_map (some m) = m

-- The value of a string, with the end of the tracking when there are too many.
unfoldable pub track_value : FieldStats → Bytes → FieldStats
unfolding add_count
track_value st value =
    let vals = add_count (or_no_map st.values) value 1 in
    if ltb value_track_cap (length vals) then forget_values st else record st { values = some vals }

-- The last value of a volatile field, and whether it ever changed.
unfoldable pub track_churn : FieldStats → FieldValue → FieldStats
track_churn st fv =
    if is_string fv
    then record st {
      churned = st.churned || (st.seen_value && not (st.last_value == fv.value));
      last_value = fv.value;
      seen_value = true;
    }
    else st

-- The body of the loop over the fields: `quiet` says that the field's name is in `valueVolatile`,
-- `volatile` that the matcher matches its path.
unfoldable pub update_stats : Bool → Bool → FieldValue → FieldStats → FieldStats
unfolding add_count track_value track_churn
update_stats quiet volatile fv st =
    let a = record st { count = st.count + 1; types = add_count st.types fv.typ 1 } in
    let b = if not a.high_cardinality && quiet then forget_values a else a in
    let c = if volatile then track_churn (forget_values b) fv else b in
    if is_string fv && not c.high_cardinality then track_value c fv.value else c

abbrev pub new_stats : FieldStats
new_stats = record {
  count = 0;
  types = [];
  values = none;
  high_cardinality = false;
  churned = false;
  last_value = [];
  seen_value = false;
}

abbrev pub or_new_stats : Option FieldStats → FieldStats
or_new_stats none = new_stats
or_new_stats (some st) = st

abbrev pub is_volatile : Option Matcher → Bytes → Bool
is_volatile none path = false
is_volatile (some m) path = elim (match_path m path) [ none ↦ false | some e ↦ true ]

-- One round of that loop; a field that is new may find no room.
unfoldable pub observe_field :
    List Bytes → Option Matcher → Map Bytes FieldStats → Bytes → FieldValue → Map Bytes FieldStats
unfolding lookup insert has update_stats leaf
observe_field quiet matcher fields path fv =
    if not (has path fields) && leb field_track_cap (length fields)
    then fields
    else insert path
        (update_stats (in_set (to_lower (leaf path)) quiet) (is_volatile matcher path) fv
          (or_new_stats (lookup path fields)))
        fields

unfoldable pub observe_fields :
    List Bytes → Option Matcher → Map Bytes FieldStats → Map Bytes FieldValue → Map Bytes FieldStats
unfolding observe_field
observe_fields quiet matcher fields [] = fields
observe_fields quiet matcher fields ((path, fv) ∷ rest) =
    observe_fields quiet matcher (observe_field quiet matcher fields path fv) rest

-- `RecordDrop` in the same loop, which changes nothing that `Match` reads.
unfoldable pub drop_fields :
    List Bytes → Matcher → Map Bytes FieldStats → Map Bytes FieldValue → Matcher
unfolding observe_field has record_drop
drop_fields quiet m fields [] = m
drop_fields quiet m fields ((path, fv) ∷ rest) =
    let full = not (has path fields) && leb field_track_cap (length fields) in
    drop_fields quiet (if full then m else record_drop m path)
      (observe_field quiet (some m) fields path fv) rest
