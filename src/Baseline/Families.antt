-- ===== src/Baseline/Families.antt =====
-- The families of a learner and its methods (internal/baseline/baseline.go).
use pikopod.Base.{
  ℕ, ◌+◌, Bool, true, false, not, ◌&&◌, ◌||◌, Option, none, some, [], ◌∷◌, ◌==◌, nat_beq, leb, ltb,
  if◌then◌else◌, length, bytes_eq,
}
use pikopod.Base.Map.{Map, lookup, insert}
use pikopod.Base.Bytes.{Bytes}
use pikopod.Base.Json.{Json}
use pikopod.Base.Time.{elapsed}
use pikopod.Base.Decimal.{itoa}
use pikopod.PathTemplates.{Guard, Promotion, apply, merge_key}
use pikopod.Volatile.{Matcher}
use pikopod.Baseline.{
  FieldStats, Family, Warmup, Learner, Observation, value_track_cap, add_count, family_key,
  status_class_of, flatten, forget_values, observe_fields, drop_fields,
}

-- What `freeze` copies of a field: neither the churn nor the last value.
abbrev pub copy_stats : FieldStats → FieldStats
copy_stats st = record st { churned = false; last_value = []; seen_value = false }

unfoldable pub copy_fields : Map Bytes FieldStats → Map Bytes FieldStats
copy_fields [] = []
copy_fields ((k, st) ∷ m) = (k, copy_stats st) ∷ copy_fields m

-- `freeze`
unfoldable pub freeze : Family → ℕ → Family
unfolding copy_fields
freeze f at = record f {
  ref_status_codes = f.status_codes;
  reference = copy_fields f.fields;
  frozen = true;
  frozen_at = at;
  frozen_samples = f.samples;
}

-- The test of `Observe` before it freezes.
unfoldable pub is_warm : Warmup → Family → ℕ → Bool
is_warm w f ts =
    not f.frozen
    && (leb w.min_samples f.samples
        && (leb f.first_seen ts && leb w.min_age (elapsed ts f.first_seen)))

-- Adds each count of the second map to the first.
unfoldable pub add_counts : Map Bytes ℕ → Map Bytes ℕ → Map Bytes ℕ
unfolding add_count
add_counts m [] = m
add_counts m ((k, n) ∷ rest) = add_counts (add_count m k n) rest

abbrev pub absorb_values : FieldStats → Option (Map Bytes ℕ) → Option (Map Bytes ℕ) → FieldStats
absorb_values mine (some a) (some b) =
    let vals = add_counts a b in
    if ltb value_track_cap (length vals)
    then forget_values mine
    else record mine { values = some vals }
absorb_values mine a b = mine

-- What `absorb` makes of a field that both families have.
unfoldable pub absorb_stats : FieldStats → FieldStats → FieldStats
unfolding add_counts
absorb_stats mine st =
    let a = record mine { count = mine.count + st.count; types = add_counts mine.types st.types } in
    if st.high_cardinality then forget_values a else absorb_values a a.values st.values

unfoldable pub absorb_fields : Map Bytes FieldStats → Map Bytes FieldStats → Map Bytes FieldStats
unfolding lookup insert absorb_stats
absorb_fields mine [] = mine
absorb_fields mine ((k, st) ∷ rest) =
    absorb_fields
      (insert k (elim (lookup k mine) [ none ↦ st | some own ↦ absorb_stats own st ]) mine) rest

-- `absorb`
unfoldable pub absorb : Family → Family → Family
unfolding add_counts absorb_fields
absorb f other = record f {
  samples = f.samples + other.samples;
  status_codes = add_counts f.status_codes other.status_codes;
  first_seen =
      if ltb other.first_seen f.first_seen || nat_beq f.first_seen 0
      then other.first_seen
      else f.first_seen;
  last_seen = if ltb f.last_seen other.last_seen then other.last_seen else f.last_seen;
  fields = absorb_fields f.fields other.fields;
  frozen = false;
  reference = [];
}

-- The loop of `mergeFamiliesLocked`; the guard learns from the templates.
unfoldable pub merge_loop : Guard → Map Bytes Family → Map Bytes Family → Guard × Map Bytes Family
unfolding lookup insert merge_key absorb
merge_loop g merged [] = (g, merged)
merge_loop g merged ((k0, fam) ∷ rest) =
    let (g', template) = merge_key g fam.template in
    let k = family_key fam.method template fam.status_class in
    merge_loop g'
      (insert k
        (elim (lookup k merged) [
          | some exist ↦ absorb exist fam
          | none ↦ record fam { template = template }
        ])
        merged)
      rest

abbrev pub or_new_family : Bytes → Bytes → Bytes → ℕ → Option Family → Family
or_new_family method template class ts none = record {
  method = method;
  template = template;
  status_class = class;
  samples = 0;
  first_seen = ts;
  last_seen = 0;
  fields = [];
  status_codes = [];
  ref_status_codes = [];
  frozen = false;
  reference = [];
  frozen_at = 0;
  frozen_samples = 0;
}
or_new_family method template class ts (some f) = f

-- The family after one response: frozen if it is warm, then counted.
unfoldable pub observe_family : Learner → Family → ℕ → Json → ℕ → ℕ → Family
unfolding is_warm freeze add_count observe_fields flatten itoa
observe_family l f status body ts now =
    let g = if is_warm l.warmup f ts then freeze f now else f in
    record g {
      samples = g.samples + 1;
      last_seen = ts;
      status_codes = add_count g.status_codes (itoa status) 1;
      fields = observe_fields l.value_volatile l.matcher g.fields (flatten body);
    }

unfoldable pub drop_all : Learner → Map Bytes FieldStats → Json → Option Matcher → Option Matcher
unfolding drop_fields flatten
drop_all l fields body none = none
drop_all l fields body (some m) = some (drop_fields l.value_volatile m fields (flatten body))

-- `mergeFamiliesLocked`, where a position was promoted.
unfoldable pub merge_families :
    Guard → Map Bytes Family → Option Promotion → Guard × Map Bytes Family
unfolding merge_loop
merge_families g families none = (g, families)
merge_families g families (some p) = merge_loop g [] families

-- `Observe`; `now` is the learner's clock.
unfoldable pub observe : Learner → Bytes → Bytes → ℕ → Json → ℕ → ℕ → Learner × Observation
unfolding apply merge_families drop_all lookup insert observe_family family_key status_class_of
    flatten
observe l method path status body ts now =
    let (g, template, promo) = apply l.guard path in
    let (guard, families) = merge_families g l.families promo in
    let class = status_class_of status in
    let k = family_key method template class in
    let old = or_new_family method template class ts (lookup k families) in
    let fam = observe_family l old status body ts now in
    (
      record l {
        guard = guard;
        families = insert k fam families;
        matcher = drop_all l old.fields body l.matcher;
      },
      record {
        family = fam;
        ready = fam.frozen;
        fields = flatten body;
        template = template;
        status = status;
      },
    )

-- `Refreeze`: the families and how many were frozen again.
unfoldable pub refreeze : Map Bytes Family → Bytes → Bytes → ℕ → Map Bytes Family × ℕ
unfolding freeze
refreeze [] method template now = ([], 0)
refreeze ((k, f) ∷ fs) method template now =
    let (rest, n) = refreeze fs method template now in
    if (f.method == method) && ((f.template == template) && f.frozen)
    then ((k, freeze f now) ∷ rest, n + 1)
    else ((k, f) ∷ rest, n)

-- `Reset`
unfoldable pub reset : Map Bytes Family → Bytes → Map Bytes Family × ℕ
reset [] template = ([], 0)
reset ((k, f) ∷ fs) template =
    let (rest, n) = reset fs template in
    if (template == []) || (f.template == template) then (rest, n + 1) else ((k, f) ∷ rest, n)

-- `HasFrozen`
unfoldable pub has_frozen : Map Bytes Family → Bytes → Bytes → Bool
has_frozen [] method template = false
has_frozen ((k, f) ∷ fs) method template =
    (f.frozen && ((f.method == method) && (f.template == template)))
    || has_frozen fs method template
