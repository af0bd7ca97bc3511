-- ===== src/Divergence.antt =====
-- internal/divergence/divergence.go: whether the sandbox's answer to a recorded request differs from the
-- provider's. `Atoi` reads digits here: the segments it meets are those of the pointers below.
pub mod Agree
pub mod Evidence
use pikopod.Base.{
  ℕ, ◌+◌, ◌*◌, ◌-◌, ◌/◌, Bool, true, false, not, ◌&&◌, ◌||◌, Option, none, some, List, [], ◌∷◌,
  ◌++◌, ◌==◌, nat_beq, leb, if◌then◌else◌, length, take, bytes_eq,
}
use pikopod.Base.Map.{Map, insert}
use pikopod.Base.Bytes.{Bytes, codes, split, join, cut}
use pikopod.Base.Json.{Json, Items, Members, null, bool, num, str, arr, obj, nil, cons, end, member}
use pikopod.Base.Decimal.{itoa}
use pikopod.Base.Sort.{sorted_keys}
use pikopod.Base.Chars.{is_digit}

pub data Category : Type 0 where
  spec_drift undocumented_rule provider_failure : Category

pub record Side : Type 0 where
  pub status : ℕ
  pub body : Json

pub record SectionRedaction : Type 0 where
  pub section : Bytes
  pub pointer : Bytes

-- The fields of a record that are read.
pub record Record : Type 0 where
  pub path : Bytes
  pub status : ℕ
  pub req_body : Json
  pub resp_body : Json
  pub redacted : List SectionRedaction

pub record Verdict : Type 0 where
  pub diverged : Bool
  pub unverifiable : Bool
  pub skipped : Bool
  pub category : Option Category
  pub features : List Bytes
  pub detail : Bytes
  pub reason : Bytes

-- `codePointers` and `reasonPointers`
abbrev pub code_pointers : List Bytes
code_pointers =
    codes "/code"
    ∷ codes "/error/code"
    ∷ codes "/error_code"
    ∷ codes "/type"
    ∷ codes "/error/type"
    ∷ []

abbrev pub reason_pointers : List Bytes
reason_pointers =
    codes "/message"
    ∷ codes "/error/message"
    ∷ codes "/error"
    ∷ codes "/reason"
    ∷ codes "/error/reason"
    ∷ codes "/detail"
    ∷ codes "/error_description"
    ∷ codes "/errors/0/message"
    ∷ []

abbrev pub max_features : ℕ
max_features = 8

-- `strings.TrimPrefix(p, "/")`
abbrev pub trim_slash : Bytes → Bytes
trim_slash [] = []
trim_slash (c ∷ p) = if nat_beq c b'/' then p else c ∷ p

abbrev digits_from : ℕ → Bytes → Option ℕ
digits_from n [] = some n
digits_from n (c ∷ s) =
    let rest = digits_from (n * 10 + (c - b'0')) s in if is_digit c then rest else none

unfoldable pub atoi : Bytes → Option ℕ
atoi [] = none
atoi (c ∷ s) = digits_from 0 (c ∷ s)

unfoldable pub child_of : Bytes → Members → Option Json
child_of seg end = none
child_of seg (member k v members) =
    let rest = child_of seg members in if k == seg then some v else rest

unfoldable pub item_at : ℕ → Items → Option Json
item_at n nil = none
item_at n (cons v items) = let rest = item_at (n - 1) items in if nat_beq n 0 then some v else rest

unfoldable pub step_into : Bytes → Json → Option Json
unfolding child_of item_at atoi
step_into seg (obj members) = child_of seg members
step_into seg (arr items) = elim (atoi seg) [ none ↦ none | some n ↦ item_at n items ]
step_into seg _ = none

abbrev scalar : Option Json → Option Bytes
scalar (some (str s)) = some s
scalar (some (num n)) = some n
scalar (some (bool true)) = some (codes "true")
scalar (some (bool false)) = some (codes "false")
scalar _ = none

abbrev descend : List Bytes → Option Json → Option Json
unfolding step_into
descend [] node = node
descend (seg ∷ segs) none = none
descend (seg ∷ segs) (some node) = descend segs (step_into seg node)

-- `lookup`
unfoldable pub lookup_pointer : Json → Bytes → Option Bytes
unfolding split descend
lookup_pointer body pointer = scalar (descend (split b'/' (trim_slash pointer)) (some body))

-- `redactedAt`
unfoldable pub redacted_at : List SectionRedaction → Bytes → Bool
redacted_at [] pointer = false
redacted_at (r ∷ rs) pointer =
    ((r.section == codes "resp_body") && (r.pointer == pointer)) || redacted_at rs pointer

abbrev hidden : Option (List SectionRedaction) → Bytes → Bool
unfolding redacted_at
hidden none p = false
hidden (some rs) p = redacted_at rs p

-- `field`: the value, empty where there is none, and whether it was redacted.
unfoldable pub field : Json → List Bytes → Option (List SectionRedaction) → Bytes × Bool
unfolding redacted_at lookup_pointer hidden
field body [] reds = ([], false)
field body (p ∷ ps) reds =
    let rest = field body ps reds in
    if hidden reds p
    then ([], true)
    else elim (lookup_pointer body p) [ some v ↦ (v, false) | none ↦ rest ]

-- `strings.Join(features, ", ")`
abbrev pub join_comma : List Bytes → Bytes
join_comma [] = []
join_comma (s ∷ []) = s
join_comma (s ∷ t ∷ l) = s ++ codes ", " ++ join_comma (t ∷ l)

-- `diverge`
unfoldable pub diverge : Verdict → Category → ℕ → ℕ → Verdict
unfolding itoa
diverge v category fork_status real_status = record v {
  diverged = true;
  category = some category;
  detail =
      codes "sandbox answered "
      ++ (itoa fork_status
          ++ (codes ", provider answered "
              ++ (itoa real_status
                  ++ (if nat_beq (length v.features) 0
                      then []
                      else codes "; request carried " ++ join_comma v.features))));
}

abbrev unverified : Verdict → Bytes → Verdict
unverified v reason = record v { unverifiable = true; reason = reason }

abbrev both_given : Bytes → Bytes → Bool
both_given a b = not (a == []) && not (b == [])

-- `compareErrorFields`, the reasons
unfoldable pub compare_reasons : Verdict → Record → Side → Verdict
unfolding field diverge
compare_reasons v rec fork =
    let (real, redacted) = field rec.resp_body reason_pointers (some rec.redacted) in
    let (other, shown) = field fork.body reason_pointers none in
    if redacted
    then unverified v (codes "the reason the comparison needs was redacted")
    else if both_given real other && not (real == other)
    then diverge v undocumented_rule fork.status rec.status
    else v

-- `compareErrorFields`
unfoldable pub compare_error_fields : Verdict → Record → Side → Verdict
unfolding field diverge compare_reasons
compare_error_fields v rec fork =
    let (real, redacted) = field rec.resp_body code_pointers (some rec.redacted) in
    let (other, shown) = field fork.body code_pointers none in
    if redacted
    then unverified v (codes "the error code the comparison needs was redacted")
    else if both_given real other
    then (if not (real == other) then diverge v undocumented_rule fork.status rec.status else v)
    else compare_reasons v rec fork

abbrev add_feature : Bytes → Bytes → Map Bytes Bool → Map Bytes Bool
unfolding insert
add_feature prefix name set = if name == [] then set else insert (prefix ++ name) true set

abbrev body_features : Members → Map Bytes Bool → Map Bytes Bool
unfolding insert
body_features end set = set
body_features (member k v members) set =
    body_features members (insert (codes "body." ++ k) true set)

abbrev up_to : ℕ → Bytes → Bytes
unfolding cut
up_to c p = elim (cut c p) [ none ↦ p | some (a, b) ↦ a ]

abbrev redacted_features : List SectionRedaction → Map Bytes Bool → Map Bytes Bool
unfolding add_feature up_to
redacted_features [] set = set
redacted_features (r ∷ rs) set = redacted_features rs (
    if r.section == codes "req_body"
    then add_feature (codes "body.") (up_to b'/' (trim_slash r.pointer)) set
    else set)

abbrev query_features : List Bytes → Map Bytes Bool → Map Bytes Bool
unfolding add_feature up_to
query_features [] set = set
query_features (pair ∷ pairs) set =
    query_features pairs (add_feature (codes "query.") (up_to b'=' pair) set)

abbrev of_body : Json → Map Bytes Bool
unfolding body_features
of_body (obj members) = body_features members []
of_body _ = []

abbrev of_query : Bytes → List Bytes
unfolding cut split
of_query path = elim (cut b'?' path) [ none ↦ [] | some (p, query) ↦ split b'&' query ]

-- `Features`
unfoldable pub features_of : Record → List Bytes
unfolding of_body redacted_features query_features of_query sorted_keys
features_of rec = take max_features (
    sorted_keys
      (query_features (of_query rec.path) (redacted_features rec.redacted (of_body rec.req_body))))

abbrev pub one_of_statuses : ℕ → Bool
one_of_statuses s = nat_beq s 401 || (nat_beq s 403 || (nat_beq s 404 || nat_beq s 405))

abbrev pub blank_verdict : List Bytes → Verdict
blank_verdict features = record {
  diverged = false;
  unverifiable = false;
  skipped = false;
  category = none;
  features = features;
  detail = [];
  reason = [];
}

-- `Compare`
unfoldable pub compare_sides : Record → Side → (ℕ → Bool) → Verdict
unfolding features_of diverge compare_error_fields itoa
compare_sides rec fork declared =
    let v = blank_verdict (features_of rec) in
    let real = rec.status in
    if one_of_statuses fork.status
    then record v {
      skipped = true;
      reason =
          codes "the fork answered "
          ++ (itoa fork.status ++ codes ", so the request is not comparable");
    }
    else if leb 500 real || nat_beq real 429
    then (if nat_beq fork.status real then v else diverge v provider_failure fork.status real)
    else if nat_beq (real / 100) 4 && nat_beq (fork.status / 100) 2
    then diverge v undocumented_rule fork.status real
    else if nat_beq (real / 100) 2 && nat_beq (fork.status / 100) 4
    then diverge v spec_drift fork.status real
    else if nat_beq (real / 100) 2 && nat_beq (fork.status / 100) 2
    then (if nat_beq real fork.status || declared real
        then v
        else diverge v spec_drift fork.status real)
    else if nat_beq (real / 100) 4 && nat_beq (fork.status / 100) 4
    then (if not (nat_beq real fork.status)
        then diverge v (if declared real then undocumented_rule else spec_drift) fork.status real
        else compare_error_fields v rec fork)
    else v

-- `Level`
unfoldable pub level : Category → Bytes
level provider_failure = codes "ERR"
level _ = codes "WARN"
