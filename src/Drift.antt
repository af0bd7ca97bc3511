-- ===== src/Drift.antt =====
-- internal/drift/drift.go: the kinds of a finding, and the text that its fingerprint hashes. SHA-256
-- itself is not modelled: two findings with one text have one fingerprint.
pub mod Preimage
pub mod Diff
pub mod Conform
use pikopod.Base.{ℕ, Bool, true, false, List, [], ◌∷◌, ◌++◌, nat_beq, ◌||◌, if◌then◌else◌}
use pikopod.Base.Bytes.{Bytes, codes, contains, join}

pub data Kind : Type 0 where
  field_added field_removed type_changed enum_value_new status_new : Kind
  field_nullable status_code_changed error_shape_changed : Kind
  upstream_error upstream_unreachable rate_limited client_error : Kind
  webhook_duplicate webhook_out_of_order behaviour_divergence : Kind

unfoldable pub is_incident : Kind → Bool
is_incident upstream_error = true
is_incident upstream_unreachable = true
is_incident rate_limited = true
is_incident client_error = true
is_incident webhook_duplicate = true
is_incident webhook_out_of_order = true
is_incident _ = false

unfoldable pub is_webhook : Kind → Bool
is_webhook webhook_duplicate = true
is_webhook webhook_out_of_order = true
is_webhook _ = false

unfoldable pub is_divergence : Kind → Bool
is_divergence behaviour_divergence = true
is_divergence _ = false

-- The string constants.
unfoldable pub kind_text : Kind → Bytes
kind_text field_added = codes "field_added"
kind_text field_removed = codes "field_removed"
kind_text type_changed = codes "type_changed"
kind_text enum_value_new = codes "enum_value_new"
kind_text status_new = codes "status_new"
kind_text field_nullable = codes "field_nullable"
kind_text status_code_changed = codes "status_code_changed"
kind_text error_shape_changed = codes "error_shape_changed"
kind_text upstream_error = codes "upstream_error"
kind_text upstream_unreachable = codes "upstream_unreachable"
kind_text rate_limited = codes "rate_limited"
kind_text client_error = codes "client_error"
kind_text webhook_duplicate = codes "webhook_duplicate"
kind_text webhook_out_of_order = codes "webhook_out_of_order"
kind_text behaviour_divergence = codes "behaviour_divergence"

pub record Finding : Type 0 where
  pub upstream : Bytes
  pub method : Bytes
  pub template : Bytes
  pub status_class : Bytes
  pub kind : Kind
  pub field : Bytes
  pub before : Bytes
  pub after : Bytes
  pub note : Bytes
  pub documented : Bool

abbrev pub backslash : ℕ
backslash = 0x5c

abbrev pub bar : ℕ
bar = b'|'

-- `strings.ReplaceAll(s, c, "\" + c)` for one byte.
unfoldable pub escape_byte : ℕ → Bytes → Bytes
escape_byte c [] = []
escape_byte c (x ∷ s) =
    let rest = escape_byte c s in if nat_beq x c then backslash ∷ x ∷ rest else x ∷ rest

-- `fpEscape`
unfoldable pub fp_escape : Bytes → Bytes
unfolding escape_byte contains
fp_escape s =
    if contains backslash s || contains bar s then escape_byte bar (escape_byte backslash s) else s

-- The text that `Fingerprint` hashes.
unfoldable pub preimage : Finding → Bytes
unfolding fp_escape kind_text join
preimage f = join bar (
    fp_escape f.upstream
    ∷ fp_escape f.method
    ∷ fp_escape f.template
    ∷ fp_escape f.status_class
    ∷ fp_escape (kind_text f.kind)
    ∷ fp_escape f.field
    ∷ fp_escape f.before
    ∷ fp_escape f.after
    ∷ [])
