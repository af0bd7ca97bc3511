-- ===== src/Tests/Sanitize.antt =====
-- The sanitizer on concrete inputs.
use pikopod.Base.{◌≡◌, refl, true, false, ◌&&◌, []}
use pikopod.Base.Bytes.{Bytes, codes, has_prefix}
use pikopod.Base.Json.{Json, str, obj, member, end}
use pikopod.Sanitize.{allow, tokenize, classify, classify_string, classify_slow, is_prefixed_id}
use pikopod.Sanitize.FastPath.{takes_short_cut, fast_path_lem}
use pikopod.Sanitize.Walk.{mode_for, sanitize}
use pikopod.Sanitize.Leaves.{shows, allows, sanitize_hides}

fast_path_lem_example :
    ((takes_short_cut (codes "state") (codes "a_pending") && is_prefixed_id (codes "a_pending")
        ≡ false)
      → classify_string (codes "state") (codes "a_pending")
        ≡ classify_slow (codes "state") (codes "a_pending"))
    × ((takes_short_cut (codes "state") (codes "a_pending") && is_prefixed_id (codes "a_pending")
          ≡ true)
        → (classify_string (codes "state") (codes "a_pending") ≡ allow)
          × (classify_slow (codes "state") (codes "a_pending") ≡ tokenize))
fast_path_lem_example = fast_path_lem (codes "state") (codes "a_pending")

abbrev token : Bytes → Bytes
token raw = codes "tok_1"

abbrev same : Bytes → Bytes
same n = n

abbrev login : Json
login = obj (member (codes "password") (str (codes "hunter2")) end)

sanitize_hides_example : shows (codes "hunter2") (sanitize token same [] login false).0 ≡ false
unfolding allows mode_for classify has_prefix
sanitize_hides_example =
    sanitize_hides token same [] (codes "hunter2") (λ raw. refl) refl login false refl
