-- ===== src/Tests/PathTemplates.antt =====
-- Templates of paths on concrete inputs.
use pikopod.Base.{◌≡◌, List, [], ◌∷◌}
use pikopod.Base.Bytes.{Bytes, codes}
use pikopod.PathTemplates.{templatize}
use pikopod.PathTemplates.Idempotent.{templatize_idempotent}

templatize_idempotent_example :
    templatize (templatize (codes "/pets/7/photos")) ≡ templatize (codes "/pets/7/photos")
templatize_idempotent_example = templatize_idempotent (codes "/pets/7/photos")

abbrev names : List Bytes
names = codes "ann" ∷ codes "bob" ∷ codes "eve" ∷ []
