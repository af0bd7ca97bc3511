-- ===== src/Base/Json.antt =====
-- Go's decoded JSON (`any` after `json.Unmarshal`): a number keeps its text, an object its keys in
-- the order of one iteration.
use mathlib.Core.Bool.{Bool}
use pikopod.Base.Bytes.{Bytes}

mutual
  pub data Json : Type 0 where
    null : Json
    bool : Bool → Json
    num : Bytes → Json
    str : Bytes → Json
    arr : Items → Json
    obj : Members → Json

  pub data Items : Type 0 where
    nil : Items
    cons : Json → Items → Items

  pub data Members : Type 0 where
    end : Members
    member : Bytes → Json → Members → Members
