-- ===== src/Json.antt =====
-- JSON values as `json.loads` and `response.json()` return them.
use coda_node.Prelude.{String, Option, none, some, ℤ, Float, str_eq, if◌then◌else◌, Bool}

mutual
  pub data Json : Type 0 where
    null : Json
    boolean : Bool → Json
    integer : ℤ → Json
    real : Float → Json
    text : String → Json
    array : Elements → Json
    object : Members → Json

  pub data Elements : Type 0 where
    end : Elements
    element : Json → Elements → Elements

  pub data Members : Type 0 where
    last : Members
    member : String → Json → Members → Members

-- `data.get(key)`, where the keys of a dict are distinct.
abbrev pub get : String → Members → Option Json
get key last = none
get key (member k v m) = if str_eq k key then some v else get key m
