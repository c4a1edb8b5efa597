-- ===== src/Base/Truthy.antt =====
-- What JavaScript takes for true of a text that may be missing.
use fusion_plus_aptos_extens.Base.{String, Option, none, some, str_eq, if◌then◌else◌}

-- A text that is there and is not empty.
abbrev pub truthy : Option String → Option String
truthy none = none
truthy (some text) = if str_eq text "" then none else some text
