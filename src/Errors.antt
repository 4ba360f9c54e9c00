-- ===== src/Errors.antt =====
-- src/errors.rs. An error keeps its variant; its message is shortened to a name of the check that
-- failed, since nothing branches on the rest of the text but the classifiers of rejections.
use hype_trigger_twap.Prelude.{String, Option, ◌||◌, if◌then◌else◌}
use hype_trigger_twap.Prelude.Text.{codes, contains, to_ascii_lowercase}

pub data HlError : Type 0 where
  network : String → HlError
  signature : String → HlError
  invalid_response : String → HlError
  invalid_config : String → HlError
  action_format : String → HlError
  unknown_symbol : String → HlError
  exchange : Option String → String → HlError
  other : String → HlError

pub data RejectionKind : Type 0 where
  insufficient_margin min_notional unclassified : RejectionKind

unfoldable pub classify : String → RejectionKind
unfolding contains to_ascii_lowercase
classify message =
    let m = to_ascii_lowercase (codes message) in
    if contains (codes "insufficient margin") m
    then insufficient_margin
    else if contains (codes "mintradentl") m || contains (codes "minimum") m
    then min_notional
    else unclassified
