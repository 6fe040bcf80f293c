-- ===== src/Codex/Tiers.antt =====
-- core/codex/model_tier.go, and the keys of the throttle table of core/codex/scheduler.go.
use meow_cli.Common.{◌∷◌, ◌++◌, ◌||◌, if◌then◌else◌}
use meow_cli.Common.Text.{Text, text_eq, bytes}
use meow_cli.Common.Strings.{to_lower, contains}

abbrev pub model_tier_default : Text
model_tier_default = bytes "default"

abbrev pub model_tier_spark : Text
model_tier_spark = bytes "spark"

unfoldable pub resolve_model_tier : Text → Text
unfolding to_lower contains
resolve_model_tier model_name =
    if contains (to_lower model_name) model_tier_spark then model_tier_spark else model_tier_default

unfoldable pub throttle_tier_for_model : Text → Text
throttle_tier_for_model tier =
    if text_eq tier model_tier_default || text_eq tier model_tier_spark
    then tier
    else model_tier_default

-- The tier behind a zero byte.
unfoldable pub throttle_state_key : Text → Text → Text
unfolding throttle_tier_for_model
throttle_state_key credential_id tier = credential_id ++ (0 ∷ throttle_tier_for_model tier)
