-- ===== src/Settings/Snapshots.antt =====
-- internal/settings/service.go: the settings, their normal form, and their rows in the database.
use meow_cli.Common.{Bool, false, List, [], ◌∷◌, Option, none, some, if◌then◌else◌}
use meow_cli.Common.Text.{Text, bytes, text_eq}
use meow_cli.Common.Strings.{trim_space}
use meow_cli.Common.Numerals.{ℤ, pos, is_positive, ltb_int, atoi, itoa_int, parse_bool, format_bool}
use meow_cli.Utils.Lists.{normalize_allowed_keys, join}

pub record Snapshot : Type 0 where
  pub global_proxy : Text
  pub quota_sync_interval_seconds : ℤ
  pub score_refresh_interval_seconds : ℤ
  pub throttle_base_seconds : ℤ
  pub throttle_max_seconds : ℤ
  pub relay_max_retries : ℤ
  pub weighted_best_count : ℤ
  pub content_affinity_max_entries : ℤ
  pub import_concurrency : ℤ
  pub logs_retention_seconds : ℤ
  pub max_log_rows : ℤ
  pub codex_proxy : Text
  pub codex_preferred_plan_types : Text
  pub codex_user_agent : Text
  pub codex_enable_sticky_session : Bool
  pub gemini_proxy : Text
  pub gemini_base_urls : Text
  pub gemini_preferred_plan_types : Text
  pub antigravity_proxy : Text
  pub antigravity_preferred_plan_types : Text
  pub antigravity_api_endpoint : Text
  pub antigravity_use_credits : Bool
  pub antigravity_user_agent : Text
  pub opencode_go_proxy : Text

abbrev pub antigravity_api_endpoints : List Text
antigravity_api_endpoints = bytes "prod" ∷ bytes "daily" ∷ bytes "daily_sandbox" ∷ []

unfoldable pub normalize_antigravity_api_endpoint_keys : Text → List Text
unfolding normalize_allowed_keys
normalize_antigravity_api_endpoint_keys value =
    normalize_allowed_keys value antigravity_api_endpoints (bytes "prod")

unfoldable pub normalize_antigravity_api_endpoint : Text → Text
unfolding normalize_antigravity_api_endpoint_keys join
normalize_antigravity_api_endpoint value =
    join (bytes ",") (normalize_antigravity_api_endpoint_keys value)

abbrev pub default_snapshot : Snapshot
default_snapshot = record {
  global_proxy = [];
  quota_sync_interval_seconds = pos 21600;
  score_refresh_interval_seconds = pos 60;
  throttle_base_seconds = pos 60;
  throttle_max_seconds = pos 1800;
  relay_max_retries = pos 3;
  weighted_best_count = pos 10;
  content_affinity_max_entries = pos 100000;
  import_concurrency = pos 4;
  logs_retention_seconds = pos 86400;
  max_log_rows = pos 100000;
  codex_proxy = [];
  codex_preferred_plan_types = [];
  codex_user_agent = [];
  codex_enable_sticky_session = false;
  gemini_proxy = [];
  gemini_base_urls = [];
  gemini_preferred_plan_types = [];
  antigravity_proxy = [];
  antigravity_preferred_plan_types = [];
  antigravity_api_endpoint = bytes "daily_sandbox,daily";
  antigravity_use_credits = false;
  antigravity_user_agent = [];
  opencode_go_proxy = [];
}

-- A number that is not positive becomes its default.
abbrev pub positive_or : ℤ → ℤ → ℤ
positive_or default n = if is_positive n then n else default

unfoldable pub normalize : Snapshot → Snapshot
unfolding trim_space normalize_antigravity_api_endpoint
normalize s =
    let base = positive_or default_snapshot.throttle_base_seconds s.throttle_base_seconds in
    record s {
      global_proxy = trim_space s.global_proxy;
      quota_sync_interval_seconds =
          positive_or default_snapshot.quota_sync_interval_seconds s.quota_sync_interval_seconds;
      score_refresh_interval_seconds =
          positive_or default_snapshot.score_refresh_interval_seconds
            s.score_refresh_interval_seconds;
      throttle_base_seconds = base;
      throttle_max_seconds =
          if ltb_int s.throttle_max_seconds base
          then default_snapshot.throttle_max_seconds
          else s.throttle_max_seconds;
      relay_max_retries = positive_or default_snapshot.relay_max_retries s.relay_max_retries;
      weighted_best_count = positive_or default_snapshot.weighted_best_count s.weighted_best_count;
      content_affinity_max_entries =
          positive_or default_snapshot.content_affinity_max_entries s.content_affinity_max_entries;
      import_concurrency = positive_or default_snapshot.import_concurrency s.import_concurrency;
      logs_retention_seconds =
          positive_or default_snapshot.logs_retention_seconds s.logs_retention_seconds;
      max_log_rows = positive_or default_snapshot.max_log_rows s.max_log_rows;
      codex_proxy = trim_space s.codex_proxy;
      codex_preferred_plan_types = trim_space s.codex_preferred_plan_types;
      codex_user_agent = trim_space s.codex_user_agent;
      gemini_proxy = trim_space s.gemini_proxy;
      gemini_base_urls = trim_space s.gemini_base_urls;
      gemini_preferred_plan_types = trim_space s.gemini_preferred_plan_types;
      antigravity_proxy = trim_space s.antigravity_proxy;
      antigravity_preferred_plan_types = trim_space s.antigravity_preferred_plan_types;
      antigravity_api_endpoint = normalize_antigravity_api_endpoint s.antigravity_api_endpoint;
      antigravity_user_agent = trim_space s.antigravity_user_agent;
      opencode_go_proxy = trim_space s.opencode_go_proxy;
    }

-- The rows that are written, by their keys.
unfoldable pub setting_params : Snapshot → List (Text × Text)
unfolding itoa_int
setting_params s =
    (bytes "global_proxy", s.global_proxy)
    ∷ (bytes "quota_sync_interval_seconds", itoa_int s.quota_sync_interval_seconds)
    ∷ (bytes "score_refresh_interval_seconds", itoa_int s.score_refresh_interval_seconds)
    ∷ (bytes "throttle_base_seconds", itoa_int s.throttle_base_seconds)
    ∷ (bytes "throttle_max_seconds", itoa_int s.throttle_max_seconds)
    ∷ (bytes "relay_max_retries", itoa_int s.relay_max_retries)
    ∷ (bytes "weighted_best_count", itoa_int s.weighted_best_count)
    ∷ (bytes "content_affinity_max_entries", itoa_int s.content_affinity_max_entries)
    ∷ (bytes "import_concurrency", itoa_int s.import_concurrency)
    ∷ (bytes "logs_retention_seconds", itoa_int s.logs_retention_seconds)
    ∷ (bytes "max_log_rows", itoa_int s.max_log_rows)
    ∷ (bytes "codex_proxy", s.codex_proxy)
    ∷ (bytes "codex_preferred_plan_types", s.codex_preferred_plan_types)
    ∷ (bytes "codex_user_agent", s.codex_user_agent)
    ∷ (bytes "codex_enable_sticky_session", format_bool s.codex_enable_sticky_session)
    ∷ (bytes "gemini_proxy", s.gemini_proxy)
    ∷ (bytes "gemini_base_urls", s.gemini_base_urls)
    ∷ (bytes "gemini_preferred_plan_types", s.gemini_preferred_plan_types)
    ∷ (bytes "antigravity_proxy", s.antigravity_proxy)
    ∷ (bytes "antigravity_preferred_plan_types", s.antigravity_preferred_plan_types)
    ∷ (bytes "antigravity_api_endpoint", s.antigravity_api_endpoint)
    ∷ (bytes "antigravity_use_credits", format_bool s.antigravity_use_credits)
    ∷ (bytes "antigravity_user_agent", s.antigravity_user_agent)
    ∷ (bytes "opencode_go_proxy", s.opencode_go_proxy)
    ∷ []

abbrev or_else {ℓ} : {A : Type ℓ} → A → Option A → A
or_else a none = a
or_else a (some b) = b

-- What a row says of a field: nothing, or its text.
unfoldable pub text_value : (Text → Text) → Text → Option Text → Text
text_value read old none = old
text_value read old (some value) = read value

unfoldable pub int_value : ℤ → Option Text → ℤ
unfolding atoi
int_value old none = old
int_value old (some value) = or_else old (atoi value)

unfoldable pub bool_value : Bool → Option Text → Bool
unfolding parse_bool
bool_value old none = old
bool_value old (some value) = or_else old (parse_bool value)

-- The fields are independent of each other: each is read from its own row. `row` finds the row of a key.
unfoldable pub apply_values : Snapshot → (Text → Option Text) → Snapshot
unfolding text_value int_value bool_value trim_space normalize_antigravity_api_endpoint
apply_values s row = record {
  global_proxy = text_value trim_space s.global_proxy (row (bytes "global_proxy"));
  quota_sync_interval_seconds =
      int_value s.quota_sync_interval_seconds (row (bytes "quota_sync_interval_seconds"));
  score_refresh_interval_seconds =
      int_value s.score_refresh_interval_seconds (row (bytes "score_refresh_interval_seconds"));
  throttle_base_seconds = int_value s.throttle_base_seconds (row (bytes "throttle_base_seconds"));
  throttle_max_seconds = int_value s.throttle_max_seconds (row (bytes "throttle_max_seconds"));
  relay_max_retries = int_value s.relay_max_retries (row (bytes "relay_max_retries"));
  weighted_best_count = int_value s.weighted_best_count (row (bytes "weighted_best_count"));
  content_affinity_max_entries =
      int_value s.content_affinity_max_entries (row (bytes "content_affinity_max_entries"));
  import_concurrency = int_value s.import_concurrency (row (bytes "import_concurrency"));
  logs_retention_seconds =
      int_value s.logs_retention_seconds (row (bytes "logs_retention_seconds"));
  max_log_rows = int_value s.max_log_rows (row (bytes "max_log_rows"));
  codex_proxy = text_value trim_space s.codex_proxy (row (bytes "codex_proxy"));
  codex_preferred_plan_types =
      text_value (λ v. v) s.codex_preferred_plan_types (row (bytes "codex_preferred_plan_types"));
  codex_user_agent = text_value trim_space s.codex_user_agent (row (bytes "codex_user_agent"));
  codex_enable_sticky_session =
      bool_value s.codex_enable_sticky_session (row (bytes "codex_enable_sticky_session"));
  gemini_proxy = text_value trim_space s.gemini_proxy (row (bytes "gemini_proxy"));
  gemini_base_urls = text_value (λ v. v) s.gemini_base_urls (row (bytes "gemini_base_urls"));
  gemini_preferred_plan_types =
      text_value (λ v. v) s.gemini_preferred_plan_types (row (bytes "gemini_preferred_plan_types"));
  antigravity_proxy = text_value trim_space s.antigravity_proxy (row (bytes "antigravity_proxy"));
  antigravity_preferred_plan_types =
      text_value (λ v. v) s.antigravity_preferred_plan_types
        (row (bytes "antigravity_preferred_plan_types"));
  antigravity_api_endpoint =
      text_value normalize_antigravity_api_endpoint s.antigravity_api_endpoint
        (row (bytes "antigravity_api_endpoint"));
  antigravity_use_credits =
      bool_value s.antigravity_use_credits (row (bytes "antigravity_use_credits"));
  antigravity_user_agent =
      text_value trim_space s.antigravity_user_agent (row (bytes "antigravity_user_agent"));
  opencode_go_proxy = text_value trim_space s.opencode_go_proxy (row (bytes "opencode_go_proxy"));
}

-- A provider's own proxy goes before the global one.
abbrev effective_proxy : Text → Text → Text
effective_proxy own global = if text_eq own [] then global else own

abbrev pub effective_codex_proxy : Snapshot → Text
effective_codex_proxy s = effective_proxy s.codex_proxy s.global_proxy

abbrev pub effective_gemini_proxy : Snapshot → Text
effective_gemini_proxy s = effective_proxy s.gemini_proxy s.global_proxy

abbrev pub effective_antigravity_proxy : Snapshot → Text
effective_antigravity_proxy s = effective_proxy s.antigravity_proxy s.global_proxy

abbrev pub effective_open_code_go_proxy : Snapshot → Text
effective_open_code_go_proxy s = effective_proxy s.opencode_go_proxy s.global_proxy

-- The user agent of the build, where none is set.
unfoldable pub effective_codex_user_agent : Text → Snapshot → Text
unfolding trim_space
effective_codex_user_agent build s =
    if text_eq (trim_space s.codex_user_agent) [] then build else trim_space s.codex_user_agent
