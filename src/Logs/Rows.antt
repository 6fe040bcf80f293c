-- ===== src/Logs/Rows.antt =====
-- internal/store/store.go: the log row and what it is made from. W is float64.
use meow_cli.Common.{ℕ, Bool, [], if◌then◌else◌, not, ◌||◌}
use meow_cli.Common.Text.{Text, text_eq}
use meow_cli.Common.Strings.{trim_space}
use meow_cli.Scheduling.Times.{Time}

pub record LogRow (W : Type 0) : Type 0 where
  pub handler : Text
  pub credential_id : Text
  pub status_code : ℕ
  pub model_tier : Text
  pub model : Text
  pub api_type : Text
  pub stream : Bool
  pub first_byte : W
  pub duration : W
  pub error : Text
  pub created_at : Time

pub record LogRequestMetrics (W : Type 0) : Type 0 where
  pub model : Text
  pub api_type : Text
  pub stream : Bool
  pub first_byte : W
  pub duration : W
  pub error : Text

pub record InsertLogParams (W : Type 0) : Type 0 where
  pub handler : Text
  pub credential_id : Text
  pub status_code : ℕ
  pub model_tier : Text
  pub model : Text
  pub api_type : Text
  pub stream : Bool
  pub first_byte : W
  pub duration : W
  pub error : Text

module _ {W : Type 0} where
  unfoldable pub new_insert_log_params :
      Text → Text → ℕ → Text → LogRequestMetrics W → InsertLogParams W
  new_insert_log_params handler credential_id status_code model_tier metrics = record {
    handler = handler;
    credential_id = credential_id;
    status_code = status_code;
    model_tier = model_tier;
    model = metrics.model;
    api_type = metrics.api_type;
    stream = metrics.stream;
    first_byte = metrics.first_byte;
    duration = metrics.duration;
    error = metrics.error;
  }

-- `json_valid` is json.Valid of encoding/json.
unfoldable pub log_json_error : (Text → Bool) → Text → Text
unfolding trim_space text_eq
log_json_error json_valid body =
    if text_eq (trim_space body) [] || not (json_valid (trim_space body)) then [] else body
