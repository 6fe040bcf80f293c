-- ===== src/Examples/Settings.antt =====
-- internal/settings/service.go and utils/helpers.go: their theorems at concrete inputs.
use mathlib.Core.Option.{some-injective}
use meow_cli.Common.{◌≡◌, ◌∙◌, sym, refl, ap, true, List, [], ◌∷◌, ◌++◌, Option, some, arith}
use meow_cli.Common.Text.{Text, bytes, text_eq}
use meow_cli.Common.Table.{Table, lookup, insert, lookup-insert}
use meow_cli.Common.Strings.{to_lower, is_space}
use meow_cli.Common.Numerals.{pos, negsuc}
use meow_cli.Utils.Lists.{parse_delimited_list, join_normalized_list}
use meow_cli.Utils.Lists.Joined.{parse_delimited_list-join}
use meow_cli.Settings.Snapshots.{Snapshot, default_snapshot, normalize}
use meow_cli.Settings.Normal.{IsPositive, normalize-IsNormal}
use meow_cli.Settings.Service.{
  Service, SettingStore, save, reload, add_rows, values_of, upsert_all, replace_current,
}
use meow_cli.Settings.Saved.{IsKeyed, reload-save}

-- A database that appends what is written.
abbrev log_store : SettingStore (List (Text × Text))
log_store = record {
  list_settings = λ d. some d;
  upsert_setting = λ k v d. (d ++ ((k, v) ∷ []), true);
}

abbrev last_row : Text → List (Text × Text) → Option Text
last_row k d = lookup k (values_of d)

add_rows-append :
    (d : List (Text × Text)) (k v : Text) (values : Table Text)
    → add_rows (d ++ ((k, v) ∷ [])) values ≡ insert k v (add_rows d values)
unfolding add_rows
add_rows-append [] k v values = refl
add_rows-append ((j, w) ∷ d) k v values = add_rows-append d k v (insert j w values)

log_store-IsKeyed : IsKeyed log_store last_row
log_store-IsKeyed = record {
  of_list = λ d rows k e. ap (last_row k) (some-injective rows d (sym e));
  of_upsert =
      λ k v j d e. ap (lookup j) (add_rows-append d k v []) ∙ lookup-insert k j v (values_of d);
}

abbrev edited : Snapshot
edited = record default_snapshot {
  global_proxy = bytes " http://proxy ";
  relay_max_retries = negsuc 2;
  max_log_rows = pos 500;
  antigravity_api_endpoint = bytes "Daily; nowhere PROD daily";
}

abbrev started : Service
started = record { current = default_snapshot; changed = 0 }

abbrev saving : (List (Text × Text) × Service) × Option Snapshot
saving = save (some log_store) edited [] started

reload-save_example :
    (normalize edited ≡ normalize edited)
    × (reload (some log_store) saving.0.0 started
        ≡ (replace_current (normalize edited) started, some (normalize edited)))
unfolding save upsert_all
reload-save_example =
    reload-save log_store last_row log_store-IsKeyed edited (normalize edited) [] saving.0.0 started
      saving.0.1 started saving.0.0
      (
        omega arith,
        (
          omega arith,
          (
            omega arith,
            (
              omega arith,
              (
                omega arith,
                (omega arith, (omega arith, (omega arith, (omega arith, omega arith)))),
              ),
            ),
          ),
        ),
      )
      refl refl

normalize-IsNormal_example :
    (normalize (normalize edited) ≡ normalize edited) × IsPositive (normalize edited)
normalize-IsNormal_example = normalize-IsNormal edited

abbrev plans : List Text
plans = bytes "plus" ∷ bytes "team" ∷ []

parse_delimited_list-join_example :
    parse_delimited_list (join_normalized_list plans to_lower) to_lower ≡ plans
unfolding to_lower text_eq is_space
parse_delimited_list-join_example =
    parse_delimited_list-join to_lower plans
      ((ground arith, (ground arith, refl)), ((ground arith, (ground arith, refl)), tt))
      (refl, (refl, tt))
