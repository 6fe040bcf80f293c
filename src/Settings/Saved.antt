-- ===== src/Settings/Saved.antt =====
-- internal/settings/service.go: settings that were saved are loaded as they were.
use mathlib.Core.Bool.{true≢false}
use mathlib.Core.Option.{some-injective, none-ne-some}
use std.Path.{fun_ext}
use meow_cli.Common.{
  ◌≡◌, ◌∙◌, inl, inr, sym, ap, refl, Bool, true, false, List, [], ◌∷◌, Option, none, some,
  Bool-cases, if◌then◌else◌,
}
use meow_cli.Common.Text.{Text, text_eq}
use meow_cli.Common.Table.{lookup}
use meow_cli.Common.Numerals.{
  ℤ, pos, IsInt, itoa_int, atoi-itoa_int, format_bool, parse_bool-format_bool,
}
use meow_cli.Settings.Snapshots.{
  Snapshot, normalize, default_snapshot, setting_params, apply_values, text_value, int_value,
  bool_value,
}
use meow_cli.Settings.Normal.{IsSized, normalize-IsSized, normalize-idempotent}
use meow_cli.Settings.Service.{
  Service, SettingStore, replace_current, values_of, reload_rows, reload, upsert_all, save,
}

-- The value of a key behind the rows.
unfoldable found : List (Text × Text) → Text → Option Text → Option Text
found [] j o = o
found ((k, v) ∷ rows) j o = found rows j (if text_eq k j then some v else o)

int_value-itoa_int : (old n : ℤ) → IsInt n → int_value old (some (itoa_int n)) ≡ n
unfolding int_value
int_value-itoa_int old n h = rw (atoi-itoa_int n h)

bool_value-format_bool : (old b : Bool) → bool_value old (some (format_bool b)) ≡ b
unfolding bool_value
bool_value-format_bool old b = rw (parse_bool-format_bool b)

-- The rows of settings in normal form say these settings.
apply_values-setting_params :
    (s : Snapshot) (o : Text → Option Text)
    → normalize s ≡ s
    → IsSized s
    → apply_values default_snapshot (λ k. found (setting_params s) k (o k)) ≡ s
unfolding apply_values setting_params found text_eq text_value normalize
apply_values-setting_params s o h z = rw (
  ap (λ t. t.global_proxy) h,
  int_value-itoa_int (pos 21600) s.quota_sync_interval_seconds z.0,
  int_value-itoa_int (pos 60) s.score_refresh_interval_seconds z.1.0,
  int_value-itoa_int (pos 60) s.throttle_base_seconds z.1.1.0,
  int_value-itoa_int (pos 1800) s.throttle_max_seconds z.1.1.1.0,
  int_value-itoa_int (pos 3) s.relay_max_retries z.1.1.1.1.0,
  int_value-itoa_int (pos 10) s.weighted_best_count z.1.1.1.1.1.0,
  int_value-itoa_int (pos 100000) s.content_affinity_max_entries z.1.1.1.1.1.1.0,
  int_value-itoa_int (pos 4) s.import_concurrency z.1.1.1.1.1.1.1.0,
  int_value-itoa_int (pos 86400) s.logs_retention_seconds z.1.1.1.1.1.1.1.1.0,
  int_value-itoa_int (pos 100000) s.max_log_rows z.1.1.1.1.1.1.1.1.1,
  ap (λ t. t.codex_proxy) h,
  ap (λ t. t.codex_user_agent) h,
  bool_value-format_bool false s.codex_enable_sticky_session,
  ap (λ t. t.gemini_proxy) h,
  ap (λ t. t.antigravity_proxy) h,
  ap (λ t. t.antigravity_api_endpoint) h,
  bool_value-format_bool false s.antigravity_use_credits,
  ap (λ t. t.antigravity_user_agent) h,
  ap (λ t. t.opencode_go_proxy) h,
)

module _ {D : Type 0} (store : SettingStore D) (row : Text → D → Option Text) where
  -- The database keeps one value for a key: `row` is the value of a key, the rows that are listed say
  -- so, and writing a key changes its value and no other.
  pub record IsKeyed : Type 0 where
    pub of_list :
        (d : D) (rows : List (Text × Text)) (k : Text)
        → store.list_settings d ≡ some rows
        → lookup k (values_of rows) ≡ row k d
    pub of_upsert :
        (k v j : Text) (d : D)
        → (store.upsert_setting k v d).1 ≡ true
        → row j (store.upsert_setting k v d).0 ≡ (if text_eq k j then some v else row j d)

  module _ (m : IsKeyed) where
    row-upsert_all :
        (rows : List (Text × Text)) (j : Text) (d : D)
        → (upsert_all store rows d).1 ≡ true
        → row j (upsert_all store rows d).0 ≡ found rows j (row j d)
    unfolding upsert_all found
    row-upsert_all [] j d h = refl
    row-upsert_all ((k, v) ∷ rows) j d h =
        let d' = (store.upsert_setting k v d).0 in
        elim (Bool-cases (store.upsert_setting k v d).1) [
          | inl e ↦
              let g = rw (e, upsert_all) at h in
              rw (e, upsert_all) (rw (← m.of_upsert k v j d e) (row-upsert_all rows j d' g))
          | inr e ↦ absurd (true≢false (sym (rw (e, upsert_all) at h)))
        ]

    reload_rows-upsert_all :
        (s : Snapshot) (d : D) (rows : List (Text × Text)) (svc : Service)
        → normalize s ≡ s
        → IsSized s
        → (upsert_all store (setting_params s) d).1 ≡ true
        → store.list_settings (upsert_all store (setting_params s) d).0 ≡ some rows
        → reload_rows (some rows) svc ≡ (replace_current s svc, some s)
    unfolding reload_rows
    reload_rows-upsert_all s d rows svc n z ok e =
        let d' = (upsert_all store (setting_params s) d).0 in
        let value : (k : Text) → lookup k (values_of rows) ≡ found (setting_params s) k (row k d) =
          λ k. m.of_list d' rows k e ∙ row-upsert_all (setting_params s) k d ok in
        let read : normalize (apply_values default_snapshot (λ k. lookup k (values_of rows))) ≡ s =
          ap (λ f. normalize (apply_values default_snapshot f)) (fun_ext value)
          ∙ ap normalize (apply_values-setting_params s (λ k. row k d) n z)
          ∙ n in
        rw read

    save-upsert_all :
        (s : Snapshot) (d : D) (svc : Service)
        → (upsert_all store (setting_params (normalize s)) d).1 ≡ true
        → save (some store) s d svc ≡ (
          (
            (upsert_all store (setting_params (normalize s)) d).0,
            replace_current (normalize s) svc,
          ),
          some (normalize s),
        )
    unfolding save
    save-upsert_all s d svc h = rw h

    save-failed :
        (s : Snapshot) (d : D) (svc : Service)
        → (upsert_all store (setting_params (normalize s)) d).1 ≡ false
        → (save (some store) s d svc).1 ≡ none
    unfolding save
    save-failed s d svc h = rw h

    -- For settings whose numbers are ints of 64 bits, and a database that keeps one value for a
    -- key: if saving succeeds, then what was saved is the normal form of the settings, and loading
    -- the rows that are then listed gives it back, to the caller and as the service's current
    -- settings.
    pub reload-save :
        (s saved : Snapshot) (d d' : D) (svc svc' other : Service) (rows : List (Text × Text))
        → IsSized s
        → save (some store) s d svc ≡ ((d', svc'), some saved)
        → store.list_settings d' ≡ some rows
        → (saved ≡ normalize s)
          × (reload (some store) d' other ≡ (replace_current saved other, some saved))
    unfolding reload
    reload-save s saved d d' svc svc' other rows z e l =
        let t = normalize s in
        let result = λ (r : (D × Service) × Option Snapshot). r.1 in
        let stored = λ (r : (D × Service) × Option Snapshot). r.0.0 in
        elim (Bool-cases (upsert_all store (setting_params t) d).1) [
          | inl ok ↦
              let q = sym (save-upsert_all s d svc ok) ∙ e in
              let same : t ≡ saved = some-injective t saved (ap result q) in
              let there = ap stored q in
              let listed = ap (λ x. store.list_settings x) there ∙ l in
              let loaded =
                reload_rows-upsert_all t d rows other (normalize-idempotent s)
                  (normalize-IsSized s z) ok listed in
              (sym same, rw l (rw same at loaded))
          | inr bad ↦ absurd (none-ne-some saved (sym (save-failed s d svc bad) ∙ ap result e))
        ]
