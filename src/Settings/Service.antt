-- ===== src/Settings/Service.antt =====
-- internal/settings/service.go: the service that keeps the settings. The database is a parameter.
use meow_cli.Common.{ℕ, suc, Bool, true, false, List, [], ◌∷◌, Option, none, some}
use meow_cli.Common.Text.{Text}
use meow_cli.Common.Table.{Table, lookup, insert}
use meow_cli.Settings.Snapshots.{
  Snapshot, default_snapshot, normalize, setting_params, apply_values,
}

-- The channel that is closed at the next change is known by its number.
pub record Service : Type 0 where
  pub current : Snapshot
  pub changed : ℕ

-- The interface Store. ListSettings gives the rows, or an error; UpsertSetting tells whether it had
-- none.
pub record SettingStore (D : Type 0) : Type 0 where
  pub list_settings : D → Option (List (Text × Text))
  pub upsert_setting : Text → Text → D → D × Bool

unfoldable pub replace_current : Snapshot → Service → Service
replace_current next svc = record { current = next; changed = suc svc.changed }

unfoldable pub add_rows : List (Text × Text) → Table Text → Table Text
unfolding insert
add_rows [] values = values
add_rows ((k, v) ∷ rows) values = add_rows rows (insert k v values)

abbrev pub values_of : List (Text × Text) → Table Text
values_of rows = add_rows rows []

-- Reload behind ListSettings.
unfoldable pub reload_rows : Option (List (Text × Text)) → Service → Service × Option Snapshot
unfolding replace_current normalize apply_values lookup add_rows
reload_rows none svc = (svc, none)
reload_rows (some rows) svc =
    let next = normalize (apply_values default_snapshot (λ k. lookup k (values_of rows))) in
    (replace_current next svc, some next)

module _ {D : Type 0} where
  unfoldable pub reload : Option (SettingStore D) → D → Service → Service × Option Snapshot
  unfolding reload_rows
  reload none d svc = (svc, some default_snapshot)
  reload (some store) d svc = reload_rows (store.list_settings d) svc

  -- The rows are written up to the first error.
  unfoldable pub upsert_all : SettingStore D → List (Text × Text) → D → D × Bool
  upsert_all store [] d = (d, true)
  upsert_all store ((k, v) ∷ rows) d =
      let (d', ok) = store.upsert_setting k v d in
      elim ok [ true ↦ upsert_all store rows d' | false ↦ (d', false) ]

  unfoldable pub save :
      Option (SettingStore D) → Snapshot → D → Service → (D × Service) × Option Snapshot
  unfolding upsert_all replace_current normalize setting_params
  save none next d svc =
      let normal = normalize next in ((d, replace_current normal svc), some normal)
  save (some store) next d svc =
      let normal = normalize next in
      let (d', ok) = upsert_all store (setting_params normal) d in
      elim ok [ true ↦ ((d', replace_current normal svc), some normal) | false ↦ ((d', svc), none) ]

  -- NewService: the settings of the store, or an error.
  unfoldable pub new_service : Option (SettingStore D) → D → Option Service
  unfolding reload
  new_service none d = some (record { current = default_snapshot; changed = 0 })
  new_service (some store) d =
      let (svc, loaded) =
        reload (some store) d (record { current = default_snapshot; changed = 0 }) in
      elim loaded [ none ↦ none | some s ↦ some svc ]
