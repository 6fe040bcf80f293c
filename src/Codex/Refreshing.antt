-- ===== src/Codex/Refreshing.antt =====
-- core/codex/scheduler.go: startQuotaRefresh and completeQuotaRefresh. A `map[string]struct{}` is a
-- table of units.
use mathlib.Core.Bool.{true≢false}
use meow_cli.Common.{
  ◌≡◌, ◌∙◌, inl, inr, sym, Bool, true, false, [], ◌∷◌, ◌++◌, ◌||◌, Option, none, some, is_some,
  Bool-cases, if◌then◌else◌,
}
use meow_cli.Common.Text.{Text, text_eq, text_eq_refl}
use meow_cli.Common.Table.{Table, lookup, insert, delete, lookup-insert, lookup-delete}
use meow_cli.Float.{Float}
use meow_cli.Codex.Rows.{AvailableSnapshot}
use meow_cli.Codex.Pool.{suspend_credential_tier}

unfoldable pub quota_refresh_key : Text → Text → Text
quota_refresh_key id tier = id ++ (0 ∷ tier)

pub record Refreshing (W : Type 0) : Type 0 where
  pub quota_refreshing : Table (Unit {0})
  pub available : Option (AvailableSnapshot W)

module _ {W : Type 0} ⦃f : Float W⦄ where
  unfoldable pub start_quota_refresh : Text → Text → Refreshing W → Refreshing W × Bool
  start_quota_refresh id tier s =
      if text_eq id [] || is_some (lookup (quota_refresh_key id tier) s.quota_refreshing)
      then (s, false)
      else (
        record {
          quota_refreshing = insert (quota_refresh_key id tier) tt s.quota_refreshing;
          available = suspend_credential_tier id tier s.available;
        },
        true,
      )

  unfoldable pub complete_quota_refresh : Text → Text → Refreshing W → Refreshing W
  complete_quota_refresh id tier s =
      if text_eq id []
      then s
      else record s { quota_refreshing = delete (quota_refresh_key id tier) s.quota_refreshing }

  -- Behind a start of a quota refresh that succeeded, a second start for the credential and tier
  -- fails, and behind the completion a start succeeds again.
  pub start_quota_refresh-once :
      (id tier : Text) (s : Refreshing W)
      → (start_quota_refresh id tier s).1 ≡ true
      → let started = (start_quota_refresh id tier s).0 in
        ((start_quota_refresh id tier started).1 ≡ false)
        × ((start_quota_refresh id tier (complete_quota_refresh id tier started)).1 ≡ true)
  unfolding start_quota_refresh complete_quota_refresh
  start_quota_refresh-once id tier s h =
      let key = quota_refresh_key id tier in
      elim (Bool-cases (text_eq id [])) [
        | inl e ↦ absurd (true≢false (sym h ∙ rw e))
        | inr e ↦ elim (Bool-cases (is_some (lookup key s.quota_refreshing))) [
          | inl k ↦ absurd (true≢false (sym h ∙ rw (e, k)))
          | inr k ↦
              let table = insert key tt s.quota_refreshing in
              let there : lookup key table ≡ some tt =
                lookup-insert key key tt s.quota_refreshing ∙ rw (text_eq_refl key) in
              let gone : lookup key (delete key table) ≡ none =
                lookup-delete key key table ∙ rw (text_eq_refl key) in
              rw (e, k) (rw there, rw gone)
        ]
      ]
