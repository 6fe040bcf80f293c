-- ===== src/Codex/Unauthorized.antt =====
-- core/codex/scheduler.go: HandleUnauthorized, with the classes of rejections of access_enforcement.go.
-- What the manager and the verification do with the credential is a verdict.
use meow_cli.Common.{
  ℕ, ◌≡◌, ◌≢◌, ◌∙◌, sym, refl, Bool, true, false, not, ◌&&◌, ◌||◌, List, [], ◌∷◌, Option, none,
  some, is_some, ◌==◌, arith, if◌then◌else◌,
}
use meow_cli.Common.Text.{Text, text_eq, text_eq_refl, bytes}
use meow_cli.Common.Table.{Table, lookup, insert, delete, lookup-insert, lookup-delete}
use meow_cli.Common.Strings.{trim_space, equal_fold}
use meow_cli.Common.Numerals.{ℤ, pos, negsuc}
use meow_cli.Float.{Float, IsFloat}
use meow_cli.Logs.Rows.{LogRequestMetrics, new_insert_log_params}
use meow_cli.Logs.Store.{insert_log}
use meow_cli.Codex.Rows.{AvailableSnapshot}
use meow_cli.Codex.Select.{select_credential}
use meow_cli.Codex.Pool.{evict_credential}
use meow_cli.Codex.Pool.Barred.{evict_credential-unselected}
use meow_cli.Codex.Weights.{handler_codex}
use meow_cli.Codex.Throttle.{Setting, Scheduler, delete_credential_throttle_states}

-- The JSON nodes of sonic at a path of a body; `none` where there is no such JSON.
pub record Json : Type 0 where
  pub strict_int64 : List Text → Text → Option ℤ
  pub strict_string : List Text → Text → Option Text
  pub string : List Text → Text → Option Text

abbrev inactive_owner_code : Text
inactive_owner_code = bytes "biscuit_baker_service_auth_credential_error_status"

abbrev is_forbidden : Option ℤ → Bool
is_forbidden none = false
is_forbidden (some (pos n)) = n == 403
is_forbidden (some (negsuc n)) = false

abbrev is_text : Text → Option Text → Bool
is_text t none = false
is_text t (some u) = text_eq u t

abbrev is_folded : Text → Option Text → Bool
is_folded t none = false
is_folded t (some u) = equal_fold (trim_space u) t

unfoldable pub is_inactive_owner_error : Json → Text → Bool
unfolding trim_space text_eq
is_inactive_owner_error json body =
    not (text_eq (trim_space body) [])
    && is_forbidden (json.strict_int64 (bytes "status" ∷ []) body)
    && is_text inactive_owner_code (json.strict_string (bytes "error" ∷ bytes "code" ∷ []) body)

unfoldable pub normalize_codex_credential_status : Json → ℕ → Text → ℕ
unfolding is_inactive_owner_error
normalize_codex_credential_status json status body =
    if is_inactive_owner_error json body then 401 else status

unfoldable pub is_no_matching_access_rule_error : Json → Text → Bool
unfolding trim_space text_eq equal_fold
is_no_matching_access_rule_error json body =
    not (text_eq (trim_space body) [])
    && is_folded (bytes "rejected_by_access_enforcement")
        (json.string (bytes "error" ∷ bytes "type" ∷ []) body)
    && is_folded (bytes "no_matching_rule") (json.string (bytes "error" ∷ bytes "code" ∷ []) body)

abbrev is_credential_refresh_status : ℕ → Bool
is_credential_refresh_status status = status == 401

abbrev is_credential_direct_disable_status : ℕ → Bool
is_credential_direct_disable_status status = status == 402

-- What is done with the credential: nothing, DisableCredential, nothing for want of a manager, nothing
-- since a verification runs, the verification of verifyCredential, none for want of a manager, and
-- validateCredentialAfterAuthFailure.
pub data Verdict : Type 0 where
  passed_on disabled disable_skipped already_checking verifying unverified validating : Verdict

abbrev pub takes_over : Verdict → Bool
takes_over Verdict.passed_on = false
takes_over Verdict.disabled = true
takes_over Verdict.disable_skipped = true
takes_over Verdict.already_checking = true
takes_over Verdict.verifying = true
takes_over Verdict.unverified = true
takes_over Verdict.validating = true

-- The scheduler with the table of the credentials that are being checked.
pub record Guarded (W : Type 0) : Type 0 where
  pub scheduler : Scheduler W
  pub checking : Table (Unit {0})

-- Whether the scheduler has a verifyCredential, and a manager.
pub record Wiring : Type 0 where
  pub json : Json
  pub has_verifier : Bool
  pub has_manager : Bool

module _ {W : Type 0} ⦃f : Float W⦄ where
  unfoldable pub record_auth_rejection :
      Setting W → Text → ℕ → Text → LogRequestMetrics W → Scheduler W → Scheduler W
  record_auth_rejection e id status tier metrics s =
      let (logs, ok) =
        insert_log e.json_valid e.ctx_done e.config.limits e.now
          (new_insert_log_params handler_codex id status tier metrics) s.logs in
      record s { logs = logs }

  -- The credential leaves the throttle table and the pool.
  unfoldable pub drop_credential : Text → Scheduler W → Scheduler W
  drop_credential id s = record s {
    throttle = delete_credential_throttle_states s.throttle id;
    available = evict_credential id s.available;
  }

  unfoldable pub disable_directly :
      Setting W → Wiring → Text → ℕ → Text → LogRequestMetrics W → Guarded W → Guarded W × Verdict
  unfolding record_auth_rejection drop_credential
  disable_directly e wiring id status tier metrics s = (
    record {
      scheduler = drop_credential id (record_auth_rejection e id status tier metrics s.scheduler);
      checking = delete id s.checking;
    },
    if wiring.has_manager then Verdict.disabled else Verdict.disable_skipped,
  )

  unfoldable pub check_credential :
      Setting W → Wiring → Text → ℕ → Text → LogRequestMetrics W → Guarded W → Guarded W × Verdict
  unfolding record_auth_rejection drop_credential
  check_credential e wiring id status tier metrics s =
      let dropped = drop_credential id s.scheduler in
      let recorded = record_auth_rejection e id status tier metrics dropped in
      let checked = insert id tt s.checking in
      if is_some (lookup id s.checking)
      then (record { scheduler = dropped; checking = s.checking }, Verdict.already_checking)
      else if wiring.has_verifier
      then (record { scheduler = dropped; checking = checked }, Verdict.verifying)
      else if not wiring.has_manager
      then (record { scheduler = recorded; checking = checked }, Verdict.unverified)
      else (record { scheduler = dropped; checking = checked }, Verdict.validating)

  unfoldable pub handle_unauthorized :
      Setting W → Wiring → Text → ℕ → Text → LogRequestMetrics W → Guarded W → Guarded W × Verdict
  unfolding normalize_codex_credential_status is_no_matching_access_rule_error disable_directly
      check_credential
  handle_unauthorized e wiring id status tier metrics s =
      let normal = normalize_codex_credential_status wiring.json status metrics.error in
      if normal == 401 && is_no_matching_access_rule_error wiring.json metrics.error
      then (s, Verdict.passed_on)
      else if is_inactive_owner_error wiring.json metrics.error
          || is_credential_direct_disable_status normal
      then disable_directly e wiring id normal tier metrics s
      else if not (is_credential_refresh_status normal)
      then (s, Verdict.passed_on)
      else check_credential e wiring id normal tier metrics s

  unfoldable pub finish_credential_validation : Text → Guarded W → Guarded W
  finish_credential_validation id s = record s { checking = delete id s.checking }

  unfoldable pub is_credential_under_validation : Guarded W → Text → Bool
  is_credential_under_validation s id = is_some (lookup id s.checking)

  available_drop_credential :
      (id : Text) (s : Scheduler W)
      → (drop_credential id s).available ≡ evict_credential id s.available
  unfolding drop_credential
  available_drop_credential id s = refl

  -- A taken over rejection leaves the pool without the credential.
  available-disable_directly :
      (e : Setting W) (wiring : Wiring) (id : Text) (status : ℕ) (tier : Text)
      (metrics : LogRequestMetrics W) (s : Guarded W)
      → (disable_directly e wiring id status tier metrics s).0.scheduler.available
        ≡ evict_credential id s.scheduler.available
  unfolding disable_directly drop_credential record_auth_rejection
  available-disable_directly e wiring id status tier metrics s = refl

  available-check_credential :
      (e : Setting W) (wiring : Wiring) (id : Text) (status : ℕ) (tier : Text)
      (metrics : LogRequestMetrics W) (s : Guarded W)
      → (check_credential e wiring id status tier metrics s).0.scheduler.available
        ≡ evict_credential id s.scheduler.available
  unfolding check_credential drop_credential record_auth_rejection
  available-check_credential e wiring id status tier metrics s = ground arith

  available-handle_unauthorized :
      (e : Setting W) (wiring : Wiring) (id : Text) (status : ℕ) (tier : Text)
      (metrics : LogRequestMetrics W) (s : Guarded W)
      → takes_over (handle_unauthorized e wiring id status tier metrics s).1 ≡ true
      → (handle_unauthorized e wiring id status tier metrics s).0.scheduler.available
        ≡ evict_credential id s.scheduler.available
  unfolding handle_unauthorized
  available-handle_unauthorized e wiring id status tier metrics s =
      let normal = normalize_codex_credential_status wiring.json status metrics.error in
      ground (
        arith,
        available-disable_directly e wiring id normal tier metrics s,
        available-check_credential e wiring id normal tier metrics s,
      )

  -- Under the laws of comparison, a credential whose rejection HandleUnauthorized has taken over is
  -- not selected for any tier from the snapshot that it leaves.
  pub handle_unauthorized-unselected :
      (laws : IsFloat W) (e : Setting W) (wiring : Wiring) (id : Text) (status : ℕ) (tier : Text)
      (metrics : LogRequestMetrics W) (s : Guarded W) (snap snap' : AvailableSnapshot W) (best : ℕ)
      (preferred_codes allowed_codes : List ℕ) (preferred wanted : Text) (random : ℕ → W)
      → s.scheduler.available ≡ some snap
      → takes_over (handle_unauthorized e wiring id status tier metrics s).1 ≡ true
      → (handle_unauthorized e wiring id status tier metrics s).0.scheduler.available ≡ some snap'
      → select_credential best snap' preferred_codes allowed_codes preferred wanted random ≢ some id
  handle_unauthorized-unselected laws e wiring id status tier metrics s snap snap' best
        preferred_codes allowed_codes preferred wanted random before taken after =
      let evicted =
        sym (available-handle_unauthorized e wiring id status tier metrics s taken) ∙ after in
      evict_credential-unselected laws best snap snap' preferred_codes allowed_codes preferred
        wanted random id (rw before at evicted)

  -- While a credential is being checked, a rejection starts no second check; when the check ended, the
  -- next one does.
  pub check_credential-once :
      (e : Setting W) (wiring : Wiring) (id : Text) (status : ℕ) (tier : Text)
      (metrics : LogRequestMetrics W) (s : Guarded W)
      → let checked = (check_credential e wiring id status tier metrics s).0 in
        ((check_credential e wiring id status tier metrics checked).1 ≡ Verdict.already_checking)
        × ((check_credential e wiring id status tier metrics
              (finish_credential_validation id checked)).1
            ≢ Verdict.already_checking)
  unfolding check_credential finish_credential_validation
  check_credential-once e wiring id status tier metrics s =
      let there : lookup id (insert id tt s.checking) ≡ some tt =
        lookup-insert id id tt s.checking ∙ rw (text_eq_refl id) in
      let gone : lookup id (delete id s.checking) ≡ none =
        lookup-delete id id s.checking ∙ rw (text_eq_refl id) in
      let ended : lookup id (delete id (insert id tt s.checking)) ≡ none =
        lookup-delete id id (insert id tt s.checking) ∙ rw (text_eq_refl id) in
      ground (arith, there, gone, ended)
