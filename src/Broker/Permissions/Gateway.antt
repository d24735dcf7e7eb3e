-- ===== src/Broker/Permissions/Gateway.antt =====
-- src/permission-gateway/permission-gateway-facade.ts and types.ts: a permission preset is selected at
-- the Host, and counts as selected only when the Host reports it. The provider's replies are
-- arguments; a reported value that is no preset is `none`.
use deepseek_harness_relay_m.Base.{
  String, ◌≡◌, Bool, true, false, Option, none, some, arith, if◌then◌else◌,
}
use deepseek_harness_relay_m.Base.Result.{Result, ok, err, ◌>>=◌}
use deepseek_harness_relay_m.Types.{
  PermissionPreset, read_only, workspace_write, danger_full_access,
}

pub data GatewayCode : Type 0 where
  permission_unavailable permission_denied : GatewayCode

-- `PermissionGatewayErrorDetails`; `actual` is there where the Host reported a value.
pub record GatewayError : Type 0 where
  pub code : GatewayCode
  pub session_id : String
  pub expected : Option PermissionPreset
  pub actual : Option PermissionPreset

pub data GatewayFailure {ℓ} (E : Type ℓ) : Type ℓ where
  gateway : GatewayError → GatewayFailure E
  provider : E → GatewayFailure E

abbrev pub same_preset : PermissionPreset → PermissionPreset → Bool
same_preset read_only read_only = true
same_preset workspace_write workspace_write = true
same_preset danger_full_access danger_full_access = true
same_preset _ _ = false

module _ {ℓ} {E : Type ℓ} where
  unfoldable pub current :
      String → Result E (Option PermissionPreset) → Result (GatewayFailure E) PermissionPreset
  current session_id (err e) = err (provider e)
  current session_id (ok none) = err (
      gateway (record {
        code = permission_unavailable;
        session_id = session_id;
        expected = none;
        actual = none;
      }))
  current session_id (ok (some value)) = ok value

  unfoldable pub confirm :
      String
      → PermissionPreset
      → Result E (Option PermissionPreset)
      → Result (GatewayFailure E) PermissionPreset
  unfolding current
  confirm session_id expected reply = current session_id reply >>= λ actual.
      if same_preset actual expected
      then ok actual
      else err (
          gateway (record {
            code = permission_denied;
            session_id = session_id;
            expected = some expected;
            actual = some actual;
          }))

  -- `accepted` answers the selection, `reply` the reading after it.
  unfoldable pub select :
      String
      → PermissionPreset
      → Result E Bool
      → Result E (Option PermissionPreset)
      → Result (GatewayFailure E) PermissionPreset
  unfolding confirm
  select session_id preset (err e) reply = err (provider e)
  select session_id preset (ok false) reply = err (
      gateway (record {
        code = permission_denied;
        session_id = session_id;
        expected = some preset;
        actual = none;
      }))
  select session_id preset (ok true) reply = confirm session_id preset reply

  -- A selection succeeds only if the Host accepted it and then reported the very preset, which is
  -- the one returned.
  pub select-ok :
      (session_id : String) (preset value : PermissionPreset) (accepted : Result E Bool)
      (reply : Result E (Option PermissionPreset))
      → select session_id preset accepted reply ≡ ok value
      → (accepted ≡ ok true) × (reply ≡ ok (some preset)) × (value ≡ preset)
  unfolding select
  select-ok s p v a r e = ground arith
