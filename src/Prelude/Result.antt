-- ===== src/Prelude/Result.antt =====
-- Go's pair of a value and an error. An error is known by its message, without the values that are
-- printed into it; `external` is one that comes from outside the component.
use Prim.Native.String.{String}
use mathlib.Core.Path.{◌≡◌, refl}
use mathlib.Core.Logic.{◌⊎◌, inl, inr}

pub data Err : Type 0 where
  notional_exceeded open_orders_exceeded margin_ratio_low health_ratio_low : Err
  market_stale account_stale : Err
  retry_failed context_done empty_order_id : Err
  order_id_required perp_context_missing spot_asset_missing : Err
  spot_asset_id_missing invalid_size_or_price insufficient_total insufficient_split : Err
  spot_entry_unfilled perp_size_zero perp_entry_unfilled rollback_short : Err
  spot_exit_unfilled perp_exit_unfilled mid_price_missing : Err
  price_reference_missing hedge_size_zero hedge_limit_invalid : Err
  rest_client_required user_required start_time_invalid : Err
  post_channel post_data_missing post_response_missing post_error : Err
  post_payload_missing post_payload_type spot_balances_missing : Err
  risk_settings_missing risk_setting_invalid risk_key_unknown risk_command_unknown : Err
  max_notional_invalid max_open_orders_invalid min_margin_ratio_invalid : Err
  min_health_ratio_invalid max_market_age_invalid max_account_age_invalid : Err
  max_notional_negative max_open_orders_negative min_margin_ratio_negative : Err
  min_health_ratio_negative max_market_age_negative max_account_age_negative : Err
  config_path_required : Err
  config_invalid : (field : String) → Err
  external : String → Err

pub data Result {ℓ} (A : Type ℓ) : Type ℓ where
  ok : A → Result A
  err : Err → Result A

module _ {ℓ} {A : Type ℓ} where
  pub Result-cases : (r : Result A) → ((a : A) × (r ≡ ok a)) ⊎ ((e : Err) × (r ≡ err e))
  Result-cases (ok a) = inl (a, refl)
  Result-cases (err e) = inr (e, refl)
