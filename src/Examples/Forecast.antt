-- ===== src/Examples/Forecast.antt =====
-- The forecast of the next funding payment at concrete inputs: hourly payments, the last one known
-- three and a half hours ago.
use hyper_basis.Prelude.{◌-◌, ◌^◌, ◌≡◌, refl, some, arith}
use hyper_basis.Prelude.Int.{ℤ, pos, seconds, +ℤ_parts}
use hyper_basis.Prelude.Float.{Fixed}
use hyper_basis.Market.Funding.{FundingForecast, normalize_funding_forecast}
use hyper_basis.Market.Funding.Next.{Upcoming, normalize_funding_forecast-Upcoming}

abbrev hourly : FundingForecast Fixed
hourly = record {
  rate = some (pos 1000);
  next_funding = some (seconds 3600);
  observed_at = seconds 16200;
  interval = seconds 3600;
  raw_asset_name = "BTC";
  source = "HlPerp";
}

normalize_funding_forecast-Upcoming_example :
    (moved : ℤ) × ((normalize_funding_forecast hourly (seconds 16200)).next_funding ≡ some moved)
    × Upcoming (seconds 3600) (seconds 16200) 3_600_000_000_000 moved
normalize_funding_forecast-Upcoming_example =
    normalize_funding_forecast-Upcoming hourly (seconds 3600) (seconds 16200) 3_599_999_999_999 refl
      refl refl (omega (arith, +ℤ_parts (seconds 3600) (pos (2 ^ 62 - 1)))) (omega arith)
