-- ===== src/Api/Health.antt =====
-- web/src/api/health.ts. `status` is what the server sends; the body's shape is not checked there.
use bittuly.Prelude.{ℕ, Bool, false, Option, none, some, String}
use bittuly.Api.Client.{Env, or_default}

pub record HealthData : Type 0 where
  pub status : String
  pub postgres : String
  pub redis : String
  pub version : String
  pub uptime_secs : ℕ

unfoldable pub health_base_url : Env → String
health_base_url env = or_default env.vite_urls_api_url "http://localhost:8000"

pub record HealthResult : Type 0 where
  pub payload : HealthData
  pub ok : Bool

abbrev pub unreachable : HealthResult
unreachable = record {
  ok = false;
  payload = record {
    status = "degraded";
    postgres = "error: unreachable";
    redis = "error: unreachable";
    version = "—";
    uptime_secs = 0;
  };
}

-- `getHealth` on what `fetch` and `res.json()` gave: `none` for a failed fetch, and for the body
-- where it is no JSON. It has no error result.
unfoldable pub get_health : Option (Bool × Option HealthData) → HealthResult
get_health none = unreachable
get_health (some (ok, none)) = unreachable
get_health (some (ok, some body)) = record { payload = body; ok = ok }
