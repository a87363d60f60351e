-- ===== src/Web/Host.antt =====
-- The functions of the platform and of packages that the components call, as a parameter: floating
-- point numbers, dates, the URL parser and case mapping. No law of them is assumed here.
use bittuly.Prelude.{ℕ, Bool, Option, List, String}

pub record Host : Type 1 where
  -- `number`, where it may be a fraction.
  pub Num : Type 0
  pub of_ℕ : ℕ → Num
  pub div : Num → Num → Num
  pub mul : Num → Num → Num
  pub add : Num → Num → Num
  pub neg : Num → Num
  -- `Math.PI`, `Math.cos` and `Math.sin`.
  pub pi : Num
  pub cos : Num → Num
  pub sin : Num → Num
  -- `x < y` and `x > 0`.
  pub is_less : Num → Num → Bool
  pub is_positive : Num → Bool
  -- `x.toFixed(n)` and `${x}`.
  pub to_fixed : Num → ℕ → String
  pub number_text : Num → String
  -- `new URL(s).protocol`, or none where the constructor throws.
  pub url_protocol : String → Option String
  -- `new Date(s).toISOString()`, or none where it throws.
  pub to_iso : String → Option String
  -- `new Date(s) < new Date()`.
  pub is_past : String → Bool
  -- `new Date(s)` by `toLocaleString`, `toLocaleDateString` in the two styles used, and `format`.
  pub short_date_time : String → String
  pub medium_date : String → String
  pub indian_date : String → String
  pub month_year : String → String
  -- `toLocaleTimeString` of a time given in milliseconds.
  pub clock_time : ℕ → String
  -- `toUpperCase` on UTF-16 units.
  pub to_upper : List ℕ → List ℕ
  -- The text that some UTF-16 units show.
  pub units_text : List ℕ → String
