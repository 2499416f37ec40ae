-- ===== src/Config.antt =====
-- aegis/config.py: the thresholds of the ruleset.
use finance.Base.{ℕ, String, List, [], ◌∷◌}
use finance.Base.Dict.{Dict}
use finance.Base.Float.{FloatOps, lit}

abbrev pub ruleset_version : String
ruleset_version = "aegis-ruleset-2026.07.0"

abbrev pub restricted_jurisdictions : List String
restricted_jurisdictions = "IR" ∷ "KP" ∷ "SY" ∷ "CU" ∷ []

abbrev pub structuring_min_cluster : ℕ
structuring_min_cluster = 3

abbrev pub velocity_max_count_24h : ℕ
velocity_max_count_24h = 50

module _ {F : Type 0} ⦃fl : FloatOps F⦄ where
  abbrev pub travel_rule_threshold_default_usd : F
  travel_rule_threshold_default_usd = lit 1000 0

  abbrev pub travel_rule_thresholds_usd : Dict F
  travel_rule_thresholds_usd =
      ("US", lit 3000 0)
      ∷ ("EU", lit 1000 0)
      ∷ ("GB", lit 1000 0)
      ∷ ("SG", lit 1000 0)
      ∷ ("JP", lit 1000 0)
      ∷ ("CH", lit 1000 0)
      ∷ ("AE", lit 1000 0)
      ∷ []

  abbrev pub sanctions_match_threshold : F
  sanctions_match_threshold = lit 90 2

  abbrev pub phonetic_match_bonus : F
  phonetic_match_bonus = lit 6 2

  abbrev pub ofac_ownership_block_ratio : F
  ofac_ownership_block_ratio = lit 50 2

  abbrev pub screening_max_list_age_seconds : F
  screening_max_list_age_seconds = lit 604800 0

  abbrev pub ctr_threshold_usd : F
  ctr_threshold_usd = lit 10000 0

  abbrev pub structuring_window_seconds : F
  structuring_window_seconds = lit 86400 0

  abbrev pub velocity_max_value_24h_usd : F
  velocity_max_value_24h_usd = lit 250000 0

  abbrev pub intent_drift_threshold : F
  intent_drift_threshold = lit 85 2

  abbrev pub risk_low_band : F
  risk_low_band = lit 40 0

  abbrev pub risk_stepup_band : F
  risk_stepup_band = lit 75 0

  abbrev pub hnp_baseline_risk : F
  hnp_baseline_risk = lit 10 0

  abbrev pub hnp_risk_low_band : F
  hnp_risk_low_band = lit 25 0

  abbrev pub hnp_risk_stepup_band : F
  hnp_risk_stepup_band = lit 65 0

  abbrev pub reg_e_consumer_cap_ratio : F
  reg_e_consumer_cap_ratio = lit 10 2
