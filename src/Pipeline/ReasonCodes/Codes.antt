-- ===== src/Pipeline/ReasonCodes/Codes.antt =====
-- The reason codes of an envelope against the signals of its decision.
use finance.Base.{
  String, List, [], ◌∷◌, contains, Distinct, any, not, ◌&&◌, ◌==◌, eq_iff, ◌≡◌, refl, arith,
}
use finance.Models.{Signal}
use finance.Pipeline.ReasonCodes.{unique_codes}

module _ {F : Type 0} where
  contains-unique_codes :
      (code : String) (seen : List String) (signals : List (Signal F))
      → contains code (unique_codes seen signals)
        ≡ (any (λ s. code == s.code) signals && not (contains code seen))
  unfolding unique_codes
  contains-unique_codes code seen [] = refl
  contains-unique_codes code seen (s ∷ ss) = ground (
    arith,
    contains-unique_codes code seen ss,
    contains-unique_codes code (s.code ∷ seen) ss,
    eq_iff code s.code,
  )

  Distinct-unique_codes :
      (seen : List String) (signals : List (Signal F)) → Distinct (unique_codes seen signals)
  unfolding unique_codes
  Distinct-unique_codes seen [] = tt
  Distinct-unique_codes seen (s ∷ ss) = ground (
    arith,
    Distinct-unique_codes seen ss,
    Distinct-unique_codes (s.code ∷ seen) ss,
    contains-unique_codes s.code (s.code ∷ seen) ss,
    eq_iff s.code s.code,
  )

  -- The reason codes of a decision name each code of its signals, no other code, and none twice.
  pub unique_codes_lem :
      (signals : List (Signal F))
      → Distinct (unique_codes [] signals)
        × ((code : String)
            → contains code (unique_codes [] signals) ≡ any (λ s. code == s.code) signals)
  unique_codes_lem signals = (
    Distinct-unique_codes [] signals,
    λ code. ground (arith, contains-unique_codes code [] signals),
  )
