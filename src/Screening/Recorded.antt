-- ===== src/Screening/Recorded.antt =====
-- `RecordedScreeningProvider` of aegis/screening/provider.py: the answers of a decision's archive.
use Prim.Native.String.{◌++◌}
use finance.Base.{String, Option, none, some, List, if◌then◌else◌}
use finance.Base.Dict.{lookup}
use finance.Ledger.Backend.{ScreeningSnapshot}
use finance.Models.{ScreeningCandidate, ListProvenance, truthy}
use finance.Pipeline.Context.{Reply, answer, unavailable}
use finance.Pipeline.Sanctions.{ScreeningProvider}

-- `self._error or message`
abbrev pub error_or : Option String → String → String
error_or none message = message
error_or (some e) message = if truthy (some e) then e else message

module _ {F : Type 0} where
  abbrev pub recorded_provenance :
      ScreeningSnapshot F → Option (ListProvenance F) → Reply (ListProvenance F)
  recorded_provenance snapshot (some prov) = answer prov
  recorded_provenance snapshot none =
      unavailable (error_or snapshot.error "no screening provenance recorded for this decision")

  abbrev pub recorded_candidates :
      ScreeningSnapshot F
      → String
      → Option (List (ScreeningCandidate F))
      → Reply (List (ScreeningCandidate F))
  recorded_candidates snapshot name (some cands) = answer cands
  recorded_candidates snapshot name none =
      unavailable (error_or snapshot.error ("no recorded screening responses for " ++ name))

  unfoldable pub recorded_provider : ScreeningSnapshot F → ScreeningProvider F
  recorded_provider snapshot = record {
    provenance = recorded_provenance snapshot snapshot.provenance;
    screen = λ name. recorded_candidates snapshot name (lookup name snapshot.queries);
  }
