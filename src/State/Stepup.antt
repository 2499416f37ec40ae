-- ===== src/State/Stepup.antt =====
-- aegis/state/stepup.py: `StepUpStore`, the open challenges by id.
use finance.Base.{String, Option, []}
use finance.Base.Dict.{Dict, lookup, insert, erase}
use finance.Models.{StepUpChallenge}

abbrev pub StepUpStore : Type 0
StepUpStore = Dict StepUpChallenge

unfoldable pub put : StepUpChallenge → StepUpStore → StepUpStore
put challenge store = insert challenge.challenge_id challenge store

unfoldable pub get : String → StepUpStore → Option StepUpChallenge
get challenge_id store = lookup challenge_id store

unfoldable pub delete : String → StepUpStore → StepUpStore
delete challenge_id store = erase challenge_id store

pub reset : StepUpStore → StepUpStore
reset store = []
