-- ===== src/Gateway/Routes/Approval.antt =====
-- What an approval leaves in the store and in the ledger.
use finance.Base.{
  String, Option, none, some, suc, length, List, [], ◌∷◌, ◌++◌, map, eq_iff, ◌≡◌, ◌≢◌, refl, ap,
  ◌∙◌, arith,
}
use finance.Base.Dict.{Dict, lookup, insert, lookup-insert, lookup-insert_self}
use finance.Base.Float.{FloatOps}
use finance.Gateway.Routes.{ok, StepUpApproval, contribute, share, share_in_index, approve}
use finance.Ledger.Store.{get}
use finance.Models.{DecisionEnvelope, Encoding, StepUpChallenge}
use finance.Pipeline.Orchestrator.{Services, Orchestrator}
use finance.Pipeline.RiskStepup.{verify_quorum}
use finance.State.Stepup

map-append : {A B : Type 0} (f : A → B) (xs ys : List A) → map f (xs ++ ys) ≡ map f xs ++ map f ys
map-append f [] ys = refl
map-append f (x ∷ xs) ys = ap (λ zs. f x ∷ zs) (map-append f xs ys)

length-map : {A B : Type 0} (f : A → B) (xs : List A) → length (map f xs) ≡ length xs
length-map f [] = refl
length-map f (x ∷ xs) = ap suc (length-map f xs)

module _ {F : Type 0} where
  -- An envelope without this challenge.
  abbrev pub IsOther : StepUpChallenge → DecisionEnvelope F → Type 0
  IsOther challenge env =
      (held : StepUpChallenge) → env.stepup ≡ some held → held.challenge_id ≢ challenge.challenge_id

  share-IsOther :
      (challenge : StepUpChallenge) (env : DecisionEnvelope F) (held : Option StepUpChallenge)
      → ((ch : StepUpChallenge) → held ≡ some ch → ch.challenge_id ≢ challenge.challenge_id)
      → share challenge env held ≡ env
  share-IsOther challenge env none h = refl
  share-IsOther challenge env (some ch) h =
      ground (arith, h ch refl, eq_iff ch.challenge_id challenge.challenge_id)

  share-held :
      (challenge : StepUpChallenge) (env : DecisionEnvelope F) (ch : StepUpChallenge)
      → env.stepup ≡ some ch
      → ch.challenge_id ≡ challenge.challenge_id
      → share challenge env env.stepup ≡ record env { stepup = some challenge }
  share-held challenge env ch held same =
      ap (share challenge env) held
      ∙ ground (arith, (eq_iff ch.challenge_id challenge.challenge_id).1 same)

  abbrev share_found : StepUpChallenge → Option (DecisionEnvelope F) → Option (DecisionEnvelope F)
  share_found challenge none = none
  share_found challenge (some env) = some (share challenge env env.stepup)

  lookup-share_in_index :
      (id : String) (challenge : StepUpChallenge) (index : Dict (DecisionEnvelope F))
      → lookup id (share_in_index challenge index) ≡ share_found challenge (lookup id index)
  lookup-share_in_index id challenge [] = refl
  lookup-share_in_index id challenge ((j, e) ∷ index) =
      ground (arith, lookup-share_in_index id challenge index)

  share_found-IsOther :
      (challenge : StepUpChallenge) (found : Option (DecisionEnvelope F))
      → ((e : DecisionEnvelope F) → found ≡ some e → IsOther challenge e)
      → share_found challenge found ≡ found
  share_found-IsOther challenge none h = refl
  share_found-IsOther challenge (some e) h = ap some (share-IsOther challenge e e.stepup (h e refl))

module _ {F : Type 0} ⦃fl : FloatOps F⦄ ⦃enc : Encoding F⦄ (svc : Services F) where
  -- An approval of a stored challenge, whose decision's envelope is in the ledger, answers with the
  -- quorum over the contributions that are then stored: the signer's is the new signature, every
  -- other signer's is the old one. The envelope, at its place in the ledger and under its id, then
  -- has the contribution too, though it was signed without it, and is otherwise as it was. What is
  -- found under an id whose envelope does not have this challenge, and the backend, are as they were.
  pub approve_lem :
      (challenge : StepUpChallenge) (body : StepUpApproval) (other : String) (orch : Orchestrator F)
      (decision_id other_id : String) (env : DecisionEnvelope F)
      (before after : List (DecisionEnvelope F))
      → lookup challenge.challenge_id orch.stepup ≡ some challenge
      → other ≢ body.signer_did
      → get decision_id orch.ledger ≡ some env
      → env.stepup ≡ some challenge
      → orch.ledger.entries ≡ before ++ (env ∷ after)
      → ((e : DecisionEnvelope F) → get other_id orch.ledger ≡ some e → IsOther challenge e)
      → let (orch', response) = approve svc challenge.challenge_id body orch in
        let stored = contribute body challenge in
        let changed : DecisionEnvelope F = record env { stepup = some stored } in
        let quorum = verify_quorum svc.crypto svc.public_key stored stored.contributions in
        (response ≡ ok (record { satisfied = quorum.0; remaining = quorum.1 }))
        × (lookup challenge.challenge_id orch'.stepup ≡ some stored)
        × (lookup body.signer_did stored.contributions ≡ some body.signature)
        × (lookup other stored.contributions ≡ lookup other challenge.contributions)
        × (get decision_id orch'.ledger ≡ some changed)
        × ((before' : List (DecisionEnvelope F)) × (after' : List (DecisionEnvelope F))
            × (orch'.ledger.entries ≡ before' ++ (changed ∷ after'))
            × (length before' ≡ length before))
        × (get other_id orch'.ledger ≡ get other_id orch.ledger)
        × (orch'.ledger.backend ≡ orch.ledger.backend)
  unfolding approve Stepup.get Stepup.put get
  approve_lem challenge body other orch decision_id other_id env before after known differs mine
        held stands apart =
      let new = insert body.signer_did body.signature challenge.contributions in
      let stored = contribute body challenge in
      let shared = share-held stored env challenge held refl in
      let f : DecisionEnvelope F → DecisionEnvelope F = λ e. share stored e e.stepup in
      rw known (
        refl,
        lookup-insert_self challenge.challenge_id stored orch.stepup,
        lookup-insert_self body.signer_did body.signature challenge.contributions,
        ground (
          arith,
          lookup-insert body.signer_did other body.signature challenge.contributions,
          eq_iff body.signer_did other,
        ),
        (lookup-share_in_index decision_id stored orch.ledger.by_id
            ∙ ap (share_found stored) mine
            ∙ ap some shared),
        (
          map f before,
          map f after,
          (ap (map f) stands
              ∙ map-append f before (env ∷ after)
              ∙ ap (λ e. map f before ++ (e ∷ map f after)) shared),
          length-map f before,
        ),
        (lookup-share_in_index other_id stored orch.ledger.by_id
            ∙ share_found-IsOther stored (lookup other_id orch.ledger.by_id) apart),
        refl,
      )
