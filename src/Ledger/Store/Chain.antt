-- ===== src/Ledger/Store/Chain.antt =====
-- The hash chain of the ledger under `append`, and its reopening from the backend.
use finance.Base.{
  ℕ, ◌+◌, String, true, Option, none, some, List, [], ◌∷◌, ◌++◌, ◌==◌, eq_refl, ◌≡◌, refl, sym, ap,
  ◌∙◌, arith,
}
use finance.Base.Dict.{insert, lookup, lookup-insert_self}
use finance.Base.Platform.{Crypto, SignsCorrectly}
use finance.Models.{DecisionEnvelope, Encoding, signing_payload}
use finance.Ledger.Backend.{EvaluationArchive, init_meta}
use finance.Ledger.Backend
use finance.Ledger.Store.{
  DecisionLedger, genesis_hash, head_from, head_hash, get, entry_hash, seal, append,
  verify_signature, first_bad, verify_chain, opened, index, open_ledger,
}

module _ {F : Type 0} ⦃enc : Encoding F⦄ (cr : Crypto) where
  -- What `__init__` establishes and `append` keeps.
  pub record IsIntact (l : DecisionLedger F) : Type 0 where
    pub own_key : l.signing_pub ≡ cr.public_of l.signing_key
    pub chained : verify_chain cr l ≡ none
    pub stored : l.backend.rows ≡ l.entries
    pub indexed : l.by_id ≡ index l.entries []
    pub bound : lookup "signing_pub_hex" l.backend.meta ≡ some l.signing_pub

  first_bad-append :
      (signing_pub : String) (i : ℕ) (prev : String) (es : List (DecisionEnvelope F))
      → (env : DecisionEnvelope F) → first_bad cr signing_pub i prev es ≡ none
      → ((j : ℕ) → first_bad cr signing_pub j (head_from prev es) (env ∷ []) ≡ none)
      → first_bad cr signing_pub i prev (es ++ env ∷ []) ≡ none
  unfolding first_bad
  first_bad-append signing_pub i prev [] env h last = last i
  first_bad-append signing_pub i prev (e ∷ es) env h last =
      ground (arith, first_bad-append signing_pub (i + 1) e.this_hash es env)

  first_bad-seal :
      SignsCorrectly cr
      → (key prev : String) (i : ℕ) (env : DecisionEnvelope F)
      → first_bad cr (cr.public_of key) i prev (seal cr key prev env ∷ []) ≡ none
  unfolding first_bad seal verify_signature entry_hash
  first_bad-seal signs key prev i env =
      let env' = seal cr key prev env in
      let signed : verify_signature cr (cr.public_of key) env' ≡ true =
        signs key (signing_payload env') in
      let hashed : (entry_hash cr env' == env'.this_hash) ≡ true = eq_refl (entry_hash cr env') in
      ground (arith, eq_refl prev, signed, hashed)

  index-append :
      (es : List (DecisionEnvelope F)) (env : DecisionEnvelope F) (by_id : _)
      → index (es ++ env ∷ []) by_id ≡ insert env.decision_id env (index es by_id)
  unfolding index
  index-append [] env by_id = refl
  index-append (e ∷ es) env by_id = index-append es env (insert e.decision_id e by_id)

  -- Where a signature verifies under its own key: an intact ledger is intact after an append, its
  -- chain included; it holds one more envelope, which is found by its id, names the old head as its
  -- predecessor and is the new head.
  pub append-IsIntact :
      SignsCorrectly cr
      → (env : DecisionEnvelope F) (archive : Option (EvaluationArchive F)) (l : DecisionLedger F)
      → IsIntact l
      → let (l', env') = append cr env archive l in
        IsIntact l'
        × (l'.entries ≡ l.entries ++ env' ∷ [])
        × (get env.decision_id l' ≡ some env')
        × (env'.prev_envelope_hash ≡ head_hash l)
        × (head_hash l' ≡ env'.this_hash)
  unfolding append verify_chain get Backend.append seal head_hash
  append-IsIntact signs env archive l intact =
      let env' = seal cr l.signing_key (head_hash l) env in
      (
        record {
          own_key = intact.own_key;
          chained =
              first_bad-append l.signing_pub 0 genesis_hash l.entries env' intact.chained
                (λ j. rw intact.own_key (first_bad-seal signs l.signing_key (head_hash l) j env));
          stored = ap (λ es. es ++ env' ∷ []) intact.stored;
          indexed =
              ap (insert env'.decision_id env') intact.indexed
              ∙ sym (index-append l.entries env' []);
          bound = intact.bound;
        },
        refl,
        lookup-insert_self env'.decision_id env' l.by_id,
        refl,
        head_from-append genesis_hash l.entries env',
      )
    where
      head_from-append :
          (prev : String) (es : List (DecisionEnvelope F)) (env : DecisionEnvelope F)
          → head_from prev (es ++ env ∷ []) ≡ env.this_hash
      head_from-append prev [] env = refl
      head_from-append prev (e ∷ es) env = head_from-append e.this_hash es env

  -- The backend of an intact ledger opens under the same key to the same ledger.
  pub open_ledger-IsIntact :
      (l : DecisionLedger F)
      → IsIntact l
      → open_ledger cr l.signing_key l.signing_pub l.backend ≡ opened l
  unfolding open_ledger init_meta verify_chain
  open_ledger-IsIntact l intact =
      let by_id : index l.backend.rows [] ≡ l.by_id =
        ap (λ es. index es []) intact.stored ∙ sym intact.indexed in
      let sound : first_bad cr l.signing_pub 0 genesis_hash l.backend.rows ≡ none =
        ap (first_bad cr l.signing_pub 0 genesis_hash) intact.stored ∙ intact.chained in
      let same : (l.signing_pub == l.signing_pub) ≡ true = eq_refl l.signing_pub in
      rw (intact.bound, same, sound)
        (λ i. opened (record l { entries = intact.stored i; by_id = by_id i }))
