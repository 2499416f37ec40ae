-- ===== src/Tests/Mandates.antt =====
-- A delegation chain: built, serialized, parsed and verified.
use finance.Base.{false, true, Bool, some, [], ◌∷◌, ◌≡◌, refl, arith, All}
use finance.Base.Int.{ℤ}
use finance.Pipeline.Context.{done}
use finance.Samples.Delegation.{
  whole, toy, built_with, chain_of, open_text, closed_text, checkout_text, verifying, closed_doc,
  open_doc, open_claimed, kb_doc, header_of,
}
use finance.Ap2.Json.{Json, text}
use finance.Ap2.Sdjwt.{Sdjwt, parse, serialize, last}
use finance.Ap2.Sdjwt.Container.{parse-serialize}
use finance.Ap2.Jws.{sign_jws, parse_jws, verify_jws}
use finance.Ap2.Jws.Signing.{signing_input, parse_jws-sign_jws}
use finance.Ap2.Disclosures.Integrity.{IsOffered, presented, disclose-IsOffered}
use finance.Ap2.Disclosures.{disclose}
use finance.Ap2.Disclosures.Stopping.{overflows}
use finance.Ap2.Disclosures.Termination.{disclose-Stops}
use finance.Ap2.Verifier.{VerifyResult, Credentials, verify_delegation_chain}
use finance.Ap2.Verifier.Sound.{IsAuthorized, verify_delegation_chain-IsAuthorized}

-- what the runs below compute with
delegation : Bool
unfolding finance.Ap2.Disclosures.collect finance.Ap2.Disclosures.digest
    finance.Ap2.Disclosures.disclose finance.Ap2.Disclosures.make_array_disclosure
    finance.Ap2.Disclosures.make_object_disclosure finance.Ap2.Disclosures.parse_disclosure
    finance.Ap2.Disclosures.reveal finance.Ap2.Disclosures.reveal_element
    finance.Ap2.Disclosures.walk finance.Ap2.Disclosures.walk_digests
    finance.Ap2.Disclosures.walk_element finance.Ap2.Disclosures.walk_items
    finance.Ap2.Disclosures.walk_member finance.Ap2.Disclosures.walk_members
    finance.Ap2.Disclosures.walk_node finance.Ap2.Issuance.add_arrays
    finance.Ap2.Issuance.array_disclosures finance.Ap2.Issuance.decoy_digest
    finance.Ap2.Issuance.decoy_digests finance.Ap2.Issuance.fresh_salt
    finance.Ap2.Issuance.issue_sd_jwt finance.Ap2.Issuance.object_disclosures
    finance.Ap2.Json.get_or finance.Ap2.Json.iterate finance.Ap2.Json.put finance.Ap2.Json.same_json
    finance.Ap2.Jws.parse_jws finance.Ap2.Jws.sign_jws finance.Ap2.Jws.verify_jws
    finance.Ap2.Mandates.as_list finance.Ap2.Mandates.build_chain
    finance.Ap2.Mandates.build_closed_mandate finance.Ap2.Mandates.build_open_mandate
    finance.Ap2.Mandates.checkout_of finance.Ap2.Mandates.closed_claims
    finance.Ap2.Mandates.make_checkout_jwt finance.Ap2.Mandates.open_claims
    finance.Ap2.Mandates.seal_closed finance.Ap2.Sdjwt.issuer_hash finance.Ap2.Sdjwt.jwk_from_public
    finance.Ap2.Sdjwt.kb_payload finance.Ap2.Sdjwt.make_kb_jwt finance.Ap2.Sdjwt.parse
    finance.Ap2.Sdjwt.payload finance.Ap2.Sdjwt.presentation_without_kb
    finance.Ap2.Sdjwt.public_raw_from_jwk finance.Ap2.Sdjwt.sd_hash finance.Ap2.Sdjwt.serialize
    finance.Ap2.Sdjwt.sha256_b64u finance.Ap2.Sdjwt.verify_kb_jwt finance.Ap2.Text.is_ascii
    finance.Ap2.Text.join finance.Ap2.Text.split_on finance.Ap2.Verifier.bound
    finance.Ap2.Verifier.checked_out finance.Ap2.Verifier.constrained
    finance.Ap2.Verifier.constraint_ctx finance.Ap2.Verifier.credentials
    finance.Ap2.Verifier.disclosed finance.Ap2.Verifier.evaluate finance.Ap2.Verifier.evaluate_each
    finance.Ap2.Verifier.holder_signed finance.Ap2.Verifier.issuer_signed
    finance.Ap2.Verifier.locked finance.Samples.Delegation.printed
    finance.Ap2.Verifier.verify_delegation_chain
delegation = true

tea_chain : chain_of (built_with toy) ≡ (open_text ∷ closed_text ∷ [], checkout_text)
unfolding delegation
tea_chain = refl

abbrev verified_tea : VerifyResult ℤ
verified_tea = record {
  ok = true;
  code = "ok";
  closed_payload = some closed_doc;
  constraint_results = record { ok = true; type = text "ceiling" } ∷ [];
}

tea_verifies :
    verify_delegation_chain toy 20 (open_text ∷ closed_text ∷ []) checkout_text verifying
    ≡ done verified_tea
unfolding delegation
tea_verifies = refl

verify_delegation_chain-IsAuthorized_example :
    (c : Credentials ℤ) × (verified_tea.closed_payload ≡ some c.closed_payload)
    × IsAuthorized toy 20 verifying open_text closed_text checkout_text c
verify_delegation_chain-IsAuthorized_example =
    verify_delegation_chain-IsAuthorized toy 20 verifying open_text closed_text [] checkout_text
      verified_tea tea_verifies refl

disclose-IsOffered_example :
    All (IsOffered toy open_doc (presented toy (parse open_text))) (parse open_text).disclosures
unfolding delegation
disclose-IsOffered_example =
    disclose-IsOffered toy 20 (parse open_text) open_doc open_claimed refl refl

abbrev compact_tea : Sdjwt
compact_tea = record { issuer_jwt = "h.p.s"; disclosures = "d1" ∷ "d2" ∷ []; kb_jwt = some "k.b.j" }

parse-serialize_example : parse (serialize compact_tea) ≡ compact_tea
unfolding delegation finance.Ap2.Text.is_free
parse-serialize_example = parse-serialize compact_tea (record {
  issuer_free = refl;
  disclosures_free = (refl, (refl, tt));
  disclosures_full = refl;
  kb_free = refl;
  kb_full = refl;
})

parse_jws-sign_jws_example :
    parse_jws toy (sign_jws toy (header_of "kb+jwt") kb_doc "agent")
    ≡ some (header_of "kb+jwt", kb_doc, signing_input toy (header_of "kb+jwt") kb_doc, "agent")
unfolding delegation finance.Ap2.Text.is_free
parse_jws-sign_jws_example =
    parse_jws-sign_jws toy (header_of "kb+jwt") kb_doc (header_of "kb+jwt") kb_doc "agent"
      ((refl, refl), (refl, refl), (refl, refl)) refl refl

-- each disclosure brings a text, which offers no digest
disclose-Stops_example : overflows (disclose toy 20 (parse open_text)) ≡ false
unfolding delegation finance.Ap2.Disclosures.Stopping.height
disclose-Stops_example =
    disclose-Stops (λ g. 1) toy 20 (parse open_text) open_doc refl (omega arith)
      (omega arith, (omega arith, tt))
