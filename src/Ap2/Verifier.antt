-- ===== src/Ap2/Verifier.antt =====
-- aegis/ap2/verifier.py: `verify_delegation_chain`, and `evaluate` of aegis/ap2/constraints.py on
-- the JSON of a closed mandate.
pub mod Steps
pub mod Rules
pub mod Signed
pub mod Authorized
pub mod Sound
use finance.Base.{
  ℕ, String, Bool, true, false, not, Option, none, some, List, [], ◌∷◌, all, ◌&&◌, if◌then◌else◌,
}
use finance.Base.Dict.{Dict, lookup}
use finance.Pipeline.Context.{Outcome, done, raised}
use finance.Ap2.Json.{
  Numbers, Json, null, number, text, array, object, nil, end, get_or, get, truthy, same_json,
  hashable, iterate,
}
use finance.Ap2.Jws.{JoseOps, parse_jws, verify_jws}
use finance.Ap2.Sdjwt.{
  Sdjwt, parse, payload, encoded, sha256_b64u, sd_hash, issuer_hash, public_raw_from_jwk,
  verify_kb_jwt, or_raise, last,
}
use finance.Ap2.Disclosures.{disclose}

-- `ConstraintResult`
pub record Ruling (N : Type 0) : Type 0 where
  pub ok : Bool
  pub type : Json N

-- the dict of `constraint_ctx`
pub record ConstraintFacts (N : Type 0) : Type 0 where
  pub now : N
  pub executed_fx_rate : Option N
  pub velocity_observed : Json N
  pub disclosed_merchants : Json N

-- A verifier of a constraint, the closed mandate and the facts; it may raise.
abbrev pub Rule : Type 0 → Type 0
Rule N = Json N → Json N → ConstraintFacts N → Outcome (Ruling N)

pub record VerifyContext (N : Type 0) : Type 0 where
  pub now : N
  pub nonce : String
  pub registry : Dict (Rule N)
  pub issuer_resolver : Json N → Outcome (Option String)
  pub executed_fx_rate : Option N
  pub velocity_observed : Json N

unfoldable pub constraint_ctx : {N : Type 0} → VerifyContext N → Json N → ConstraintFacts N
constraint_ctx ctx disclosed_merchants = record {
  now = ctx.now;
  executed_fx_rate = ctx.executed_fx_rate;
  velocity_observed = ctx.velocity_observed;
  disclosed_merchants = disclosed_merchants;
}

pub record VerifyResult (N : Type 0) : Type 0 where
  pub ok : Bool
  pub code : String
  pub closed_payload : Option (Json N)
  pub constraint_results : List (Ruling N)

-- A verification that goes on, has failed with a code, or has raised.
pub data Step (A : Type 0) : Type 0 where
  go : A → Step A
  fail : String → Step A
  crash : String → Step A

infixl 5 ◌>>=◌ ◌>>◌
abbrev pub ◌>>=◌ : {A B : Type 0} → Step A → (A → Step B) → Step B
go a >>= f = f a
fail code >>= f = fail code
crash e >>= f = crash e

abbrev pub ◌>>◌ : {B : Type 0} → Step (Unit {0}) → Step B → Step B
m >> k = m >>= λ _. k

-- `if not condition: return VerifyResult.fail(code)`
abbrev pub require : Bool → String → Step (Unit {0})
require true code = go tt
require false code = fail code

-- a call whose exception is not caught
abbrev pub call : {A : Type 0} → Outcome A → Step A
call (done a) = go a
call (raised e) = crash e

-- a call in a `try` block that fails with a code
abbrev pub attempt : {A : Type 0} → String → Outcome A → Step A
attempt code (done a) = go a
attempt code (raised e) = fail code

-- a value that is not None
abbrev pub present_or : {A : Type 0} → String → Option A → Step A
present_or code (some a) = go a
present_or code none = fail code

module _ {N : Type 0} where
  abbrev pub and_then : Outcome (Ruling N) → Outcome (List (Ruling N)) → Outcome (List (Ruling N))
  and_then (raised e) rest = raised e
  and_then (done r) (raised e) = raised e
  and_then (done r) (done rs) = done (r ∷ rs)

  -- the verifier registered for a type: `self._v.get(type)`
  abbrev pub rule_for : Dict (Rule N) → Json N → Outcome (Option (Rule N))
  rule_for registry (text t) = done (lookup t registry)
  rule_for registry (array xs) = raised "TypeError"
  rule_for registry (object ms) = raised "TypeError"
  rule_for registry _ = done none

  -- one constraint: an unknown type fails
  abbrev pub apply_rule :
      Outcome (Option (Rule N)) → Json N → Json N → Json N → ConstraintFacts N → Outcome (Ruling N)
  apply_rule (raised e) type c closed facts = raised e
  apply_rule (done none) type c closed facts = done (record { ok = false; type = type })
  apply_rule (done (some rule)) type c closed facts = rule c closed facts

  abbrev pub rule_on :
      Dict (Rule N) → Outcome (Json N) → Json N → Json N → ConstraintFacts N → Outcome (Ruling N)
  rule_on registry (raised e) c closed facts = raised e
  rule_on registry (done type) c closed facts =
      apply_rule (rule_for registry type) type c closed facts

  unfoldable pub evaluate_each :
      Dict (Rule N) → List (Json N) → Json N → ConstraintFacts N → Outcome (List (Ruling N))
  evaluate_each registry [] closed facts = done []
  evaluate_each registry (c ∷ cs) closed facts =
      and_then (rule_on registry (get "type" c) c closed facts)
        (evaluate_each registry cs closed facts)

  abbrev pub constraints_in : Outcome (Json N) → Outcome (List (Json N))
  constraints_in (raised e) = raised e
  constraints_in (done cs) = iterate cs

  abbrev pub evaluate_in :
      Dict (Rule N)
      → Outcome (List (Json N))
      → Json N
      → ConstraintFacts N
      → Outcome (List (Ruling N))
  evaluate_in registry (raised e) closed facts = raised e
  evaluate_in registry (done cs) closed facts = evaluate_each registry cs closed facts

  -- `registry.evaluate(closed, ctx)`
  unfoldable pub evaluate : Dict (Rule N) → Json N → ConstraintFacts N → Outcome (List (Ruling N))
  evaluate registry closed facts =
      evaluate_in registry (constraints_in (get_or "constraints" (array nil) closed)) closed facts

-- What the credentials of a chain give to the later steps.
pub record Credentials (N : Type 0) : Type 0 where
  pub open_m : Sdjwt
  pub closed_m : Sdjwt
  pub open_payload : Json N
  pub closed_payload : Json N
  pub cnf : Json N

module _ {N : Type 0} where
  abbrev pub failed : String → VerifyResult N
  failed code = record { ok = false; code = code; closed_payload = none; constraint_results = [] }

  abbrev pub passed : Json N × List (Ruling N) → VerifyResult N
  passed (closed_payload, results) = record {
    ok = true;
    code = "ok";
    closed_payload = some closed_payload;
    constraint_results = results;
  }

  abbrev pub answered : Step (Json N × List (Ruling N)) → Outcome (VerifyResult N)
  answered (go found) = done (passed found)
  answered (fail code) = done (failed code)
  answered (crash e) = raised e

module _ {N : Type 0} ⦃ns : Numbers N⦄ where
  -- `a.get(k) != b.get(j)`, which fails
  abbrev pub same_member : String → Json N → String → Json N → String → Step (Unit {0})
  same_member k a j b code = do v ← call (get k a); w ← call (get j b); require (same_json v w) code

module _ {N : Type 0} ⦃ns : Numbers N⦄ (jose : JoseOps (Json N)) (frames : ℕ) where
  -- step 1, up to the signature of the open mandate
  unfoldable pub issuer_signed : VerifyContext N → Sdjwt → Json N → Step (Unit {0})
  issuer_signed ctx open_m open_payload = do
    iss ← call (get_or "iss" (text "") open_payload)
    found ← call (ctx.issuer_resolver iss)
    issuer_pub ← present_or "invalid_credential" found
    require (verify_jws jose open_m.issuer_jwt issuer_pub) "invalid_credential"

  -- step 1, the holder's key and signature
  unfoldable pub holder_signed : Json N → Sdjwt → Step (Json N)
  holder_signed open_payload closed_m = do
    holder ← call (get_or "cnf" (object end) open_payload)
    cnf ← call (get "jwk" holder)
    require (truthy cnf) "invalid_credential"
    cnf_pub ← present_or "invalid_credential" (public_raw_from_jwk jose cnf)
    require (verify_jws jose closed_m.issuer_jwt cnf_pub) "invalid_credential"
    go cnf

  -- step 1, the disclosures of one mandate
  unfoldable pub disclosed : Sdjwt → Step (Json N)
  disclosed sd = do
    answer ← call (disclose jose frames sd)
    require answer.1 "invalid_credential"
    go answer.0

  -- step 1
  unfoldable pub credentials : VerifyContext N → String → String → Step (Credentials N)
  credentials ctx first final = do
    let open_m = parse first
    let closed_m = parse final
    open_payload ← attempt "invalid_credential" (payload jose open_m)
    closed_payload ← attempt "invalid_credential" (payload jose closed_m)
    issuer_signed ctx open_m open_payload
    cnf ← holder_signed open_payload closed_m
    _ ← disclosed open_m
    _ ← disclosed closed_m
    go (record {
      open_m = open_m;
      closed_m = closed_m;
      open_payload = open_payload;
      closed_payload = closed_payload;
      cnf = cnf;
    })

  -- step 2
  unfoldable pub locked : Credentials N → Step (Unit {0})
  locked c = do
    same_member "constraints" c.open_payload "constraints" c.closed_payload "invalid_mandate"
    same_member "open_iat" c.closed_payload "iat" c.open_payload "invalid_mandate"

  -- steps 3 and 4
  unfoldable pub bound : VerifyContext N → Credentials N → Step (Unit {0})
  bound ctx c = do
    kb ← present_or "invalid_credential" c.closed_m.kb_jwt
    hash ← call (sd_hash jose c.closed_m)
    require (verify_kb_jwt jose kb c.cnf ctx.nonce hash) "invalid_credential"
    named ← call (get "sd_hash" c.closed_payload)
    opened ← call (issuer_hash jose c.open_m)
    require (same_json named (text opened)) "invalid_mandate"

  -- step 5
  unfoldable pub checked_out : String → Credentials N → Step (Unit {0})
  checked_out expected_checkout_jwt c = do
    expected ← call (encoded expected_checkout_jwt (sha256_b64u jose))
    named ← call (get "checkout_hash" c.closed_payload)
    require (same_json named (text expected)) "invalid_mandate"
    checkout ←
        attempt "invalid_mandate"
          (or_raise "ValueError" (parse_jws jose expected_checkout_jwt) (λ parts. parts.1))
    same_member "payment_amount" c.closed_payload "amount" checkout "invalid_mandate"
    same_member "payee" c.closed_payload "merchant" checkout "invalid_mandate"
    same_member "line_items" c.closed_payload "line_items" checkout "invalid_mandate"

  -- step 6
  unfoldable pub constrained : VerifyContext N → Credentials N → Step (List (Ruling N))
  constrained ctx c = do
    answer ← call (disclose jose frames c.open_m)
    merchants ← call (get_or "allowed_merchants" (array nil) answer.0)
    results ← call (evaluate ctx.registry c.closed_payload (constraint_ctx ctx merchants))
    require (all (λ r. r.ok) results) "unresolved_constraint"
    go results

  abbrev pub steps : VerifyContext N → String → String → String → Step (Json N × List (Ruling N))
  steps ctx first final expected_checkout_jwt = do
    c ← credentials ctx first final
    locked c
    bound ctx c
    checked_out expected_checkout_jwt c
    results ← constrained ctx c
    go (c.closed_payload, results)

  unfoldable pub verify_delegation_chain :
      List String → String → VerifyContext N → Outcome (VerifyResult N)
  verify_delegation_chain (first ∷ second ∷ rest) expected_checkout_jwt ctx =
      answered (steps ctx first (last second rest) expected_checkout_jwt)
  verify_delegation_chain _ expected_checkout_jwt ctx = done (failed "invalid_mandate")
