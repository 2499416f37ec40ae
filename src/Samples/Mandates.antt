-- ===== src/Samples/Mandates.antt =====
-- An open mandate with its receipts, and a closed mandate with constraints.
use Prim.Native.String.{◌++◌}
use finance.Base.{String, none, some, List, [], ◌∷◌, ◌==◌}
use finance.Base.Int.{ℤ, pos}
use finance.Ap2.Constraints.{Constraint, ClosedMandate, ConstraintContext}
use finance.Ap2.Jws.{JoseOps}
use finance.Ap2.Scope.{MandateReceipt}
use finance.Ap2.Scope.Reach.{ScopeEvent, reservation, receipt}

-- texts as they are; a signature is the key before the payload
abbrev pub toy_jose : JoseOps String
toy_jose = record {
  b64u_encode = λ s. s;
  b64u_decode = λ s. some s;
  dumps = λ j. j;
  loads = λ s. some s;
  sign_raw = λ key payload. key ++ payload;
  verify_raw = λ key payload sig. sig == key ++ "!";
  sha256 = λ s. s;
}

abbrev pub receipt_for : String → MandateReceipt ℤ
receipt_for h = record {
  reference = h;
  result = "success";
  amount_usd = pos 100000;
  issued_at = pos 0;
  mandate_id = "open-1";
  raw_jwt = "h.p.v!";
}

abbrev pub purchases : List (ScopeEvent ℤ)
purchases =
    reservation "a" (pos 100000)
    ∷ reservation "b" (pos 100000)
    ∷ receipt (receipt_for "a")
    ∷ receipt (receipt_for "a")
    ∷ reservation "b" (pos 100000)
    ∷ []

abbrev pub groceries_only : Constraint ℤ
groceries_only = record {
  type = some "com.aegis.mcc_allowlist";
  initial_usd = none;
  half_life_hours = none;
  allowed_mcc = some ("5411" ∷ []);
  quoted_rate = none;
  max_bps = none;
  quote_currency = none;
  max_count = none;
  max_value_usd = none;
  window_seconds = none;
}

abbrev pub twice_a_day : Constraint ℤ
twice_a_day = record groceries_only {
  type = some "com.aegis.velocity_envelope";
  max_count = some (pos 2);
  max_value_usd = some (pos 1000000);
  window_seconds = some (pos 86400);
}

abbrev pub groceries : ClosedMandate ℤ
groceries = record {
  open_iat = some (pos 0);
  payee = some (record { id = some "shop"; mcc = some "5411" });
  payment_amount = some (record { value_usd = some (pos 100000); currency = some "USD" });
  constraints = groceries_only ∷ twice_a_day ∷ [];
}

abbrev pub quiet : ConstraintContext ℤ
quiet = record {
  now = pos 10000;
  executed_fx_rate = none;
  disclosed_merchants = none;
  velocity_observed = none;
}
