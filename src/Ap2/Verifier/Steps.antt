-- ===== src/Ap2/Verifier/Steps.antt =====
-- A verification that has gone on has gone through each of its steps.
use finance.Base.{Bool, true, false, Option, none, some, String, ◌≡◌, refl, arith}
use finance.Pipeline.Context.{Outcome, done, raised}
use finance.Ap2.Verifier.{Step, go, fail, crash, ◌>>=◌, ◌>>◌, require, call, attempt, present_or}

pub >>=-go :
    {A B : Type 0} (m : Step A) (f : A → Step B) {b : B}
    → (m >>= f) ≡ go b
    → (a : A) × (m ≡ go a) × (f a ≡ go b)
>>=-go (go a) f h = (a, refl, h)
>>=-go (fail code) f h = absurd (ground (arith, h))
>>=-go (crash e) f h = absurd (ground (arith, h))

pub require-go :
    {B : Type 0} (b : Bool) (code : String) (k : Step B) {v : B}
    → (require b code >> k) ≡ go v
    → (b ≡ true) × (k ≡ go v)
require-go true code k h = (refl, h)
require-go false code k h = absurd (ground (arith, h))

pub call-go :
    {A B : Type 0} (o : Outcome A) (f : A → Step B) {b : B}
    → (call o >>= f) ≡ go b
    → (a : A) × (o ≡ done a) × (f a ≡ go b)
call-go (done a) f h = (a, refl, h)
call-go (raised e) f h = absurd (ground (arith, h))

pub attempt-go :
    {A B : Type 0} (code : String) (o : Outcome A) (f : A → Step B) {b : B}
    → (attempt code o >>= f) ≡ go b
    → (a : A) × (o ≡ done a) × (f a ≡ go b)
attempt-go code (done a) f h = (a, refl, h)
attempt-go code (raised e) f h = absurd (ground (arith, h))

pub present_or-go :
    {A B : Type 0} (code : String) (o : Option A) (f : A → Step B) {b : B}
    → (present_or code o >>= f) ≡ go b
    → (a : A) × (o ≡ some a) × (f a ≡ go b)
present_or-go code (some a) f h = (a, refl, h)
present_or-go code none f h = absurd (ground (arith, h))

pub require-go_last : (b : Bool) (code : String) {u : Unit {0}} → require b code ≡ go u → b ≡ true
require-go_last true code h = refl
require-go_last false code h = absurd (ground (arith, h))
