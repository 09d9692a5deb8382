-- ===== src/Base/Panic.antt =====
-- The outcome of kernel code that may call `panic` (defs.h): a value, or the text of the panic.
use Prim.Native.String.{String}
use mathlib.Core.Path.{◌≡◌, refl}
use mathlib.Core.Bool.{Bool, true, false}

pub data Outcome {ℓ} (A : Type ℓ) : Type ℓ where
  panic : String → Outcome A
  ok : A → Outcome A

-- What comes after a panic is not run.
infixl 5 ◌>>=◌ ◌>>◌
abbrev pub ◌>>=◌ {ℓ κ} : {A : Type ℓ} {B : Type κ} → Outcome A → (A → Outcome B) → Outcome B
panic text >>= then_do = panic text
ok a >>= then_do = then_do a

abbrev pub ◌>>◌ {ℓ} : {B : Type ℓ} → Outcome (Unit {0}) → Outcome B → Outcome B
first >> second = first >>= λ _. second

-- `if(b) panic(text);`
abbrev pub panic_if : Bool → String → Outcome (Unit {0})
panic_if true text = panic text
panic_if false text = ok tt

pub ok-injective {ℓ} : {A : Type ℓ} (a b : A) → ok a ≡ ok b → a ≡ b
ok-injective a b h = cc

-- A chain that returned did so in each of its parts.
pub >>=-ok {ℓ κ} :
    {A : Type ℓ} {B : Type κ} (first : Outcome A) (then_do : A → Outcome B) {b : B}
    → (first >>= then_do) ≡ ok b
    → (a : A) × (first ≡ ok a) × (then_do a ≡ ok b)
>>=-ok (panic text) then_do h = absurd (cc)
>>=-ok (ok a) then_do h = (a, refl, h)
