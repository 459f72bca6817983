-- ===== src/Error.antt =====
-- Response codes and their qualifiers, src/tpm/error.rs. A `TpmRc` is its 32-bit value.
pub mod Qualify
use swtrust.Base.{ℕ, ◌*◌, ◌/◌, ◌%◌, ◌^◌, Bool, not, ◌&&◌, ◌||◌, ◌==◌, ltb, leb, if◌then◌else◌}
use swtrust.Base.{bit_and, bit_or, true, false, ◌≡◌, refl, ap, ◌⊎◌, inl, inr}
use swtrust.Constants.Rc

abbrev pub TpmRc : Type 0
TpmRc = ℕ

pub data TpmResult {ℓ} (A : Type ℓ) : Type ℓ where
  ok : A → TpmResult A
  err : TpmRc → TpmResult A

-- The `?` operator.
infixl 5 ◌>>=◌ ◌>>◌
abbrev pub ◌>>=◌ {ℓ κ} : {A : Type ℓ} {B : Type κ} → TpmResult A → (A → TpmResult B) → TpmResult B
ok a >>= f = f a
err e >>= f = err e

abbrev pub ◌>>◌ {ℓ} : {B : Type ℓ} → TpmResult (Unit {0}) → TpmResult B → TpmResult B
m >> k = m >>= λ _. k

-- `if bad { return Err(e) }`
abbrev pub refuse_if : Bool → TpmRc → TpmResult (Unit {0})
refuse_if bad e = if bad then err e else ok tt

-- Bit 7 marks a format-one code.
unfoldable pub is_format_one : TpmRc → Bool
is_format_one c = not (bit_and c 0x080 == 0)

unfoldable pub is_base_format_one : TpmRc → Bool
is_base_format_one c = leb 0x080 c && leb c 0x0bf

unfoldable pub is_warning : TpmRc → Bool
unfolding is_format_one
is_warning c = not (is_format_one c) && not (bit_and c 0x800 == 0)

-- `index << 8` is a `u32` shift; `index` is at most 15 there, so no bit is lost.
unfoldable pub qualify : TpmRc → ℕ → ℕ → ℕ → TpmRc
unfolding is_base_format_one
qualify c kind index limit =
    if not (is_base_format_one c)
    then c
    else if index == 0 || ltb limit index
    then c
    else bit_or (bit_or (bit_or Rc.rc_fmt1 (bit_and c 0x03f)) kind) (index * 2 ^ 8)

unfoldable pub with_handle : TpmRc → ℕ → TpmRc
unfolding qualify
with_handle c index = qualify c Rc.h index 7

unfoldable pub with_parameter : TpmRc → ℕ → TpmRc
unfolding qualify
with_parameter c index = qualify c Rc.p index 15

unfoldable pub with_session : TpmRc → ℕ → TpmRc
unfolding qualify
with_session c index = qualify c Rc.s index 7

unfoldable pub at_parameter : TpmRc → ℕ → TpmRc
unfolding is_format_one with_parameter
at_parameter c index =
    if not (is_format_one c) then c else with_parameter (bit_or Rc.rc_fmt1 (bit_and c 0x03f)) index

-- The value of a result that is one.
abbrev pub is_ok {ℓ} : {A : Type ℓ} → TpmResult A → Bool
is_ok (ok a) = true
is_ok (err e) = false

pub is_ok→ok {ℓ} : {A : Type ℓ} (r : TpmResult A) → is_ok r ≡ true → (a : A) × (r ≡ ok a)
is_ok→ok (ok a) h = (a, refl)
is_ok→ok (err e) h = cc

pub TpmResult-cases {ℓ} :
    {A : Type ℓ} (r : TpmResult A) → ((a : A) × (r ≡ ok a)) ⊎ ((e : TpmRc) × (r ≡ err e))
TpmResult-cases (ok a) = inl (a, refl)
TpmResult-cases (err e) = inr (e, refl)

-- Inversion of a successful bind, for proofs where the parts stay shut.
pub >>=-eq-ok {ℓ κ} :
    {A : Type ℓ} {B : Type κ} (first : TpmResult A) (next : A → TpmResult B) {last : B}
    → (first >>= next) ≡ ok last
    → (x : A) × (first ≡ ok x) × (next x ≡ ok last)
>>=-eq-ok (ok x) next both = (x, refl, both)
>>=-eq-ok (err e) next both = cc

pub >>=-of-ok {ℓ κ} :
    {A : Type ℓ} {B : Type κ} {m : TpmResult A} (f : A → TpmResult B) {a : A}
    → m ≡ ok a
    → (m >>= f) ≡ f a
>>=-of-ok f e = ap (λ n. n >>= f) e

pub >>=-of-err {ℓ κ} :
    {A : Type ℓ} {B : Type κ} {m : TpmResult A} (f : A → TpmResult B) {e : TpmRc}
    → m ≡ err e
    → (m >>= f) ≡ err e
>>=-of-err f p = ap (λ n. n >>= f) p
