-- ===== src/Base/Results.antt =====
-- Rust's `Result<T, E>` and the `?` operator, which is bind.
use mathlib.Core.Path.{◌≡◌, refl}
use mathlib.Core.Bool.{Bool, true, false, not, ◌&&◌, ◌||◌}
use mathlib.Core.Logic.{◌↔◌}

pub data Result (A E : Type 0) : Type 0 where
  ok : A → Result A E
  err : E → Result A E

-- `Result::is_ok`.
abbrev pub is_ok : {A E : Type 0} → Result A E → Bool
is_ok (err reason) = false
is_ok (ok value) = true

-- The `?` of a result whose value is used.
infixl 5 ◌>>=◌
abbrev pub ◌>>=◌ : {A B E : Type 0} (r : Result A E) (next : A → Result B E) → Result B E
err reason >>= next = err reason
ok value >>= next = next value

-- `if test { return Err(e); }`
abbrev pub fail_if : {E : Type 0} → Bool → E → Result (Unit {0}) E
fail_if false reason = ok tt
fail_if true reason = err reason

-- The `?` of a check.
infixl 5 ◌>>◌
abbrev pub ◌>>◌ : {B E : Type 0} (check : Result (Unit {0}) E) (rest : Result B E) → Result B E
check >> rest = check >>= (λ done. rest)

pub >>=-eq-ok :
    {A B E : Type 0} (r : Result A E) (next : A → Result B E) {answer : B}
    → (r >>= next) ≡ ok answer
    → (value : A) × (r ≡ ok value) × (next value ≡ ok answer)
>>=-eq-ok (err reason) next e = cc
>>=-eq-ok (ok value) next e = (value, refl, e)

pub fail_if-eq-ok : {E : Type 0} (b : Bool) (e : E) {u : Unit {0}} → fail_if b e ≡ ok u → b ≡ false
fail_if-eq-ok true e h = cc
fail_if-eq-ok false e h = refl

-- A guard and what comes after it succeed exactly if the test is false and the rest succeeds.
pub guard_iff :
    {B E : Type 0} (b : Bool) (e : E) (k : Result B E) (c : B)
    → (fail_if b e >> k ≡ ok c) ↔ ((b ≡ false) × (k ≡ ok c))
guard_iff true e k c = (λ h. absurd (cc h), λ h. absurd (cc h.0))
guard_iff false e k c = (λ h. (refl, h), λ h. h.1)

pub fail_if_iff : {E : Type 0} (b : Bool) (e : E) → (fail_if b e ≡ ok tt) ↔ (b ≡ false)
fail_if_iff true e = (λ h. absurd (cc h), λ h. absurd (cc h))
fail_if_iff false e = (λ h. refl, λ h. refl)

-- Tests as guards: `if !t`, `if d && !t` and `if !d && !t`.
pub not_iff : (t : Bool) → (not t ≡ false) ↔ (t ≡ true)
not_iff true = (λ h. refl, λ h. refl)
not_iff false = (λ h. absurd (cc h), λ h. absurd (cc h))

pub and_not_iff : (d t : Bool) → ((d && not t) ≡ false) ↔ (d ≡ true → t ≡ true)
and_not_iff true t = ((λ h _. (not_iff t).0 h), λ h. (not_iff t).1 (h refl))
and_not_iff false t = ((λ h k. absurd (cc k)), λ h. refl)

pub not_and_not_iff : (d t : Bool) → ((not d && not t) ≡ false) ↔ (d ≡ false → t ≡ true)
not_and_not_iff true t = ((λ h k. absurd (cc k)), λ h. refl)
not_and_not_iff false t = ((λ h _. (not_iff t).0 h), λ h. (not_iff t).1 (h refl))

pub or_not_iff : (s t : Bool) → ((not s || not t) ≡ false) ↔ ((s ≡ true) × (t ≡ true))
or_not_iff true true = ((λ h. (refl, refl)), λ h. refl)
or_not_iff true false = ((λ h. absurd (cc h)), λ h. absurd (cc h.1))
or_not_iff false t = ((λ h. absurd (cc h)), λ h. absurd (cc h.0))
