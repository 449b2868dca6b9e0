-- ===== src/Hook/Passing.antt =====
-- When the checks of the hook pass.
use aurweb.Prelude.{Bool, true, false, List, [], ◌∷◌, ◌≡◌, refl, ◌↔◌, All}
use aurweb.Hook.{Check, passed, refused, Refusal, require, check_each, ◌>>◌, ◌>>=◌}

abbrev pub Passes : Check (Unit {0}) → Type 0
Passes c = c ≡ passed tt

abbrev has_passed {ℓ} : {A : Type ℓ} → Check A → Bool
has_passed (passed a) = true
has_passed (refused r) = false

pub require-Passes : (b : Bool) (r : Refusal) → Passes (require b r) ↔ (b ≡ true)
require-Passes true r = ((λ h. refl), λ h. refl)
require-Passes false r = ((λ h. cc), λ h. cc)

pub >>_Passes : (a b : Check (Unit {0})) → Passes (a >> b) ↔ (Passes a × Passes b)
>>_Passes (passed tt) b = ((λ h. (refl, h)), λ h. h.1)
>>_Passes (refused r) b = ((λ h. cc), λ h. cc)

pub check_each-Passes :
    {A : Type 0} (f : A → Check (Unit {0})) (xs : List A)
    → Passes (check_each f xs) ↔ All (λ x. Passes (f x)) xs
check_each-Passes f [] = ((λ h. tt), λ h. refl)
check_each-Passes f (x ∷ xs) =
    let both = >>_Passes (f x) (check_each f xs) in
    let rest = check_each-Passes f xs in
    ((λ h. let (a, b) = both.0 h in (a, rest.0 b)), λ h. both.1 (h.0, rest.1 h.1))

-- What passes with a value passes in both parts.
pub >>=_inv :
    {A B : Type 0} (c : Check A) (f : A → Check B) (b : B)
    → (c >>= f) ≡ passed b
    → (a : A) × (c ≡ passed a) × (f a ≡ passed b)
>>=_inv (passed a) f b h = (a, refl, h)
>>=_inv (refused r) f b h = cc

pub >>_inv :
    {B : Type 0} (c : Check (Unit {0})) (d : Check B) (b : B)
    → (c >> d) ≡ passed b
    → Passes c × (d ≡ passed b)
>>_inv (passed tt) d b h = (refl, h)
>>_inv (refused r) d b h = cc

-- Two checks with what each of them means.
pub both :
    {P Q : Type 0} (a b : Check (Unit {0}))
    → Passes a ↔ P
    → Passes b ↔ Q
    → Passes (a >> b) ↔ (P × Q)
both a b p q =
    let s = >>_Passes a b in
    ((λ h. let (x, y) = s.0 h in (p.0 x, q.0 y)), λ h. s.1 (p.1 h.0, q.1 h.1))
