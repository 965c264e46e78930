-- ===== src/Exceptions/Exec.antt =====
-- Methods that change an object and may raise. What was written before a raise stays written, so
-- the state comes back beside the error too.
use bittensor_nexus_library.Prelude.{◌≡◌, ap}
use bittensor_nexus_library.Exceptions.{Result, Exn, ok}
use bittensor_nexus_library.Exceptions.{raise as raised}

abbrev pub Exec {ℓ κ} : Type ℓ → Type κ → Type (ℓ ⊔ κ)
Exec S A = S → Result A × S

abbrev pub pure {ℓ κ} : {S : Type ℓ} {A : Type κ} → A → Exec S A
pure a s = (ok a, s)

abbrev pub throw {ℓ κ} : {S : Type ℓ} {A : Type κ} → Exn → Exec S A
throw e s = (raised e, s)

abbrev pub lift {ℓ κ} : {S : Type ℓ} {A : Type κ} → Result A → Exec S A
lift r s = (r, s)

abbrev pub modify {ℓ} : {S : Type ℓ} → (S → S) → Exec S (Unit {0})
modify f s = (ok tt, f s)

abbrev pub gets {ℓ κ} : {S : Type ℓ} {A : Type κ} → (S → A) → Exec S A
gets f s = (ok (f s), s)

abbrev pub continue {ℓ κ μ} :
    {S : Type ℓ} {A : Type κ} {B : Type μ} → Result A → (A → Exec S B) → Exec S B
continue (ok a) f s = f a s
continue (raised e) f s = (raised e, s)

infixl 5 ◌>>=◌ ◌>>◌
abbrev pub ◌>>=◌ {ℓ κ μ} :
    {S : Type ℓ} {A : Type κ} {B : Type μ} → Exec S A → (A → Exec S B) → Exec S B
◌>>=◌ m f s = let (r, s') = m s in continue r f s'

abbrev pub ◌>>◌ {ℓ μ} : {S : Type ℓ} {B : Type μ} → Exec S (Unit {0}) → Exec S B → Exec S B
m >> k = m >>= λ _. k

-- What a first step comes to decides what is left.
pub >>=_run {ℓ κ μ} :
    {S : Type ℓ} {A : Type κ} {B : Type μ} (m : Exec S A) (f : A → Exec S B) (s : S)
    {o : Result A × S}
    → m s ≡ o
    → (m >>= f) s ≡ continue o.0 f o.1
>>=_run m f s e = ap (λ o. continue o.0 f o.1) e
