-- ===== src/Effects.antt =====
-- Stateful code that can fail, for the parts of src/tunnel.rs, src/http3.rs and src/upstream.rs that
-- keep a state of their own: an action returns its result and the state, also when it fails.
use mathlib.Core.Path.{subst}
use ws2tcp_local_core.Base.{◌≡◌, Bool, Result, ok, err, if◌then◌else◌}

abbrev pub Exec : Type 0 → Type 0 → Type 0 → Type 0
Exec S E A = S → Result E A × S

abbrev pub and_then : {S E A B : Type 0} → Result E A × S → (A → Exec S E B) → Result E B × S
and_then (ok a, s) f = f a s
and_then (err e, s) f = (err e, s)

infixl 5 ◌>>=◌ ◌>>◌
abbrev pub ◌>>=◌ : {S E A B : Type 0} → Exec S E A → (A → Exec S E B) → Exec S E B
◌>>=◌ m f s = and_then (m s) f

abbrev pub ◌>>◌ : {S E B : Type 0} → Exec S E (Unit {0}) → Exec S E B → Exec S E B
m >> k = m >>= λ _. k

abbrev pub pure : {S E A : Type 0} → A → Exec S E A
pure a s = (ok a, s)

abbrev pub fail : {S E A : Type 0} → E → Exec S E A
fail e s = (err e, s)

abbrev pub lift : {S E A : Type 0} → Result E A → Exec S E A
lift r s = (r, s)

-- `if !b { bail!(e) }`
abbrev pub guard : {S E : Type 0} → Bool → E → Exec S E (Unit {0})
guard b e s = if b then (ok tt, s) else (err e, s)

-- What holds of how an action ended: `D` of a result, `F` of an error.
abbrev pub Ends : {S E A : Type 0} → (A → S → Type 0) → (E → S → Type 0) → Result E A × S → Type 0
Ends D F (ok a, s) = D a s
Ends D F (err e, s) = F e s

pub and_then-Ends :
    {S E A B : Type 0} (P : A → S → Type 0) (Q : E → S → Type 0) (D : B → S → Type 0)
    (F : E → S → Type 0) (x : Result E A × S) (f : A → Exec S E B)
    → Ends P Q x
    → ((a : A) (s : S) → P a s → Ends D F (f a s))
    → ((e : E) (s : S) → Q e s → F e s)
    → Ends D F (and_then x f)
and_then-Ends P Q D F (ok a, s) f p k l = k a s p
and_then-Ends P Q D F (err e, s) f p k l = l e s p

module _ {S E A : Type 0} (D : A → S → Type 0) (F : E → S → Type 0) (x : Result E A × S)
    (s : S) where
  pub Ends-ok : (a : A) → Ends D F x → x ≡ (ok a, s) → D a s
  Ends-ok a p e = subst (Ends D F) e p

  pub Ends-err : (r : E) → Ends D F x → x ≡ (err r, s) → F r s
  Ends-err r p e = subst (Ends D F) e p
