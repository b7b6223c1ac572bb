-- ===== src/Base/Checks.antt =====
-- When a chain of checks passes.
use mathlib.Core.Path.{◌≡◌, refl}
use mathlib.Core.Logic.{◌↔◌}
use mathlib.Core.Bool.{Bool, true, false}
use native.Mathlib.Omega.{arith}
use imgx.Base.Results.{Result, ok, err, fail_if, ◌>>◌}

-- A check passes exactly if the property holds.
abbrev pub Decides : {E : Type 0} → Result E (Unit {0}) → Type 0 → Type 0
Decides m P = (m ≡ ok tt) ↔ P

pub guard :
    {E P Q : Type 0} (b : Bool) (e : E) (k : Result E (Unit {0}))
    → (b ≡ false) ↔ P
    → Decides k Q
    → Decides (fail_if b e >> k) (P × Q)
guard true e k p q = (λ h. absurd cc, λ (x, y). absurd (ground (arith, p.1 x)))
guard false e k p q = (λ h. (p.0 refl, q.0 h), λ (x, y). q.1 y)

pub seq :
    {E P Q : Type 0} (m k : Result E (Unit {0}))
    → Decides m P
    → Decides k Q
    → Decides (m >> k) (P × Q)
seq (ok u) k p q = (λ h. (p.0 refl, q.0 h), λ (x, y). q.1 y)
seq (err e) k p q = (λ h. absurd cc, λ (x, y). absurd (ground (arith, p.1 x)))

pub same : (b : Bool) → (b ≡ false) ↔ (b ≡ false)
same b = (λ h. h, λ h. h)

pub via : {E P Q : Type 0} {m : Result E (Unit {0})} → Decides m P → (P → Q) → (Q → P) → Decides m Q
via d to from = (λ h. to (d.0 h), λ q. d.1 (from q))
