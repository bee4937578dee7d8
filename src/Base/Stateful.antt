-- ===== src/Base/Stateful.antt =====
-- Calls that change a state and can fail: what a call changed before an error stays changed.
use my_mesh.Base.Outcome.{Result, ok, err, panic}

abbrev pub Stateful : Type 0 → Type 0 → Type 0
Stateful S A = S → Result A × S

module _ {S A : Type 0} where
  abbrev pub pure : A → Stateful S A
  pure a w = (ok a, w)

  abbrev pub raise : Result A → Stateful S A
  raise r w = (r, w)

infixl 5 ◌>>=◌ ◌>>◌
abbrev pub ◌>>=◌ : {S A B : Type 0} → Stateful S A → (A → Stateful S B) → Stateful S B
◌>>=◌ m f w =
    let (r, w') = m w in elim r [ ok a ↦ f a w' | err e ↦ (err e, w') | panic ↦ (panic, w') ]

abbrev pub ◌>>◌ : {S A B : Type 0} → Stateful S A → Stateful S B → Stateful S B
m >> k = m >>= λ _. k

-- `let _ = ...`: the call's result is dropped, its changes stay; a panic goes on.
abbrev pub ignored : {A : Type 0} → Result A → Result (Unit {0})
ignored (ok a) = ok tt
ignored (err e) = ok tt
ignored panic = panic

abbrev pub ignore : {S A : Type 0} → Stateful S A → Stateful S (Unit {0})
ignore m w = let (r, w') = m w in (ignored r, w')
