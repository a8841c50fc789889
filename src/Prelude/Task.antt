-- ===== src/Prelude/Task.antt =====
-- A future that works on a state: its result, unless it is still waited for, and the state after it.
use mathlib.Core.Path.{◌≡◌, refl}
use mathlib.Core.Option.{Option, none, some}
use rskafka.Prelude.Result.{Result, ok, err, panic}

abbrev pub Task : Type 0 → Type 0 → Type 0 → Type 0
Task S E A = S → Option (Result E A) × S

module _ {S E : Type 0} where
  abbrev pub done : {A : Type 0} → Result E A → Task S E A
  done r s = (some r, s)

  abbrev pub after :
      {A B : Type 0} → (A → Task S E B) → Option (Result E A) × S → Option (Result E B) × S
  after f (none, s) = (none, s)
  after f (some (ok a), s) = f a s
  after f (some (err e), s) = (some (err e), s)
  after f (some panic, s) = (some panic, s)

  -- `.await?`
  infixl 5 ◌>>=◌
  abbrev pub ◌>>=◌ : {A B : Type 0} → Task S E A → (A → Task S E B) → Task S E B
  ◌>>=◌ m f s = after f (m s)

-- A chain that succeeds has a first step that does.
pub after-eq-ok :
    {S E A B : Type 0} (f : A → Task S E B) (r : Option (Result E A)) (s : S) (b : B)
    → (after f (r, s)).0 ≡ some (ok b)
    → (a : A) × (r ≡ some (ok a)) × ((f a s).0 ≡ some (ok b))
after-eq-ok f none s b h = cc
after-eq-ok f (some (ok a)) s b h = (a, refl, h)
after-eq-ok f (some (err e)) s b h = cc
after-eq-ok f (some panic) s b h = cc
