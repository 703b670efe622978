-- ===== src/Disk/Returns.antt =====
-- Total correctness of a command: it succeeds, with a postcondition.
use ross_os.Base.{◌≡◌, refl}
use ross_os.Disk.{Answer, Cmd, ok, and_then}

pub data Returns {S A : Type 0} (P : A → S → Type 0) (r : Answer S A) : Type 0 where
  returns : (a : A) (s : S) → r ≡ (ok a, s) → P a s → Returns P r

module _ {S A : Type 0} {P : A → S → Type 0} {r : Answer S A} where
  pub weaken : {Q : A → S → Type 0} → Returns P r → ((a : A) (s : S) → P a s → Q a s) → Returns Q r
  weaken (returns a s e p) k = returns a s e (k a s p)

  pub bind :
      {B : Type 0} {Q : B → S → Type 0} {k : A → Cmd S B}
      → Returns P r
      → ((a : A) (s : S) → P a s → Returns Q (k a s))
      → Returns Q (and_then r k)
  bind (returns a s e p) next = rw e (next a s p)

pub done : {S A : Type 0} {P : A → S → Type 0} (a : A) (s : S) → P a s → Returns P (ok a, s)
done a s p = returns a s refl p
