-- ===== src/Common/Panic.antt =====
-- Go operations that may panic, as values of `Option`: `none` is the panic, which ends the process
-- (the daemon recovers from none).
use Prim.Native.Nat.{ℕ, ◌-◌, ◌%◌}
use mathlib.Core.Bool.{◌&&◌}
use mathlib.Core.List.{List}
use mathlib.Core.Option.{Option, none, some}
use amon.Common.Tests.{ltb, leb, ◌==◌, if◌then◌else◌}
use amon.Common.Lists.{length, get_elem?, set, take, drop}
use amon.Common.Int.{ℤ, pos, negsuc, rem}

infixl 5 ◌>>=◌
abbrev pub ◌>>=◌ {ℓ κ} : {A : Type ℓ} {B : Type κ} → Option A → (A → Option B) → Option B
none >>= f = none
some a >>= f = f a

module _ {ℓ} {A : Type ℓ} where
  -- `xs[i] = v`
  abbrev pub store : List A → ℕ → A → Option (List A)
  store xs i v = if ltb i (length xs) then some (set xs i v) else none

  -- `xs[i]` at a signed index
  abbrev pub index : List A → ℤ → Option A
  index xs (pos i) = get_elem? xs i
  index xs (negsuc i) = none

  -- `xs[lo:hi]`, of a slice that was made at its capacity
  abbrev pub slice : List A → ℕ → ℕ → Option (List A)
  slice xs lo hi =
      if leb lo hi && leb hi (length xs) then some (take (hi - lo) (drop lo xs)) else none

-- `a % d`, on signed and unsigned numbers
abbrev pub rem? : ℤ → ℕ → Option ℤ
rem? a d = if d == 0 then none else some (rem a d)

abbrev pub mod? : ℕ → ℕ → Option ℕ
mod? a d = if d == 0 then none else some (a % d)
