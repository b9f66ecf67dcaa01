-- ===== src/Base/Maps.antt =====
-- A hash map with numeric keys as the function from a key to its entry.
use Prim.Native.Nat.{ℕ}
use mathlib.Core.Path.{◌≡◌, sym, ap, ◌∙◌, fun_ext}
use mathlib.Core.Option.{Option, none, some}
use native.Mathlib.Omega.{arith}
use baron_evm.Base.Tests.{◌==◌, if◌then◌else◌}

abbrev pub HashMap {ℓ} : Type ℓ → Type ℓ
HashMap V = ℕ → Option V

module _ {ℓ} {V : Type ℓ} where
  -- The map whose entry at `k` is `o`; `none` removes the key.
  abbrev pub put : HashMap V → ℕ → Option V → HashMap V
  put m k o j = if j == k then o else m j

  abbrev pub insert : HashMap V → ℕ → V → HashMap V
  insert m k v = put m k (some v)

  abbrev pub remove : HashMap V → ℕ → HashMap V
  remove m k = put m k none

  pub put_same : (m : HashMap V) (k : ℕ) → put m k (m k) ≡ m
  put_same m k = fun_ext λ j. ground arith

  pub put-put : (m : HashMap V) (k : ℕ) (o p : Option V) → put (put m k o) k p ≡ put m k p
  put-put m k o p = fun_ext λ j. ground arith

  -- A changed entry that gets its old value back.
  pub put-put_back : (m : HashMap V) (k : ℕ) (o p : Option V) → m k ≡ p → put (put m k o) k p ≡ m
  put-put_back m k o p e = put-put m k o p ∙ ap (put m k) (sym e) ∙ put_same m k
