-- ===== src/Stack/Limit.antt =====
-- The height of the stack over a sequence of its operations.
use baron_evm.Base.{
  ℕ, zero, suc, ◌+◌, ◌≤◌, List, [], ◌∷◌, ◌==◌, ltb, leb, length, set, ◌≡◌, arith, subst, length-set,
  Option, none, some, get_elem?, Bool-cases, inl, inr,
}
use baron_evm.Base.Outcome.{ok, err, panic, unwrap, ◌>>=◌}
use baron_evm.Stack.{Stack, Checked, stack_limit, len, pop, push, dup, exchange}

pub data Change : Type 0 where
  pops : Change
  pushes : ℕ → Change
  dups : ℕ → Change
  exchanges : ℕ → ℕ → Change

unfoldable pub apply : Stack → Change → Checked Stack
apply s pops = do r ← pop s; ok r.0
apply s (pushes value) = push s value
apply s (dups n) = dup s n
apply s (exchanges n m) = exchange s n m

unfoldable pub apply_all : Stack → List Change → Checked Stack
apply_all s [] = ok s
apply_all s (c ∷ cs) = do t ← apply s c; apply_all t cs

-- The result, if there is one, is within the limit.
abbrev Within : Checked Stack → Type 0
Within (ok t) = length t.entries ≤ stack_limit
Within (err e) = Unit
Within panic = Unit

push_entry-Within :
    (xs : List ℕ) (o : Option ℕ)
    → length xs + 1 ≤ stack_limit
    → Within (unwrap o >>= (λ v. ok (record { entries = v ∷ xs })))
push_entry-Within xs none h = tt
push_entry-Within xs (some v) h = omega arith

exchanged-Within :
    (xs : List ℕ) (i j : ℕ) (o p : Option ℕ)
    → length xs ≤ stack_limit
    → Within
        (unwrap o >>= (λ x. unwrap p >>= (λ y. ok (record { entries = set (set xs i y) j x }))))
exchanged-Within xs i j none p h = tt
exchanged-Within xs i j (some x) none h = tt
exchanged-Within xs i j (some x) (some y) h =
    omega (arith, length-set (set xs i y) j x, length-set xs i y)

apply-Within :
    (xs : List ℕ) (c : Change)
    → length xs ≤ stack_limit
    → Within (apply (record { entries = xs }) c)
unfolding apply pop push dup exchange
apply-Within [] pops h = tt
apply-Within (x ∷ xs) pops h = omega arith
apply-Within xs (pushes value) h = elim (Bool-cases (length xs == stack_limit)) [
  | inl full ↦ rw full tt
  | inr room ↦ rw room (ground arith)
]
apply-Within xs (dups zero) h = tt
apply-Within xs (dups (suc n)) h = elim (Bool-cases (ltb (length xs) (suc n))) [
  | inl short ↦ rw short tt
  | inr enough ↦ elim (Bool-cases (ltb stack_limit (length xs + 1))) [
    | inl full ↦ rw (enough, full) tt
    | inr room ↦ rw (enough, room) (push_entry-Within xs (get_elem? xs n) (ground arith))
  ]
]
apply-Within xs (exchanges n zero) h = tt
apply-Within xs (exchanges n (suc m)) h = elim (Bool-cases (leb (length xs) (n + suc m))) [
  | inl short ↦ rw short tt
  | inr enough ↦
      rw enough (exchanged-Within xs n (n + suc m) (get_elem? xs n) (get_elem? xs (n + suc m)) h)
]

all-Within :
    (cs : List Change) (s : Stack) → length s.entries ≤ stack_limit → Within (apply_all s cs)
unfolding apply_all
all-Within [] s h = h
all-Within (c ∷ cs) s h = go (all-Within cs) (apply s c) (apply-Within s.entries c h)
  where
    go :
        ((t : Stack) → length t.entries ≤ stack_limit → Within (apply_all t cs))
        → (o : Checked Stack) → Within o
        → Within (o >>= (λ t. apply_all t cs))
    go ih (ok t) w = ih t w
    go ih (err e) w = tt
    go ih panic w = tt

-- When a sequence of pops, pushes, duplications and exchanges starts within the limit of 1024
-- words and returns, the stack is still within it.
pub apply_all-within_limit :
    (s t : Stack) (changes : List Change)
    → len s ≤ stack_limit
    → apply_all s changes ≡ ok t
    → len t ≤ stack_limit
unfolding len
apply_all-within_limit s t changes h e = subst Within e (all-Within changes s h)
