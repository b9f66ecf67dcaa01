-- ===== src/Stack/Laws.antt =====
-- What is read from the stack after a duplication or an exchange.
use baron_evm.Base.{
  ℕ, zero, suc, ◌+◌, ◌<◌, false, some, List, [], ◌∷◌, ltb, leb, length, get_elem?, set, ◌≡◌, ◌≢◌,
  refl, sym, ◌∙◌, arith, length-set, get_elem?-set_self, get_elem?-set_ne,
}
use baron_evm.Base.Outcome.{ok, unwrap, reject, ◌>>=◌}
use baron_evm.Stack.{Stack, stack_underflow, stack_limit, len, peek, dup, exchange}

get_elem?-in : (xs : List ℕ) (i : ℕ) → i < length xs → (x : ℕ) × (get_elem? xs i ≡ some x)
get_elem?-in [] i h = absurd (omega arith)
get_elem?-in (x ∷ xs) zero h = (x, refl)
get_elem?-in (x ∷ xs) (suc i) h = get_elem?-in xs i (omega arith)

-- A duplication of an entry within the stack, where the stack is below its limit, succeeds; then
-- the top is that entry, the stack is higher by one, and every entry is one place further down.
pub dup_lem :
    (s : Stack) (n k : ℕ)
    → n < len s
    → len s < stack_limit
    → (t : Stack) × (dup s (suc n) ≡ ok t)
      × (len t ≡ suc (len s))
      × (peek t 0 ≡ peek s n)
      × (peek t (suc k) ≡ peek s k)
unfolding dup len peek
dup_lem s n k inside room =
    let (x, e) = get_elem?-in s.entries n inside in
    let enough : ltb (length s.entries) (suc n) ≡ false = ground arith in
    let fits : ltb 1024 (length s.entries + 1) ≡ false = ground arith in
    let here : leb (length s.entries) n ≡ false = ground arith in
    let top : leb (suc (length s.entries)) 0 ≡ false = ground arith in
    let shifted : leb (suc (length s.entries)) (suc k) ≡ leb (length s.entries) k = ground arith in
    (
      record { entries = x ∷ s.entries },
      rw (enough, fits, e) refl,
      refl,
      rw (here, e, top) refl,
      rw shifted refl,
    )

peek-some : (s : Stack) (i x : ℕ) → get_elem? s.entries i ≡ some x → i < len s → peek s i ≡ ok x
unfolding peek len
peek-some s i x e h =
    let here : leb (length s.entries) i ≡ false = ground arith in rw (here, e) refl

-- Two stacks of one height with the same entry at a place.
peek-same :
    (s t : Stack) (i : ℕ)
    → len t ≡ len s
    → get_elem? t.entries i ≡ get_elem? s.entries i
    → peek t i ≡ peek s i
unfolding peek len
peek-same s t i e f j = (reject (leb (e j) i) stack_underflow >>= (λ x. unwrap (f j)))

-- An exchange of two different places within the stack succeeds; then the two entries have
-- changed places, and the height and every other entry are the same.
pub exchange_lem :
    (s : Stack) (n m k : ℕ)
    → n + suc m < len s
    → k ≢ n
    → k ≢ n + suc m
    → (t : Stack) × (exchange s n (suc m) ≡ ok t)
      × (len t ≡ len s)
      × (peek t n ≡ peek s (n + suc m))
      × (peek t (n + suc m) ≡ peek s n)
      × (peek t k ≡ peek s k)
unfolding exchange len
exchange_lem s n m k inside ne ne' =
    let j = n + suc m in
    let (x, e) = get_elem?-in s.entries n (omega arith) in
    let (y, f) = get_elem?-in s.entries j inside in
    let enough : leb (length s.entries) j ≡ false = ground arith in
    let t : Stack = record { entries = set (set s.entries n y) j x } in
    let height : length (set (set s.entries n y) j x) ≡ length s.entries =
      length-set (set s.entries n y) j x ∙ length-set s.entries n y in
    let at_n : get_elem? (set (set s.entries n y) j x) n ≡ some y =
      get_elem?-set_ne (set s.entries n y) j n x (λ same. absurd (omega arith))
      ∙ get_elem?-set_self s.entries n y (omega arith) in
    let at_j : get_elem? (set (set s.entries n y) j x) j ≡ some x =
      get_elem?-set_self (set s.entries n y) j x (omega (arith, length-set s.entries n y)) in
    let at_k : get_elem? (set (set s.entries n y) j x) k ≡ get_elem? s.entries k =
      get_elem?-set_ne (set s.entries n y) j k x (λ same. ne' (sym same))
      ∙ get_elem?-set_ne s.entries n k y (λ same. ne (sym same)) in
    (
      t,
      rw (enough, e, f) refl,
      height,
      peek-some t n y at_n (omega (arith, height)) ∙ sym (peek-some s j y f inside),
      peek-some t j x at_j (omega (arith, height)) ∙ sym (peek-some s n x e (omega arith)),
      peek-same s t k height at_k,
    )
