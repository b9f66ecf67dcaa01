-- ===== src/Gas/Bounds.antt =====
-- The meter of crates/interpreter/src/gas.rs over a run of costs, a child call and the final refund.
use baron_evm.Base.{
  ℕ, ◌+◌, ◌*◌, ◌≤◌, ◌<◌, ◌≡◌, Bool, true, false, List, [], ◌∷◌, ◌-◌, ◌^◌, ◌⊎◌, inl, inr, refl, ap,
  ltb, leb, ◌∙◌, Bool-cases, arith, u64_mod, if◌then◌else◌,
}
use baron_evm.Gas.{Gas, new, spent, erase_cost, set_final_refund, record_cost}

pub record IsValid (g : Gas) : Type 0 where
  pub limit_fits : g.limit < u64_mod
  pub within : g.remaining ≤ g.limit
  pub refund_fits : g.refunded < u64_mod

pub new-IsValid : (limit : ℕ) → limit < u64_mod → IsValid (new limit)
unfolding new
new-IsValid limit h = ground arith

pub record_cost-IsValid : (g : Gas) (cost : ℕ) → IsValid g → IsValid (record_cost g cost).0
unfolding record_cost
record_cost-IsValid g cost v = ground arith

-- Charges every cost of the list in turn, whether or not the ones before it were covered.
unfoldable pub charge : Gas → List ℕ → Gas
charge g [] = g
charge g (c ∷ cs) = charge (record_cost g c).0 cs

-- The answers of `record_cost` on the way.
unfoldable pub answers : Gas → List ℕ → List Bool
answers g [] = []
answers g (c ∷ cs) = (record_cost g c).1 ∷ answers (record_cost g c).0 cs

-- A purse of `left`: a cost is paid when it is at most what is left, and else skipped.
unfoldable pub paid : ℕ → List ℕ → ℕ
paid left [] = 0
paid left (c ∷ cs) = if leb c left then c + paid (left - c) cs else paid left cs

-- Which costs the purse pays.
unfoldable pub pays : ℕ → List ℕ → List Bool
pays left [] = []
pays left (c ∷ cs) = leb c left ∷ pays (if leb c left then left - c else left) cs

-- A covered cost is taken from the meter; one that is not covered leaves it as it is.
record_cost-cases :
    (g : Gas) (cost : ℕ)
    → IsValid g
    → ((leb cost g.remaining ≡ true)
        × (record_cost g cost ≡ (record g { remaining = g.remaining - cost }, true)))
      ⊎ ((leb cost g.remaining ≡ false) × (record_cost g cost ≡ (g, false)))
unfolding record_cost
record_cost-cases g cost v = elim (Bool-cases (leb cost g.remaining)) [
  | inl e ↦ inl (
    e,
    let covers : ltb g.remaining cost ≡ false = ground arith in
        rw covers (ap (λ n. (record g { remaining = n }, true)) (ground arith)),
  )
  | inr e ↦ inr (e, let short : ltb g.remaining cost ≡ true = ground arith in rw short refl)
]

spent_charged :
    (g : Gas) (c : ℕ)
    → IsValid g
    → leb c g.remaining ≡ true
    → spent (record g { remaining = g.remaining - c }) ≡ spent g + c
unfolding spent
spent_charged g c v h = ground arith

charged-IsValid : (g : Gas) (c : ℕ) → IsValid g → IsValid (record g { remaining = g.remaining - c })
charged-IsValid g c v = ground arith

-- After any run of costs on a valid meter, exactly those costs were covered that were at most
-- what remained when their turn came, what is spent has grown by exactly their sum, the meter is
-- valid, and no more than the limit is spent.
pub charge_accounts :
    (g : Gas) (costs : List ℕ)
    → IsValid g
    → (answers g costs ≡ pays g.remaining costs)
      × (spent (charge g costs) ≡ spent g + paid g.remaining costs)
      × IsValid (charge g costs)
      × (spent g + paid g.remaining costs ≤ g.limit)
unfolding charge answers paid pays
charge_accounts g [] v = (refl, omega arith, v, unfold spent in ground arith)
charge_accounts g (c ∷ cs) v = elim (record_cost-cases g c v) [
  | inl (fits, e) ↦
      let ih =
        charge_accounts (record g { remaining = g.remaining - c }) cs (charged-IsValid g c v) in
      let more = spent_charged g c v fits in
      rw (fits, e)
        (ap (λ l. true ∷ l) ih.0, ih.1 ∙ omega (arith, more), ih.2, omega (arith, more, ih.3))
  | inr (short, e) ↦
      let ih = charge_accounts g cs v in rw (short, e) (ap (λ l. false ∷ l) ih.0, ih.1, ih.2, ih.3)
]

-- A call whose gas limit the caller's meter covers and was charged for, and whose remaining gas
-- is given back, costs the caller exactly what the child spent, and leaves the caller's meter
-- valid.
pub erase_cost_child :
    (g child : Gas)
    → IsValid g
    → IsValid child
    → child.limit ≤ g.remaining
    → let after = erase_cost (record_cost g child.limit).0 child.remaining in
      (spent after ≡ spent g + spent child) × IsValid after
unfolding erase_cost record_cost spent
erase_cost_child g child v w h = (ground arith, ground arith)

-- The final refund of a valid meter whose recorded refund is not negative is the largest number
-- that is at most the recorded refund and at most a fifth (before London, a half) of the gas
-- spent.
pub set_final_refund_bounds :
    (g : Gas) (is_london : Bool) (r : ℕ)
    → IsValid g
    → g.refunded < 2 ^ 63
    → let quotient : ℕ = if is_london then 5 else 2 in
      let final = (set_final_refund g is_london).refunded in
      (final ≤ g.refunded)
      × (quotient * final ≤ spent g)
      × (r ≤ g.refunded → quotient * r ≤ spent g → r ≤ final)
unfolding set_final_refund spent
set_final_refund_bounds g true r v sign = (ground arith, ground arith, λ p q. ground arith)
set_final_refund_bounds g false r v sign = (ground arith, ground arith, λ p q. ground arith)
