-- ===== src/States/Moves.antt =====
-- The life of an account, as two tables over its states: how one change moves it, and which states
-- the changes of one block lead to.
use baron_evm.Base.{Bool, true, false, not, ◌&&◌, ◌||◌, ◌≡◌, refl, arith}
use baron_evm.States.Status.{
  AccountStatus, loaded, loaded_not_existing, loaded_empty_eip161, in_memory_change, changed,
  destroyed, destroyed_changed, destroyed_again,
}
use baron_evm.States.Meaning.{exists_in}

abbrev pub same : AccountStatus → AccountStatus → Bool
same s s' = elim s [
  | loaded_not_existing ↦ elim s' [ loaded_not_existing ↦ true | _ ↦ false ]
  | loaded ↦ elim s' [ loaded ↦ true | _ ↦ false ]
  | loaded_empty_eip161 ↦ elim s' [ loaded_empty_eip161 ↦ true | _ ↦ false ]
  | in_memory_change ↦ elim s' [ in_memory_change ↦ true | _ ↦ false ]
  | changed ↦ elim s' [ changed ↦ true | _ ↦ false ]
  | destroyed ↦ elim s' [ destroyed ↦ true | _ ↦ false ]
  | destroyed_changed ↦ elim s' [ destroyed_changed ↦ true | _ ↦ false ]
  | destroyed_again ↦ elim s' [ destroyed_again ↦ true | _ ↦ false ]
]

-- A change of the account.
abbrev pub moves : AccountStatus → AccountStatus → Bool
moves s in_memory_change = elim s [
  | loaded_not_existing ↦ true
  | loaded ↦ true
  | loaded_empty_eip161 ↦ true
  | in_memory_change ↦ true
  | _ ↦ false
]
moves s changed = same s loaded || same s changed
moves s destroyed = elim s [
  | loaded ↦ true
  | loaded_empty_eip161 ↦ true
  | in_memory_change ↦ true
  | changed ↦ true
  | _ ↦ false
]
moves s destroyed_changed = elim s [
  | destroyed ↦ true
  | destroyed_changed ↦ true
  | destroyed_again ↦ true
  | _ ↦ false
]
moves s destroyed_again = elim s [
  | destroyed ↦ true
  | destroyed_changed ↦ true
  | destroyed_again ↦ true
  | _ ↦ false
]
moves s loaded_not_existing = false
moves s loaded = false
moves s loaded_empty_eip161 = false

-- The changes of a block: the first state is that of the bundle.
abbrev pub leads : AccountStatus → AccountStatus → Bool
leads s in_memory_change = moves s in_memory_change
leads s changed = moves s changed
leads s destroyed = moves s destroyed || same s loaded_not_existing
leads s destroyed_changed = true
leads s destroyed_again = true
leads s loaded_not_existing = false
leads s loaded = false
leads s loaded_empty_eip161 = false

-- The state of an account in the cache and in the bundle. One that was created and destroyed within
-- a block is destroyed in the cache, and not there at all in the bundle.
abbrev pub matches : AccountStatus → AccountStatus → Bool
matches s b = same s b || (same s destroyed && same b loaded_not_existing)

abbrev implies : Bool → Bool → Bool
implies true b = b
implies false b = true

abbrev all : (AccountStatus → Bool) → Bool
all f =
    f loaded_not_existing
    && f loaded
    && f loaded_empty_eip161
    && f in_memory_change
    && f changed
    && f destroyed
    && f destroyed_changed
    && f destroyed_again

abbrev agree : Bool → Bool → Bool
agree true b = b
agree false b = not b

all_lem : (f : AccountStatus → Bool) → all f ≡ true → (s : AccountStatus) → f s ≡ true
all_lem f e loaded_not_existing = ground (arith, e)
all_lem f e loaded = ground (arith, e)
all_lem f e loaded_empty_eip161 = ground (arith, e)
all_lem f e in_memory_change = ground (arith, e)
all_lem f e changed = ground (arith, e)
all_lem f e destroyed = ground (arith, e)
all_lem f e destroyed_changed = ground (arith, e)
all_lem f e destroyed_again = ground (arith, e)

modus : (a b : Bool) → implies a b ≡ true → a ≡ true → b ≡ true
modus true b i h = i
modus false b i h = absurd (cc)

pub moves-leads : (s a b : AccountStatus) → leads s a ≡ true → moves a b ≡ true → leads s b ≡ true
moves-leads s a b l m =
    modus (leads s a && moves a b) (leads s b)
      (all_lem (λ z. implies (leads s a && moves a z) (leads s z))
        (all_lem (λ y. all (λ z. implies (leads s y && moves y z) (leads s z)))
          (all_lem (λ x. all (λ y. all (λ z. implies (leads x y && moves y z) (leads x z)))) refl s)
          a)
        b)
      (rw (l, m) refl)

pub moves_first : (s a b : AccountStatus) → matches s a ≡ true → moves s b ≡ true → leads a b ≡ true
moves_first s a b h m =
    modus (matches s a && moves s b) (leads a b)
      (all_lem (λ z. implies (matches s a && moves s z) (leads a z))
        (all_lem (λ y. all (λ z. implies (matches s y && moves s z) (leads y z)))
          (all_lem (λ x. all (λ y. all (λ z. implies (matches x y && moves x z) (leads y z)))) refl
            s)
          a)
        b)
      (rw (h, m) refl)

pub matches-exists : (s b : AccountStatus) → matches s b ≡ true → exists_in s ≡ exists_in b
matches-exists s b h = same_value (exists_in s) (exists_in b) (
    modus (matches s b) (agree (exists_in s) (exists_in b))
      (all_lem (λ y. implies (matches s y) (agree (exists_in s) (exists_in y)))
        (all_lem (λ x. all (λ y. implies (matches x y) (agree (exists_in x) (exists_in y)))) refl s)
        b)
      h)
  where
    same_value : (x y : Bool) → agree x y ≡ true → x ≡ y
    same_value true true e = refl
    same_value true false e = absurd (cc)
    same_value false true e = absurd (cc)
    same_value false false e = refl
