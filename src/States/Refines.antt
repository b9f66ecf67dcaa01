-- ===== src/States/Refines.antt =====
-- crates/bcevm/src/db/states: the bundle follows the cache from block to block.
use baron_evm.Base.{true, Option, none, some, List, [], ◌∷◌, ◌≡◌, refl, sym, ap, ◌∙◌, subst, ◌>>=◌}
use baron_evm.Journal.Accounts.{AccountInfo}
use baron_evm.States.Status.{
  AccountStatus, loaded, loaded_not_existing, loaded_empty_eip161, in_memory_change, changed,
  destroyed, destroyed_changed, destroyed_again,
}
use baron_evm.States.Accounts.{CacheAccount, TransitionAccount, BundleAccount, account_info}
use baron_evm.States.Cache.{Change}
use baron_evm.States.Transition.{update}
use baron_evm.States.Bundle.{Updated, update_any, update_and_create_revert, with_revert}
use baron_evm.States.Meaning.{essence, has_info, exists_in}
use baron_evm.States.Moves.{leads, matches, moves-leads, moves_first, matches-exists}
use baron_evm.States.Takes.{Taken, update_any-Taken}
use baron_evm.States.Operations.{CacheOperation, operate, InfoFits, Moved, operate-Moved}

abbrev merged : Option TransitionAccount → Option TransitionAccount → Option TransitionAccount
merged o none = o
merged none (some t) = some t
merged (some s) (some t) = some (update s t)

-- The changes of a block, and their transitions merged.
unfoldable pub run_block :
    CacheAccount → Option TransitionAccount → List CacheOperation → Option Change
unfolding operate update
run_block c o [] = some (c, o)
run_block c o (op ∷ ops) = operate c op >>= (λ made. run_block made.0 (merged o made.1) ops)

-- The bundle's account is the cached one.
pub record Follows (c : CacheAccount) (b : BundleAccount) : Type 0 where
  pub status : matches c.status b.status ≡ true
  pub info : essence b.info ≡ essence (account_info c)
  pub fits : InfoFits c

-- Within a block: the bundle with the merged transition is the cached account.
abbrev Held : BundleAccount → CacheAccount → Option TransitionAccount → Type 0
Held b c none = Follows c b
Held b c (some t) =
    (t.status ≡ c.status)
    × (essence t.info ≡ essence (account_info c))
    × (leads b.status c.status ≡ true)
    × InfoFits c

-- The account exists where its essence does.
has_info-essence : (o p : Option AccountInfo) → essence o ≡ essence p → has_info o ≡ has_info p
has_info-essence none none e = refl
has_info-essence none (some j) e = absurd (cc)
has_info-essence (some i) none e = absurd (cc)
has_info-essence (some i) (some j) e = refl

fits_on :
    (c c' : CacheAccount)
    → c'.status ≡ c.status
    → essence (account_info c') ≡ essence (account_info c)
    → InfoFits c
    → InfoFits c'
fits_on c c' st i f =
    has_info-essence (account_info c') (account_info c) i ∙ f ∙ ap exists_in (sym st)

-- A merged transition leads to where the last one does.
update_ends :
    (t u : TransitionAccount) (st : AccountStatus)
    → (let v = update t (record u { status = st }) in (v.status ≡ st) × (v.info ≡ u.info))
unfolding update
update_ends t u loaded_not_existing = (refl, refl)
update_ends t u loaded = (refl, refl)
update_ends t u loaded_empty_eip161 = (refl, refl)
update_ends t u in_memory_change = (refl, refl)
update_ends t u changed = (refl, refl)
update_ends t u destroyed = (refl, refl)
update_ends t u destroyed_changed = (refl, refl)
update_ends t u destroyed_again = (refl, refl)

-- One change within the block.
Moved-Held :
    (b : BundleAccount) (c : CacheAccount) (o : Option TransitionAccount) (made : Change)
    → Held b c o
    → Moved c (some made)
    → Held b made.0 (merged o made.1)
Moved-Held b c none (c', none) h (st, i) = record {
  status = ap (λ x. matches x b.status) st ∙ h.status;
  info = h.info ∙ sym i;
  fits = fits_on c c' st i h.fits;
}
Moved-Held b c (some s) (c', none) h (st, i) =
    let (same_status, same_info, led, fits) = h in
    (same_status ∙ sym st, same_info ∙ sym i, ap (leads b.status) st ∙ led, fits_on c c' st i fits)
Moved-Held b c none (c', some t) h (st, i, m, f) =
    (st, ap essence i, moves_first c.status b.status c'.status h.status m, f)
Moved-Held b c (some s) (c', some t) h (st, i, m, f) =
    let (same_status, same_info, led, fits) = h in
    let (ends_status, ends_info) = update_ends s t t.status in
    (ends_status ∙ st, ap essence (ends_info ∙ i), moves-leads b.status c.status c'.status led m, f)

Held-InfoFits :
    (b : BundleAccount) (c : CacheAccount) (o : Option TransitionAccount) → Held b c o → InfoFits c
Held-InfoFits b c none h = h.fits
Held-InfoFits b c (some t) (st, i, l, f) = f

-- What a block leaves.
abbrev HeldAfter : BundleAccount → Option Change → Type 0
HeldAfter b none = Unit {0}
HeldAfter b (some (c, o)) = Held b c o

run_block-Held :
    (b : BundleAccount) (c : CacheAccount) (o : Option TransitionAccount)
    (ops : List CacheOperation)
    → Held b c o
    → HeldAfter b (run_block c o ops)
unfolding run_block
run_block-Held b c o [] h = h
run_block-Held b c o (op ∷ ops) h =
    go (operate c op) (λ made. run_block-Held b made.0 (merged o made.1) ops)
      (operate-Moved c op (Held-InfoFits b c o h))
  where
    go :
        (made : Option Change)
        → ((m : Change)
            → Held b m.0 (merged o m.1)
            → HeldAfter b (run_block m.0 (merged o m.1) ops))
        → Moved c made
        → HeldAfter b (made >>= (λ m. run_block m.0 (merged o m.1) ops))
    go none rest m = tt
    go (some made) rest m = rest made (Moved-Held b c o made h m)

-- The bundle takes the block's transition.
unfoldable pub merge_block : BundleAccount → Option TransitionAccount → Option BundleAccount
unfolding update_and_create_revert
merge_block b none = some b
merge_block b (some t) = update_and_create_revert b t >>= (λ updated. some updated.0)

abbrev FollowsSome : CacheAccount → Option BundleAccount → Type 0
FollowsSome c none = ⊥
FollowsSome c (some b) = Follows c b

merge_block-Follows :
    (b : BundleAccount) (c : CacheAccount) (o : Option TransitionAccount)
    → has_info b.info ≡ exists_in b.status
    → Held b c o
    → FollowsSome c (merge_block b o)
unfolding merge_block update_and_create_revert
merge_block-Follows b c none f h = h
merge_block-Follows b c (some t) f (st, i, l, g) = go (update_any b t) (
    update_any-Taken b t t.status (ap (leads b.status) st ∙ l) f
      (has_info-essence t.info (account_info c) i ∙ g ∙ ap exists_in (sym st)))
  where
    go :
        (made : Option Updated)
        → Taken t.status t.info made
        → FollowsSome c (made >>= with_revert >>= (λ updated. some updated.0))
    go none m = absurd m
    go (some (b', r)) (m, e) = record {
      status = ap (λ x. matches x b'.status) (sym st) ∙ m;
      info = e ∙ i;
      fits = g;
    }

-- The bundle after a block, and what the later blocks make of it.
abbrev go_on :
    Option BundleAccount
    → (BundleAccount → Option (CacheAccount × Option BundleAccount))
    → CacheAccount
    → Option (CacheAccount × Option BundleAccount)
go_on none f c = some (c, none)
go_on (some b) f c = f b

-- The cache and the bundle over a sequence of blocks, each a sequence of changes. The inner `none` is
-- a panic of the bundle, the outer one a panic of the cache.
unfoldable pub run_blocks :
    CacheAccount
    → BundleAccount
    → List (List CacheOperation)
    → Option (CacheAccount × Option BundleAccount)
unfolding run_block merge_block
run_blocks c b [] = some (c, some b)
run_blocks c b (ops ∷ blocks) =
    run_block c none ops
    >>= (λ made. go_on (merge_block b made.1) (λ b'. run_blocks made.0 b' blocks) made.0)

abbrev BothFollow : Option (CacheAccount × Option BundleAccount) → Type 0
BothFollow none = Unit {0}
BothFollow (some (c, o)) = FollowsSome c o

Follows-info :
    (c : CacheAccount) (b : BundleAccount) → Follows c b → has_info b.info ≡ exists_in b.status
Follows-info c b h =
    has_info-essence b.info (account_info c) h.info
    ∙ h.fits
    ∙ matches-exists c.status b.status h.status

run_blocks-BothFollow :
    (c : CacheAccount) (b : BundleAccount) (blocks : List (List CacheOperation))
    → Follows c b
    → BothFollow (run_blocks c b blocks)
unfolding run_blocks
run_blocks-BothFollow c b [] h = h
run_blocks-BothFollow c b (ops ∷ blocks) h =
    block (run_block c none ops) (λ c' b'. run_blocks-BothFollow c' b' blocks)
      (run_block-Held b c none ops h)
  where
    merged_in :
        (c' : CacheAccount) (o : Option BundleAccount)
        → ((d : CacheAccount) (b' : BundleAccount)
            → Follows d b'
            → BothFollow (run_blocks d b' blocks))
        → FollowsSome c' o
        → BothFollow (go_on o (λ b'. run_blocks c' b' blocks) c')
    merged_in c' none rest f = f
    merged_in c' (some b') rest f = rest c' b' f

    block :
        (made : Option Change)
        → ((d : CacheAccount) (b' : BundleAccount)
            → Follows d b'
            → BothFollow (run_blocks d b' blocks))
        → HeldAfter b made
        → BothFollow
            (made >>= (λ m. go_on (merge_block b m.1) (λ b'. run_blocks m.0 b' blocks) m.0))
    block none rest k = tt
    block (some (c', t)) rest k =
        merged_in c' (merge_block b t) rest (merge_block-Follows b c' t (Follows-info c b h) k)

-- Over any sequence of blocks of changes to a cached account (touches, self-destructions,
-- creations that do not start from a changed account, drains, increments and changes) in which no
-- change of the cache panics, a bundle account that follows the cached account takes every
-- block's merged transition without a panic and follows the cached account at the end: their
-- statuses match (an account created and destroyed within one block may be destroyed in the cache
-- and not existing in the bundle), and balance, nonce and code hash are the same.
pub run_blocks-Follows :
    (c c' : CacheAccount) (b : BundleAccount) (o : Option BundleAccount)
    (blocks : List (List CacheOperation))
    → Follows c b
    → run_blocks c b blocks ≡ some (c', o)
    → (b' : BundleAccount) × (o ≡ some b') × Follows c' b'
run_blocks-Follows c c' b o blocks h e =
    found o (subst BothFollow e (run_blocks-BothFollow c b blocks h))
  where
    found :
        (p : Option BundleAccount)
        → FollowsSome c' p
        → (b' : BundleAccount) × (p ≡ some b') × Follows c' b'
    found none f = absurd f
    found (some b') f = (b', refl, f)
