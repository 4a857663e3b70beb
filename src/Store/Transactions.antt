-- ===== src/Store/Transactions.antt =====
-- What a transaction leaves behind (crates/workflow-store/src).
use opencode_cycle_plugin.Prelude.{◌≡◌, refl, subst, Result, ok, err, ◌>>=◌, arith}
use opencode_cycle_plugin.Store.Tables.{Store, StoreError, commit}

-- a property of the store that a transaction leaves, if it commits
abbrev pub Leaves : {A : Type 0} → (Store → Type 0) → Result (Store × A) StoreError → Type 0
Leaves P (err e) = Unit
Leaves P (ok (s, a)) = P s

pub bind-Leaves :
    {A B : Type 0} (P : Store → Type 0) (m : Result B StoreError)
    (f : B → Result (Store × A) StoreError)
    → ((b : B) → Leaves P (f b))
    → Leaves P (m >>= f)
bind-Leaves P (err e) f h = tt
bind-Leaves P (ok b) f h = h b

pub commit-Leaves :
    {A : Type 0} (P : Store → Type 0) (s : Store) (r : Result (Store × A) StoreError)
    → P s
    → Leaves P r
    → P (commit s r).0
commit-Leaves P s (err e) p h = p
commit-Leaves P s (ok (s', a)) p h = h

-- a property of the store and of the answer, if the transaction commits
abbrev pub Commits : {A : Type 0} → (Store → A → Type 0) → Result (Store × A) StoreError → Type 0
Commits P (err e) = Unit
Commits P (ok (s, a)) = P s a

pub bind-Commits :
    {A B : Type 0} (P : Store → A → Type 0) (m : Result B StoreError)
    (f : B → Result (Store × A) StoreError)
    → ((b : B) → m ≡ ok b → Commits P (f b))
    → Commits P (m >>= f)
bind-Commits P (err e) f h = tt
bind-Commits P (ok b) f h = h b refl

pub commit-Commits :
    {A : Type 0} (P : Store → A → Type 0) (s : Store) (r : Result (Store × A) StoreError) (a : A)
    → Commits P r
    → (commit s r).1 ≡ ok a
    → P (commit s r).0 a
commit-Commits P s (err e) a h answer = absurd (cc)
commit-Commits P s (ok (s', b)) a h answer = let same : b ≡ a = ground arith in subst (P s') same h
