-- ===== src/Core/Candidate/Prefix.antt =====
-- Codes that no other code continues, for the bytes of crates/workflow-core/src/digest.rs.
use opencode_cycle_plugin.Prelude.{
  ℕ, zero, suc, ◌/◌, ◌%◌, ◌<◌, Option, none, some, List, [], ◌∷◌, ◌++◌, ◌≡◌, refl, sym, ap, ◌∙◌,
  arith, length, length-append, All, map,
}
use mathlib.Core.List.{append_assoc}
use opencode_cycle_plugin.Core.Candidate.{
  Bytes, be_bytes, write_u64, write_bytes, write_optional, write_all,
}

-- A code: from what is written, whatever follows, the value and the rest can be told.
abbrev pub IsCode {ℓ} : {A : Type ℓ} → (A → Type 0) → (A → Bytes) → Type ℓ
IsCode {A = A} P write =
    (a b : A) (xs ys : Bytes) → P a → P b → write a ++ xs ≡ write b ++ ys → (a ≡ b) × (xs ≡ ys)

abbrev pub Sized : Bytes → Type 0
Sized bs = length bs < 18446744073709551616

append_split : (a b x y : Bytes) → length a ≡ length b → a ++ x ≡ b ++ y → (a ≡ b) × (x ≡ y)
append_split [] [] x y l e = (refl, e)
append_split [] (b ∷ bs) x y l e = absurd (omega (arith, l))
append_split (a ∷ ys) [] x y l e = absurd (omega (arith, l))
append_split (a ∷ ys) (b ∷ zs) x y l e =
    let first : a ≡ b = ground (arith, e) in
    let rest : (ys ++ x) ≡ (zs ++ y) = ground (arith, e) in
    let (same, after) = append_split ys zs x y (omega (arith, l)) rest in
    (rw (first, same) refl, after)

length-be_bytes : (k n : ℕ) → length (be_bytes k n) ≡ k
length-be_bytes zero n = refl
length-be_bytes (suc k) n =
    omega (arith, length-append (be_bytes k (n / 256)) (n % 256 ∷ []), length-be_bytes k (n / 256))

-- the number fits in `k` bytes
abbrev Fits : ℕ → ℕ → Type 0
Fits zero n = n ≡ 0
Fits (suc k) n = Fits k (n / 256)

be_bytes_inj : (k m n : ℕ) → Fits k m → Fits k n → be_bytes k m ≡ be_bytes k n → m ≡ n
be_bytes_inj zero m n f g e = omega (arith, f, g)
be_bytes_inj (suc k) m n f g e =
    let (high, low) =
      append_split (be_bytes k (m / 256)) (be_bytes k (n / 256)) _ _
        (length-be_bytes k (m / 256) ∙ sym (length-be_bytes k (n / 256))) e in
    let quotients = be_bytes_inj k (m / 256) (n / 256) f g high in
    let last : m % 256 ≡ n % 256 = ground (arith, low) in omega (arith, quotients, last)

pub write_u64-IsCode : IsCode (λ n. n < 18446744073709551616) write_u64
unfolding write_u64
write_u64-IsCode m n xs ys f g e =
    let (same, rest) =
      append_split (be_bytes 8 m) (be_bytes 8 n) xs ys
        (length-be_bytes 8 m ∙ sym (length-be_bytes 8 n)) e in
    (be_bytes_inj 8 m n (omega (arith, f)) (omega (arith, g)) same, rest)

pub write_bytes-IsCode : IsCode Sized write_bytes
unfolding write_bytes
write_bytes-IsCode a b xs ys f g e =
    let (lengths, rest) = write_u64-IsCode (length a) (length b) (a ++ xs) (b ++ ys) f g (
      sym (append_assoc (write_u64 (length a)) a xs)
      ∙ e
      ∙ append_assoc (write_u64 (length b)) b ys) in
    append_split a b xs ys lengths rest

abbrev pub OptSized : Option Bytes → Type 0
OptSized none = Unit
OptSized (some bs) = Sized bs

pub write_optional-IsCode : IsCode OptSized write_optional
unfolding write_optional
write_optional-IsCode none none xs ys f g e = (refl, ground (arith, e))
write_optional-IsCode none (some b) xs ys f g e = absurd (ground (arith, e))
write_optional-IsCode (some a) none xs ys f g e = absurd (ground (arith, e))
write_optional-IsCode (some a) (some b) xs ys f g e =
    let inner : (write_bytes a ++ xs) ≡ (write_bytes b ++ ys) = ground (arith, e) in
    let (same, rest) = write_bytes-IsCode a b xs ys f g inner in (ap some same, rest)

-- a code that tells a part of the value, `view`
abbrev pub IsCodeOf {ℓ κ} :
    {A : Type ℓ} {B : Type κ} → (A → B) → (A → Type 0) → (A → Bytes) → Type (ℓ ⊔ κ)
IsCodeOf {A = A} view P write =
    (a b : A) (xs ys : Bytes)
    → P a
    → P b
    → write a ++ xs ≡ write b ++ ys
    → (view a ≡ view b) × (xs ≡ ys)

pub write_all-IsCode {ℓ κ} :
    {A : Type ℓ} {B : Type κ} (view : A → B) (P : A → Type 0) (write : A → Bytes)
    → IsCodeOf view P write
    → (xs ys : List A) (bs cs : Bytes) → length xs ≡ length ys
    → All P xs
    → All P ys
    → write_all write xs ++ bs ≡ write_all write ys ++ cs
    → (map view xs ≡ map view ys) × (bs ≡ cs)
unfolding write_all
write_all-IsCode view P write code [] [] bs cs l f g e = (refl, e)
write_all-IsCode view P write code [] (y ∷ ys) bs cs l f g e = absurd (omega (arith, l))
write_all-IsCode view P write code (x ∷ xs) [] bs cs l f g e = absurd (omega (arith, l))
write_all-IsCode view P write code (x ∷ xs) (y ∷ ys) bs cs l f g e =
    let (same, rest) = code x y (write_all write xs ++ bs) (write_all write ys ++ cs) f.0 g.0 (
      sym (append_assoc (write x) (write_all write xs) bs)
      ∙ e
      ∙ append_assoc (write y) (write_all write ys) cs) in
    let (others, after) =
      write_all-IsCode view P write code xs ys bs cs (omega (arith, l)) f.1 g.1 rest in
    (rw (same, others) refl, after)
