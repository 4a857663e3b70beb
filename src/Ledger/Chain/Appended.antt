-- ===== src/Ledger/Chain/Appended.antt =====
-- The chains that `verify` accepts are those that `append` makes, crates/workflow-ledger/src/chain.rs.
use mathlib.Core.List.{append-nil, append_assoc}
use opencode_cycle_plugin.Prelude.{
  ℕ, suc, ◌≡◌, ◌↔◌, ◌⊎◌, refl, sym, ◌∙◌, ap, Bool, true, false, ◌&&◌, Option, none, some, List, [],
  ◌∷◌, ◌++◌, Result, ok, err, arith, ltb, ◌==◌, length, u64_max, Bool-cases, Result-cases,
  Option-cases, length-append, inl, inr,
}
use opencode_cycle_plugin.Ledger.Chain.{
  LedgerEntry, LedgerError, valid, Coding, same_digest, head, calculate_hash, new, append,
  verify_entries, verify,
}

same_digest_iff : (a b : Option ℕ) → (same_digest a b ≡ true) ↔ (a ≡ b)
same_digest_iff none none = ((λ _. refl), (λ _. refl))
same_digest_iff none (some b) = ((λ h. absurd (cc)), (λ h. absurd (cc)))
same_digest_iff (some a) none = ((λ h. absurd (cc)), (λ h. absurd (cc)))
same_digest_iff (some a) (some b) = ground arith

append_cancel {ℓ} : {A : Type ℓ} (xs ys zs : List A) → xs ++ ys ≡ xs ++ zs → ys ≡ zs
append_cancel [] ys zs h = h
append_cancel (x ∷ xs) ys zs h = append_cancel xs ys zs (ground (arith, h))

module _ {Event : Type 0} where
  head-append :
      (entries : List (LedgerEntry Event)) (e : LedgerEntry Event)
      → head (entries ++ e ∷ []) ≡ some e.hash
  unfolding head
  head-append [] e = refl
  head-append (f ∷ []) e = refl
  head-append (f ∷ g ∷ entries) e = head-append (g ∷ entries) e

  abbrev pub events : List (LedgerEntry Event) → List Event
  events [] = []
  events (e ∷ entries) = e.event ∷ events entries

  -- the entry that `append` makes, and the tests of the loop
  abbrev made_at : List (LedgerEntry Event) → ℕ → Event → LedgerEntry Event
  made_at before hash event = record {
    event = event;
    hash = hash;
    previous_hash = head before;
    sequence = length before;
  }

  abbrev is_made : List (LedgerEntry Event) → ℕ → LedgerEntry Event → Bool
  is_made before hash e =
      (e.sequence == length before)
      && (same_digest e.previous_hash (head before) && (hash == e.hash))

  is_made_iff :
      (before : List (LedgerEntry Event)) (hash : ℕ) (e : LedgerEntry Event)
      → (is_made before hash e ≡ true) ↔ (made_at before hash e.event ≡ e)
  is_made_iff before hash e = ground (arith, same_digest_iff e.previous_hash (head before))

module _ {Event E : Type 0} (coding : Coding Event E) where
  -- the events appended one after another, up to the first error
  unfoldable pub append_all :
      List (LedgerEntry Event) → List Event → Result (List (LedgerEntry Event)) (LedgerError E)
  append_all entries [] = ok entries
  append_all entries (e ∷ es) = elim (append coding entries e).1 [
    | err x ↦ err x
    | ok _ ↦ append_all (append coding entries e).0 es
  ]

  append_all-prefix :
      (entries : List (LedgerEntry Event)) (es : List Event) (out : List (LedgerEntry Event))
      → append_all entries es ≡ ok out
      → (more : List (LedgerEntry Event)) × (out ≡ entries ++ more)
  unfolding append_all append
  append_all-prefix entries [] out h = ([], ground (arith, append-nil entries, h))
  append_all-prefix entries (e ∷ es) out h = elim (Bool-cases (ltb u64_max (length entries))) [
    | inl full ↦ absurd (ground arith)
    | inr room ↦ elim (Result-cases (new coding (length entries) (head entries) e)) [
      | inr (x, refused) ↦ absurd (ground arith)
      | inl (made, taken) ↦
          let (more, whole) = append_all-prefix (entries ++ made ∷ []) es out (ground arith) in
          (made ∷ more, whole ∙ append_assoc entries (made ∷ []) more)
    ]
  ]

  module _ (before : List (LedgerEntry Event)) (e : LedgerEntry Event) (hash : ℕ)
      (room : ltb u64_max (length before) ≡ false)
      (taken : calculate_hash coding (length before) (head before) e.event ≡ ok hash) where
    append_step :
        (es : List Event)
        → append_all before (e.event ∷ es)
          ≡ append_all (before ++ made_at before hash e.event ∷ []) es
    unfolding append_all append new
    append_step es = ground (arith, room, taken)

    verify_step :
        (rest : List (LedgerEntry Event))
        → is_made before hash e ≡ true
        → verify_entries coding (length before) (head before) (e ∷ rest)
          ≡ verify_entries coding (length (before ++ e ∷ [])) (head (before ++ e ∷ [])) rest
    unfolding verify_entries
    verify_step rest same =
        let size : length (before ++ e ∷ []) ≡ suc (length before) =
          omega (arith, length-append before (e ∷ [])) in
        let top = head-append before e in rw (size, top) (ground (arith, room, taken, same))

    verify_refused :
        (rest : List (LedgerEntry Event)) (last : Option ℕ)
        → is_made before hash e ≡ false
        → ¬ (verify_entries coding (length before) (head before) (e ∷ rest) ≡ ok last)
    unfolding verify_entries
    verify_refused rest last other h = ground (arith, room, taken, other, h)

    -- a chain that `append` makes has the entry that it makes
    appended_is_made :
        (es : List Event) (rest : List (LedgerEntry Event))
        → append_all before (e.event ∷ es) ≡ ok (before ++ e ∷ rest)
        → is_made before hash e ≡ true
    appended_is_made es rest h =
        let made = made_at before hash e.event in
        let (more, whole) =
          append_all-prefix (before ++ made ∷ []) es (before ++ e ∷ rest)
            (sym (append_step es) ∙ h) in
        let same =
          append_cancel before (e ∷ rest) (made ∷ more)
            (whole ∙ append_assoc before (made ∷ []) more) in
        (is_made_iff before hash e).1 (ground (arith, same))

    verify_taken_iff :
        (rest : List (LedgerEntry Event)) (last : Option ℕ)
        → ((verify_entries coding (length (before ++ e ∷ [])) (head (before ++ e ∷ [])) rest
              ≡ ok last)
            ↔ ((append_all (before ++ e ∷ []) (events rest) ≡ ok ((before ++ e ∷ []) ++ rest))
                × (last ≡ head ((before ++ e ∷ []) ++ rest))))
        → (verify_entries coding (length before) (head before) (e ∷ rest) ≡ ok last) ↔ (
            (append_all before (events (e ∷ rest)) ≡ ok (before ++ e ∷ rest))
            × (last ≡ head (before ++ e ∷ rest)))
    verify_taken_iff rest last next = elim (Bool-cases (is_made before hash e)) [
      | inl same ↦
          let made = (is_made_iff before hash e).0 same in
          let step =
            append_step (events rest)
            ∙ ap (λ x. append_all (before ++ x ∷ []) (events rest)) made in
          let cut = append_assoc before (e ∷ []) rest in
          rw (verify_step rest same, step) (rw cut at next)
      | inr other ↦ (
        λ h. absurd (verify_refused rest last other h),
        λ (h, at). absurd (ground (arith, other, appended_is_made (events rest) rest h)),
      )
    ]

  -- the loop behind the entries `before`
  verify_entries_iff :
      (before rest : List (LedgerEntry Event)) (last : Option ℕ)
      → (verify_entries coding (length before) (head before) rest ≡ ok last)
        ↔ ((append_all before (events rest) ≡ ok (before ++ rest)) × (last ≡ head (before ++ rest)))
  unfolding verify_entries append_all append new
  verify_entries_iff before [] last = let same = append-nil before in ground arith
  verify_entries_iff before (e ∷ rest) last = elim (Bool-cases (ltb u64_max (length before))) [
    | inl full ↦ ground arith
    | inr room ↦ elim (Result-cases (calculate_hash coding (length before) (head before) e.event)) [
      | inr (x, refused) ↦ ground arith
      | inl (hash, taken) ↦
          verify_taken_iff before e hash room taken rest last
            (verify_entries_iff (before ++ e ∷ []) rest last)
    ]
  ]

  -- `verify` accepts exactly the chains that `append` makes of their events, one after another from an
  -- empty chain, without an error; it then reports the number of the entries and the hash of the last
  -- one, which is the expected head if there is one.
  pub verify_iff :
      (entries : List (LedgerEntry Event)) (expected : Option ℕ) (n : ℕ) (last : Option ℕ)
      → (verify coding entries expected ≡ valid n last) ↔ (
          (append_all [] (events entries) ≡ ok entries)
          × (n ≡ length entries)
          × (last ≡ head entries)
          × ((expected ≡ none) ⊎ (expected ≡ last)))
  unfolding verify head
  verify_iff entries expected n last =
      let same = same_digest_iff expected last in
      let whole = verify_entries_iff [] entries last in
      elim (Result-cases (verify_entries coding 0 none entries)) [
        | inr ((reason, at), refused) ↦ ground arith
        | inl (found, passed) ↦ elim (Option-cases expected) [
          | inl open_head ↦ ground arith
          | inr (digest, given) ↦ ground arith
        ]
      ]
