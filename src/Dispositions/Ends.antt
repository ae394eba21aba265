-- ===== src/Dispositions/Ends.antt =====
-- The `while` loop of `guardian_disposition_diagnostics` (guardian_dispositions.py) ends.
use lit_grove.Prelude.{
  ℕ, zero, suc, ◌≤◌, String, ◌≡◌, refl, ap, ◌∙◌, Bool, true, false, not, ◌≢◌, eq_of_beq, Option,
  none, some, List, [], ◌∷◌, map, select, length, All, insert, if◌then◌else◌, ◌==◌, string_eq,
  option_eq, arith,
}
use lit_grove.Dispositions.State.{Disposition}
use lit_grove.Dispositions.Report.{
  by_disposition_id, pop, successors, Chain, complete, broken, unfinished, extend, only, follow,
  chain_of, is_root,
}

abbrev IsEntry : String × Disposition → Type 0
IsEntry e = e.0 ≡ e.1.disposition_id

All-insert :
    (d : Disposition) (known : List (String × Disposition))
    → All IsEntry known
    → All IsEntry (insert d.disposition_id d known)
unfolding insert
All-insert d [] h = (refl, tt)
All-insert d ((j, e) ∷ known) h =
    put (j == d.disposition_id) (eq_of_beq j d.disposition_id) (All-insert d known h.1)
  where
    put :
        (b : Bool)
        → (b ≡ true → j ≡ d.disposition_id)
        → All IsEntry (insert d.disposition_id d known)
        → All IsEntry (if b then (j, d) ∷ known else (j, e) ∷ insert d.disposition_id d known)
    put true same later = (same refl, h.1)
    put false same later = (h.0, later)

All-by_disposition_id :
    (known : List (String × Disposition)) (ds : List Disposition)
    → All IsEntry known
    → All IsEntry (by_disposition_id known ds)
unfolding by_disposition_id
All-by_disposition_id known [] h = h
All-by_disposition_id known (d ∷ ds) h =
    All-by_disposition_id (insert d.disposition_id d known) ds (All-insert d known h)

All-pop :
    (id : String) (remaining : List (String × Disposition))
    → All IsEntry remaining
    → All IsEntry (pop id remaining)
All-pop id [] h = tt
All-pop id ((j, d) ∷ ds) h =
    elim (j == id) as (λ b. All IsEntry (if b then ds else (j, d) ∷ pop id ds)) [
      | true ↦ h.1
      | false ↦ (h.0, All-pop id ds h.1)
    ]

-- What the loop takes is taken away.
length-pop :
    (p : Disposition → Bool) (next : Disposition) (remaining : List (String × Disposition))
    → All IsEntry remaining
    → only (select p (map (λ (e : String × Disposition). e.1) remaining)) ≡ some next
    → suc (length (pop next.disposition_id remaining)) ≤ length remaining
length-pop p next [] h e = cc
length-pop p next ((j, d) ∷ ds) h e = go (p d) e (length-pop p next ds h.1)
  where
    rest : List Disposition
    rest = select p (map (λ (x : String × Disposition). x.1) ds)

    taken : (r : List Disposition) → only (d ∷ r) ≡ some next → d ≡ next
    taken [] q = cc
    taken (x ∷ xs) q = cc

    removed :
        j ≡ next.disposition_id
        → suc (length (pop next.disposition_id ((j, d) ∷ ds))) ≤ suc (length ds)
    removed q = ground (arith, string_eq.beq_iff j next.disposition_id)

    kept :
        suc (length (pop next.disposition_id ds)) ≤ length ds
        → suc (length (pop next.disposition_id ((j, d) ∷ ds))) ≤ suc (length ds)
    kept q = ground arith

    go :
        (b : Bool)
        → only (if b then d ∷ rest else rest) ≡ some next
        → (only rest ≡ some next → suc (length (pop next.disposition_id ds)) ≤ length ds)
        → suc (length (pop next.disposition_id ((j, d) ∷ ds))) ≤ suc (length ds)
    go true e again = removed (h.0 ∙ ap (λ (x : Disposition). x.disposition_id) (taken rest e))
    go false e again = kept (again e)

extend-unfinished : (d : Disposition) (c : Chain) → extend d c ≡ unfinished → c ≡ unfinished
extend-unfinished d (complete ds) h = cc
extend-unfinished d (broken ds at) h = cc
extend-unfinished d unfinished h = refl

follow-ends :
    (fuel : ℕ) (last : Disposition) (remaining : List (String × Disposition))
    → All IsEntry remaining
    → length remaining ≤ fuel
    → follow fuel last remaining ≡ unfinished
    → ⊥
unfolding follow successors
follow-ends fuel last [] h k e = cc
follow-ends zero last (r ∷ rs) h k e = absurd (omega arith)
follow-ends (suc fuel) last (r ∷ rs) h k e =
    go (only (successors last.disposition_id (r ∷ rs))) refl e (follow-ends fuel)
  where
    go :
        (o : Option Disposition)
        → only (successors last.disposition_id (r ∷ rs)) ≡ o
        → elim o as (λ _. Chain) [
          | none ↦ broken [] last
          | some next ↦ extend next (follow fuel next (pop next.disposition_id (r ∷ rs)))
        ]
          ≡ unfinished
        → ((last : Disposition) (remaining : List (String × Disposition))
            → All IsEntry remaining
            → length remaining ≤ fuel
            → follow fuel last remaining ≡ unfinished
            → ⊥)
        → ⊥
    go none q e again = cc
    go (some next) q e again =
        let shorter =
          length-pop (λ (d : Disposition). d.previous_disposition_id == some last.disposition_id)
            next (r ∷ rs) h q in
        again next (pop next.disposition_id (r ∷ rs)) (All-pop next.disposition_id (r ∷ rs) h)
          (omega (arith, shorter)) (extend-unfinished next _ e)

-- Whatever the records of a finding, one round of the loop for each record with a predecessor is enough.
pub chain_of-ends :
    (root : Disposition) (records : List Disposition) → chain_of root records ≢ unfinished
unfolding chain_of
chain_of-ends root records e =
    let others = select (λ (d : Disposition). not (is_root d)) records in
    follow-ends (length (by_disposition_id [] others)) root (by_disposition_id [] others)
      (All-by_disposition_id [] others tt) (omega arith) e
