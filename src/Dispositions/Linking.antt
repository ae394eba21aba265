-- ===== src/Dispositions/Linking.antt =====
-- The `while` loop of `guardian_disposition_diagnostics` (guardian_dispositions.py) links all records.
use mathlib.Core.List.{Permᴰ}
use lit_grove.Prelude.{
  partition, ℕ, zero, suc, ◌≡◌, refl, sym, ap, ◌∙◌, subst, not, Option, none, some, List, [], ◌∷◌,
  ◌++◌, select, length, All, Pairwise, Pairwise-select, ◌==◌, string_eq, option_eq, eq_of_beq,
}
use lit_grove.Dispositions.State.{Disposition}
use lit_grove.Dispositions.Report.{
  by_disposition_id, pop, successors, Chain, complete, broken, unfinished, extend, only, follow,
  chain_of, is_root,
}
use lit_grove.Dispositions.Thread.{DifferentIds}
use lit_grove.Dispositions.Entries.{
  entries, without, pop-entries, values-entries, by_disposition_id-entries, only-Memᴰ,
  without-Permᴰ, Pairwise-without,
}

-- Each record names the one before it.
pub data Linked : Disposition → List Disposition → Type 0 where
  last : {previous : Disposition} → Linked previous []
  next :
      {previous d : Disposition} {ds : List Disposition}
      → d.previous_disposition_id ≡ some previous.disposition_id
      → Linked d ds
      → Linked previous (d ∷ ds)

extend-complete :
    (d : Disposition) (c : Chain) (ds : List Disposition)
    → extend d c ≡ complete ds
    → (es : List Disposition) × (c ≡ complete es) × (ds ≡ d ∷ es)
extend-complete d (complete es) ds h = (es, refl, cc)
extend-complete d (broken es at) ds h = cc
extend-complete d unfinished ds h = cc

-- Where the loop comes to its end, it has linked all records.
follow-Linked :
    (fuel : ℕ) (previous : Disposition) (ds found : List Disposition)
    → Pairwise DifferentIds ds
    → follow fuel previous (entries ds) ≡ complete found
    → Permᴰ ds found × Linked previous found
unfolding follow successors
follow-Linked fuel previous [] found h e =
    (subst (Permᴰ []) none_left Permᴰ.nil, subst (Linked previous) none_left last)
  where
    none_left : [] ≡ found
    none_left = cc
follow-Linked zero previous (d ∷ ds) found h e = cc
follow-Linked (suc fuel) previous (d ∷ ds) found h e =
    go (only (successors previous.disposition_id (entries (d ∷ ds)))) refl e (follow-Linked fuel)
  where
    go :
        (o : Option Disposition)
        → only (successors previous.disposition_id (entries (d ∷ ds))) ≡ o
        → elim o as (λ _. Chain) [
          | none ↦ broken [] previous
          | some n ↦ extend n (follow fuel n (pop n.disposition_id (entries (d ∷ ds))))
        ]
          ≡ complete found
        → ((previous : Disposition) (ds found : List Disposition)
            → Pairwise DifferentIds ds
            → follow fuel previous (entries ds) ≡ complete found
            → Permᴰ ds found × Linked previous found)
        → Permᴰ (d ∷ ds) found × Linked previous found
    go none q e again = cc
    go (some n) q e again =
        let (es, rest, found_is) = extend-complete n _ found e in
        let (m, named) =
          only-Memᴰ (λ (x : Disposition). x.previous_disposition_id == some previous.disposition_id)
            n (d ∷ ds)
            (subst
              (λ r.
                only (
                  select
                    (λ (x : Disposition). x.previous_disposition_id == some previous.disposition_id)
                    r)
                ≡ some n)
              (values-entries (d ∷ ds)) q) in
        let (reordered, linked) =
          again n (without n.disposition_id (d ∷ ds)) es
            (Pairwise-without n.disposition_id (d ∷ ds) h)
            (ap (follow fuel n) (sym (pop-entries n.disposition_id (d ∷ ds))) ∙ rest) in
        (
          subst (Permᴰ (d ∷ ds)) (sym found_is)
              (Permᴰ.trans (without-Permᴰ n (d ∷ ds) m h) (Permᴰ.cons refl reordered)),
          subst (Linked previous) (sym found_is) (
              next (eq_of_beq n.previous_disposition_id (some previous.disposition_id) named)
                linked),
        )

-- The chain of a finding, where its records have different IDs.
pub chain_of-Linked :
    (root : Disposition) (records found : List Disposition)
    → Pairwise DifferentIds records
    → only (select is_root records) ≡ some root
    → chain_of root records ≡ complete found
    → Permᴰ records (root ∷ found) × Linked root found
unfolding chain_of
chain_of-Linked root records found h e k =
    let others = select (λ (d : Disposition). not (is_root d)) records in
    let kept =
      by_disposition_id-entries [] others (new others)
        (Pairwise-select DifferentIds (λ (d : Disposition). not (is_root d)) records h) in
    let (reordered, linked) =
      follow-Linked (length (by_disposition_id [] others)) root others found
        (Pairwise-select DifferentIds (λ (d : Disposition). not (is_root d)) records h)
        (ap (follow (length (by_disposition_id [] others)) root) (sym kept) ∙ k) in
    (
      Permᴰ.trans (partition is_root records) (
          subst (λ rs. Permᴰ (rs ++ others) (root ∷ found))
            (sym (single (select is_root records) e)) (Permᴰ.cons refl reordered)),
      linked,
    )
  where
    new : (ds : List Disposition) → All (λ d. All (λ k. DifferentIds k d) []) ds
    new [] = tt
    new (d ∷ ds) = (tt, new ds)

    single : (rs : List Disposition) → only rs ≡ some root → rs ≡ root ∷ []
    single [] q = cc
    single (r ∷ []) q = cc
    single (r ∷ x ∷ rs) q = cc
