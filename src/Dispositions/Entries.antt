-- ===== src/Dispositions/Entries.antt =====
-- The dictionary `remaining` of `guardian_disposition_diagnostics` (guardian_dispositions.py), where the IDs
-- differ.
use mathlib.Core.List.{Permᴰ}
use mathlib.Core.List.Permᴰ
use lit_grove.Prelude.{
  String, ◌≡◌, refl, sym, ap, ◌∙◌, subst, Bool, true, false, some, List, [], ◌∷◌, ◌++◌, map, select,
  insert, All, All-both, All-append, All-Memᴰ, Memᴰ, Pairwise, if◌then◌else◌, ◌==◌, string_eq,
  option_eq, beq_refl, append_nil, arith,
}
use lit_grove.Dispositions.State.{Disposition}
use lit_grove.Dispositions.Report.{by_disposition_id, pop, only}
use lit_grove.Dispositions.Thread.{DifferentIds}

abbrev pub entries : List Disposition → List (String × Disposition)
entries ds = map (λ (d : Disposition). (d.disposition_id, d)) ds

-- The first record with the ID is taken away.
abbrev pub without : String → List Disposition → List Disposition
without id [] = []
without id (d ∷ ds) = let rest = without id ds in if d.disposition_id == id then ds else d ∷ rest

pub pop-entries :
    (id : String) (ds : List Disposition) → pop id (entries ds) ≡ entries (without id ds)
pop-entries id [] = refl
pop-entries id (d ∷ ds) = ground (arith, pop-entries id ds)

pub values-entries :
    (ds : List Disposition) → map (λ (e : String × Disposition). e.1) (entries ds) ≡ ds
values-entries [] = refl
values-entries (d ∷ ds) = ap (λ r. d ∷ r) (values-entries ds)

insert-new :
    (known : List Disposition) (d : Disposition)
    → All (λ k. DifferentIds k d) known
    → insert d.disposition_id d (entries known) ≡ entries (known ++ d ∷ [])
unfolding insert
insert-new [] d h = refl
insert-new (k ∷ known) d h = ground (arith, insert-new known d h.1)

snoc-append :
    (known : List Disposition) (d : Disposition) (ds : List Disposition)
    → (known ++ d ∷ []) ++ ds ≡ known ++ d ∷ ds
snoc-append [] d ds = refl
snoc-append (k ∷ known) d ds = ap (λ r. k ∷ r) (snoc-append known d ds)

-- Records with different IDs are all there, in their order.
pub by_disposition_id-entries :
    (known ds : List Disposition)
    → All (λ d. All (λ k. DifferentIds k d) known) ds
    → Pairwise DifferentIds ds
    → by_disposition_id (entries known) ds ≡ entries (known ++ ds)
unfolding by_disposition_id
by_disposition_id-entries known [] h k = ap entries (sym (append_nil known))
by_disposition_id-entries known (d ∷ ds) h k =
    ap (λ es. by_disposition_id es ds) (insert-new known d h.0)
    ∙ by_disposition_id-entries (known ++ d ∷ []) ds
        (All-both ds
          (λ x new other. (All-append (λ y. DifferentIds y x) known (d ∷ [])).1 (new, (other, tt)))
          h.1 k.0)
        k.1
    ∙ ap entries (snoc-append known d ds)

pub only-Memᴰ :
    (p : Disposition → Bool) (next : Disposition) (ds : List Disposition)
    → only (select p ds) ≡ some next
    → Memᴰ next ds × (p next ≡ true)
only-Memᴰ p next [] e = cc
only-Memᴰ p next (d ∷ ds) e = go (p d) refl e (only-Memᴰ p next ds)
  where
    taken : (r : List Disposition) → only (d ∷ r) ≡ some next → next ≡ d
    taken [] q = cc
    taken (x ∷ xs) q = cc

    go :
        (b : Bool)
        → p d ≡ b
        → only (if b then d ∷ select p ds else select p ds) ≡ some next
        → (only (select p ds) ≡ some next → Memᴰ next ds × (p next ≡ true))
        → Memᴰ next (d ∷ ds) × (p next ≡ true)
    go true q e again = let same = taken (select p ds) e in (Memᴰ.head same, ap p same ∙ q)
    go false q e again = let (m, passes) = again e in (Memᴰ.tail m, passes)

pub without-Permᴰ :
    (next : Disposition) (ds : List Disposition)
    → Memᴰ next ds
    → Pairwise DifferentIds ds
    → Permᴰ ds (next ∷ without next.disposition_id ds)
without-Permᴰ next [] m h = elim m [ ]
without-Permᴰ next (d ∷ ds) (Memᴰ.head e) h =
    subst
      (λ (b : Bool). Permᴰ (d ∷ ds) (next ∷ (if b then ds else d ∷ without next.disposition_id ds)))
      (sym (beq_refl d.disposition_id)
        ∙ ap (λ (x : Disposition). d.disposition_id == x.disposition_id) (sym e))
      (Permᴰ.cons (sym e) (Permᴰ.refl ds))
without-Permᴰ next (d ∷ ds) (Memᴰ.tail m) h =
    subst
      (λ (b : Bool). Permᴰ (d ∷ ds) (next ∷ (if b then ds else d ∷ without next.disposition_id ds)))
      (sym (All-Memᴰ (DifferentIds d) ds next h.0 m))
      (Permᴰ.trans (Permᴰ.cons refl (without-Permᴰ next ds m h.1)) (Permᴰ.swap refl refl))

All-without :
    (P : Disposition → Type 0) (id : String) (ds : List Disposition)
    → All P ds
    → All P (without id ds)
All-without P id [] h = tt
All-without P id (d ∷ ds) h =
    elim (d.disposition_id == id) as (λ b. All P (if b then ds else d ∷ without id ds)) [
      | true ↦ h.1
      | false ↦ (h.0, All-without P id ds h.1)
    ]

pub Pairwise-without :
    (id : String) (ds : List Disposition)
    → Pairwise DifferentIds ds
    → Pairwise DifferentIds (without id ds)
Pairwise-without id [] h = tt
Pairwise-without id (d ∷ ds) h =
    elim (d.disposition_id == id)
      as (λ b. Pairwise DifferentIds (if b then ds else d ∷ without id ds)) [
        | true ↦ h.1
        | false ↦ (All-without (DifferentIds d) id ds h.0, Pairwise-without id ds h.1)
      ]
