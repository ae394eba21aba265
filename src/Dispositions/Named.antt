-- ===== src/Dispositions/Named.antt =====
-- What a disposition names is in the store (guardian_dispositions.py).
use lit_grove.Prelude.{
  String, ◌≡◌, refl, sym, ap, ◌∙◌, subst, Bool, true, Option, none, some, List, [], ◌∷◌, map,
  select, contains, Memᴰ, Memᴰ-Permᴰ, select-Memᴰ, Memᴰ-select, contains-of_Memᴰ, ◌==◌, string_eq,
  nat_eq, option_eq, beq_refl,
}
use mathlib.Core.List.Permᴰ
use lit_grove.Dispositions.State.{status_eq, Disposition, GuardianReport}
use lit_grove.Dispositions.Report.{finding_of, finding_eq, guardian_disposition_diagnostics}
use lit_grove.Dispositions.Thread.{Follows, IsDecided}
use lit_grove.Dispositions.Accepted.{guardian_disposition_diagnostics-IsDecided}

-- What is behind the root of a thread names another record of it.
named_one :
    (root : Disposition) (others : List Disposition) (n : Disposition)
    → Follows root others
    → Memᴰ n others
    → (p : Disposition) × Memᴰ p (root ∷ others)
      × (n.previous_disposition_id ≡ some p.disposition_id)
named_one root [] n f m = elim m [ ]
named_one root (d ∷ ds) n (Follows.next s f) (Memᴰ.head q) =
    (root, Memᴰ.head refl, ap (λ (x : Disposition). x.previous_disposition_id) q ∙ s.names)
named_one root (d ∷ ds) n (Follows.next s f) (Memᴰ.tail m) =
    let (p, k, e) = named_one d ds n f m in (p, Memᴰ.tail k, e)

-- A record of a decided finding names another of it, or none.
IsDecided-named :
    (records : List Disposition) (n : Disposition) (id : String)
    → IsDecided records
    → Memᴰ n records
    → n.previous_disposition_id ≡ some id
    → (p : Disposition) × Memᴰ p records × (id ≡ p.disposition_id)
IsDecided-named [] n id t m e = elim m [ ]
IsDecided-named (r ∷ rs) n id t m e = go (Memᴰ-Permᴰ t.reordered m)
  where
    some_inj : {a b : String} → some a ≡ some b → a ≡ b
    some_inj q = cc

    clash : {o : Option String} → o ≡ none → o ≡ some id → ⊥
    clash q h = cc

    go : Memᴰ n (t.root ∷ t.others) → (p : Disposition) × Memᴰ p (r ∷ rs) × (id ≡ p.disposition_id)
    go (Memᴰ.head q) =
        absurd (clash (ap (λ (x : Disposition). x.previous_disposition_id) q ∙ t.first) e)
    go (Memᴰ.tail k) =
        let (p, l, f) = named_one t.root t.others n t.follows k in
        (p, Memᴰ-Permᴰ (Permᴰ.symm t.reordered) l, some_inj (sym e ∙ f))

-- In a store whose report is empty, what a record names is in the store.
pub named_there :
    (digest : String → String) (reports : List GuardianReport) (file : List Disposition)
    (n : Disposition) (id : String)
    → guardian_disposition_diagnostics digest reports file ≡ []
    → Memᴰ n file
    → n.previous_disposition_id ≡ some id
    → contains (map (λ (x : Disposition). x.disposition_id) file) id ≡ true
named_there digest reports file n id clean m e =
    let (_, _, decided) = guardian_disposition_diagnostics-IsDecided digest reports file clean in
    let (p, k, q) =
      IsDecided-named (select of_finding file) n id (decided (finding_of n))
        (Memᴰ-select of_finding n file m (beq_refl (finding_of n))) e in
    subst (λ i. contains (map (λ (x : Disposition). x.disposition_id) file) i ≡ true) (sym q)
      (contains-of_Memᴰ (λ (x : Disposition). x.disposition_id) p file
        (select-Memᴰ of_finding p file k).0)
  where
    of_finding : Disposition → Bool
    of_finding d = finding_of d == finding_of n
