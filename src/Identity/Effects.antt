-- ===== src/Identity/Effects.antt =====
-- What the last correction makes of its subjects.
use lit_grove.Prelude.{
  String, ◌≡◌, ap, subst, true, Option, none, some, List, [], ◌∷◌, ◌++◌, contains, lookup, insert,
  lookup-insert, All, All-map, string_eq, arith,
}
use lit_grove.Identity.State.{
  Operation, confirmed_duplicate_merge, mistaken_merge_split, Correction, PaperIdentity, returns,
}
use lit_grove.Identity.Project.{
  root, follow, resolve, resolve_end, Maps, assign, merge, change_by, project,
}
use lit_grove.Diagnostics.{Diagnostic}
use lit_grove.Identity.Report.{
  paper_set, refuse_or_project, identity_correction_diagnostics, project_registry_identity,
}
use lit_grove.Identity.Walk.{follow_self}
use lit_grove.Identity.Applied.{
  bind-returns, lookup-assign, lookup-assign_self, follow-one, project-append,
}

refused-returns :
    (ids : List String) (cs : List Correction) (report : List Diagnostic) (es : List PaperIdentity)
    → refuse_or_project ids cs report ≡ returns es
    → project ids cs ≡ returns es
refused-returns ids cs [] es h = h
refused-returns ids cs (d ∷ ds) es h = cc

project_registry_identity-project :
    (canonical_digest : Correction → String) (papers : List String) (cs : List Correction)
    (es : List PaperIdentity)
    → project_registry_identity canonical_digest papers cs ≡ returns es
    → project (paper_set papers) cs ≡ returns es
unfolding project_registry_identity
project_registry_identity-project canonical_digest papers cs es h =
    let (report, _, rest) =
      bind-returns (identity_correction_diagnostics canonical_digest cs papers) _ es h in
    refused-returns (paper_set papers) cs report es rest

lookup-merge_top :
    (ps : List String) (t : String) (d : List (String × String))
    → lookup t (insert t t (assign ps t d)) ≡ some t
lookup-merge_top ps t d = ground (arith, lookup-insert t t t (assign ps t d), string_eq.beq_iff t t)

lookup-merge :
    (ps : List String) (t p : String) (d : List (String × String))
    → contains ps p ≡ true
    → lookup p (insert t t (assign ps t d)) ≡ some t
lookup-merge ps t p d m =
    ground (arith, lookup-insert t p t (assign ps t d), lookup-assign ps t p d)

merged_canonical :
    (ps : List String) (r : Option String) (t : String) (before after : Maps)
    → r ≡ some t
    → merge ps r before ≡ returns after
    → insert t t (assign ps t before.canonical) ≡ after.canonical
merged_canonical ps none t before after e h = cc
merged_canonical ps (some s) t before after e h = cc

merged-lookups :
    (o : Operation) (c : Correction) (t : String) (before after : Maps)
    → o ≡ confirmed_duplicate_merge
    → c.retained_paper_id ≡ some t
    → change_by o c before ≡ returns after
    → (lookup t after.canonical ≡ some t)
      × ((p : String) → contains c.subject_paper_ids p ≡ true → lookup p after.canonical ≡ some t)
merged-lookups o c t before after e r h =
    let ps = c.subject_paper_ids in
    let same =
      merged_canonical ps c.retained_paper_id t before after r
        (subst (λ q. change_by q c before ≡ returns after) e h) in
    (
      subst (λ d. lookup t d ≡ some t) same (lookup-merge_top ps t before.canonical),
      λ p m. subst (λ d. lookup p d ≡ some t) same (lookup-merge ps t p before.canonical m),
    )

canonical_of : {a b : Maps} → returns a ≡ returns b → a.canonical ≡ b.canonical
canonical_of h = cc

split-lookup :
    (o : Operation) (c : Correction) (before after : Maps) (p : String)
    → o ≡ mistaken_merge_split
    → change_by o c before ≡ returns after
    → contains c.subject_paper_ids p ≡ true
    → lookup p after.canonical ≡ some p
split-lookup o c before after p e h m =
    subst (λ d. lookup p d ≡ some p)
      (canonical_of (subst (λ q. change_by q c before ≡ returns after) e h))
      (ground (arith, lookup-assign_self c.subject_paper_ids p before.canonical))

resolved_to :
    (canonical : List (String × String)) (p t s : String)
    → follow canonical p ≡ root t
    → resolve canonical p ≡ returns s
    → s ≡ t
unfolding resolve
resolved_to canonical p t s h k = cc (ap resolve_end h)

module _ (canonical_digest : Correction → String) (papers : List String) (cs : List Correction)
    (c : Correction) (es : List PaperIdentity)
    (runs : project_registry_identity canonical_digest papers (cs ++ c ∷ []) ≡ returns es) where
  -- Where `project_registry_identity` returns after a duplicate merge, each merged paper has the retained
  -- paper as its canonical one.
  pub project_registry_identity-merge :
      (t : String)
      → c.operation ≡ confirmed_duplicate_merge
      → c.retained_paper_id ≡ some t
      → All
          (λ (e : PaperIdentity).
            contains c.subject_paper_ids e.paper_id ≡ true → e.canonical_paper_id ≡ t)
          es
  project_registry_identity-merge t o r =
      let (before, after, changed, resolved) =
        project-append (paper_set papers) cs c es
          (project_registry_identity-project canonical_digest papers (cs ++ c ∷ []) es runs) in
      let (top, others) = merged-lookups c.operation c t before after o r changed in
      All-map es
        (λ e to named.
          resolved_to after.canonical e.paper_id t e.canonical_paper_id
            (follow-one after.canonical e.paper_id t (others e.paper_id named) top) to)
        resolved

  -- Where `project_registry_identity` returns after the split of a mistaken merge, each paper that was
  -- split off is its own canonical paper.
  pub project_registry_identity-split :
      c.operation ≡ mistaken_merge_split
      → All
          (λ (e : PaperIdentity).
            contains c.subject_paper_ids e.paper_id ≡ true → e.canonical_paper_id ≡ e.paper_id)
          es
  project_registry_identity-split o =
      let (before, after, changed, resolved) =
        project-append (paper_set papers) cs c es
          (project_registry_identity-project canonical_digest papers (cs ++ c ∷ []) es runs) in
      All-map es
        (λ e to named.
          resolved_to after.canonical e.paper_id e.paper_id e.canonical_paper_id
            (follow_self after.canonical e.paper_id
              (split-lookup c.operation c before after e.paper_id o changed named))
            to)
        resolved
