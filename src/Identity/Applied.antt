-- ===== src/Identity/Applied.antt =====
-- What a correction that is applied leaves in the maps (identity_corrections.py).
use lit_grove.Prelude.{
  ℕ, suc, String, ◌≡◌, refl, ap, subst, is_some, ◌∙◌, some, List, [], ◌∷◌, ◌++◌, length, contains,
  lookup, insert, lookup-insert, All, sort_by, string_eq, arith, if◌then◌else◌,
}
use lit_grove.Identity.State.{
  Correction, LibraryStatus, PaperIdentity, Run, returns, raises, crashes, exhausted, ◌>>=◌,
}
use lit_grove.Identity.Project.{
  root, follow, walk, resolve, Maps, assign, assign_self, change_by, apply_correction, apply_all,
  fresh, status_end, identity_of, identities, project, text_le, require_acyclic,
}
use lit_grove.Identity.Walk.{contains-keys}

pub bind-returns :
    {A B : Type 0} (m : Run A) (f : A → Run B) (b : B)
    → (m >>= f) ≡ returns b
    → (a : A) × (m ≡ returns a) × (f a ≡ returns b)
bind-returns (returns a) f b h = (a, refl, h)
bind-returns (raises d) f b h = cc
bind-returns crashes f b h = cc
bind-returns exhausted f b h = cc

pub lookup-assign :
    (ps : List String) (t q : String) (d : List (String × String))
    → lookup q (assign ps t d) ≡ (if contains ps q then some t else lookup q d)
unfolding assign
lookup-assign [] t q d = refl
lookup-assign (p ∷ ps) t q d =
    ground (arith, lookup-assign ps t q (insert p t d), lookup-insert p q t d)

pub lookup-assign_self :
    (ps : List String) (q : String) (d : List (String × String))
    → lookup q (assign_self ps d) ≡ (if contains ps q then some q else lookup q d)
unfolding assign_self
lookup-assign_self [] q d = refl
lookup-assign_self (p ∷ ps) q d =
    ground
      (arith, lookup-assign_self ps q (insert p p d), lookup-insert p q p d, string_eq.beq_iff p q)

walk-one :
    (n : ℕ) (canonical : List (String × String)) (p t : String)
    → lookup p canonical ≡ some t
    → lookup t canonical ≡ some t
    → walk (suc (suc n)) canonical [] p ≡ root t
unfolding walk
walk-one n canonical p t h k = ground (arith, string_eq.beq_iff t p, string_eq.beq_iff t t)

pub follow-one :
    (canonical : List (String × String)) (p t : String)
    → lookup p canonical ≡ some t
    → lookup t canonical ≡ some t
    → follow canonical p ≡ root t
unfolding follow
follow-one [] p t h k = cc (contains-keys p [], ap is_some h)
follow-one (e ∷ es) p t h k = walk-one (length es) (e ∷ es) p t h k

-- Each item says where its paper resolves to.
abbrev AreResolved : Maps → List PaperIdentity → Type 0
AreResolved m =
    All (λ (e : PaperIdentity). resolve m.canonical e.paper_id ≡ returns e.canonical_paper_id)

identity_of-resolve :
    (m : Maps) (p : String) (e : PaperIdentity)
    → identity_of m p ≡ returns e
    → resolve m.canonical e.paper_id ≡ returns e.canonical_paper_id
unfolding identity_of
identity_of-resolve m p e h =
    let (t, to, rest) = bind-returns (resolve m.canonical p) _ e h in
    let (s, _, made) = bind-returns (status_end (lookup p m.library)) _ e rest in
    made_of p t s e to made
  where
    made_of :
        (p t : String) (s : LibraryStatus) (e : PaperIdentity)
        → resolve m.canonical p ≡ returns t
        → returns (record { paper_id = p; canonical_paper_id = t; library_status = s }) ≡ returns e
        → resolve m.canonical e.paper_id ≡ returns e.canonical_paper_id
    made_of p t s e to made = cc

identities-AreResolved :
    (m : Maps) (ps : List String) (es : List PaperIdentity)
    → identities m ps ≡ returns es
    → AreResolved m es
unfolding identities
identities-AreResolved m [] es h = subst (AreResolved m) (nil_of es h) tt
  where
    nil_of : (es : List PaperIdentity) → returns [] ≡ returns es → [] ≡ es
    nil_of es h = cc
identities-AreResolved m (p ∷ ps) es h =
    let (e, first, rest) = bind-returns (identity_of m p) _ es h in
    let (others, later, made) = bind-returns (identities m ps) _ es rest in
    subst (AreResolved m) (cons_of e others es made)
      (identity_of-resolve m p e first, identities-AreResolved m ps others later)
  where
    cons_of :
        (e : PaperIdentity) (others es : List PaperIdentity)
        → returns (e ∷ others) ≡ returns es
        → e ∷ others ≡ es
    cons_of e others es h = cc

apply_correction-change_by :
    (c : Correction) (m a : Maps)
    → apply_correction c m ≡ returns a
    → change_by c.operation c m ≡ returns a
unfolding apply_correction
apply_correction-change_by c m a h =
    let (b, changed, rest) = bind-returns (change_by c.operation c m) _ a h in
    let (_, acyclic, same) = bind-returns (require_acyclic b.canonical c) _ a rest in changed ∙ same

apply_all-append :
    (cs : List Correction) (c : Correction) (m after : Maps)
    → apply_all (cs ++ c ∷ []) m ≡ returns after
    → (before : Maps) × (change_by c.operation c before ≡ returns after)
unfolding apply_all
apply_all-append [] c m after h =
    let (a, applied, same) = bind-returns (apply_correction c m) _ after h in
    (m, apply_correction-change_by c m a applied ∙ same)
apply_all-append (d ∷ cs) c m after h =
    let (a, applied, rest) = bind-returns (apply_correction d m) _ after h in
    apply_all-append cs c a after rest

-- The maps behind the items that a projection returns.
pub project-append :
    (ids : List String) (cs : List Correction) (c : Correction) (es : List PaperIdentity)
    → project ids (cs ++ c ∷ []) ≡ returns es
    → (before after : Maps) × (change_by c.operation c before ≡ returns after)
      × AreResolved after es
unfolding project
project-append ids cs c es h =
    let (after, applied, made) = bind-returns (apply_all (cs ++ c ∷ []) (fresh ids)) _ es h in
    let (before, changed) = apply_all-append cs c (fresh ids) after applied in
    (before, after, changed, identities-AreResolved after (sort_by text_le ids) es made)
