-- ===== src/Identity/Entries.antt =====
-- The items that `_project` makes of the maps: one for each paper, and each names a paper that stands
-- for itself.
use lit_grove.Prelude.{
  String, ◌≡◌, refl, sym, ap, ◌∙◌, subst, true, none, some, List, [], ◌∷◌, map, contains, lookup,
  Option, All, All-contains, All-map, All-sort_by, All-Memᴰ, All-at, contains-sort_by, contains-map,
  sort_by, is_some, string_eq, Memᴰ,
}
use lit_grove.Identity.State.{
  Correction, LibraryStatus, PaperIdentity, Run, returns, raises, crashes, exhausted,
}
use lit_grove.Identity.Project.{
  Walk, root, repeated, unknown, unfinished, follow, resolve, resolve_end, Maps, apply_all, fresh,
  status_end, identity_of, identities, project, text_le,
}
use lit_grove.Identity.Walk.{contains-keys, follow-root, follow_self}
use lit_grove.Identity.Mapped.{Settles, Settles-bind, IsAdmissible}
use lit_grove.Identity.Settled.{AreSettled, Settles-apply_all, AreSettled-fresh}

-- The item is the paper's, and its canonical paper is where the map leads.
abbrev IsOf : Maps → String → PaperIdentity → Type 0
IsOf m p e = (e.paper_id ≡ p) × (follow m.canonical p ≡ root e.canonical_paper_id)

-- One item for each paper in turn.
abbrev AreOf : Maps → List String → List PaperIdentity → Type 0
AreOf m ps es =
    (map (λ (e : PaperIdentity). e.paper_id) es ≡ ps)
    × All (λ (e : PaperIdentity). follow m.canonical e.paper_id ≡ root e.canonical_paper_id) es

-- The canonical paper of the item has an item of its own, which names itself.
abbrev pub IsRooted : List PaperIdentity → PaperIdentity → Type 0
IsRooted es e =
    (top : PaperIdentity) × Memᴰ top es
    × (top.paper_id ≡ e.canonical_paper_id)
    × (top.canonical_paper_id ≡ top.paper_id)

-- One item for each paper, in the order of the IDs, and each canonical paper stands for itself.
abbrev pub IsRegistry : List String → List PaperIdentity → Type 0
IsRegistry ids es =
    (map (λ (e : PaperIdentity). e.paper_id) es ≡ sort_by text_le ids) × All (IsRooted es) es

module _ (ids : List String) (m : Maps) (settled : AreSettled ids m) where
  Settles-resolve_end :
      (w : Walk) (p r : String)
      → follow m.canonical p ≡ w
      → w ≡ root r
      → Settles (λ t. follow m.canonical p ≡ root t) (resolve_end w)
  Settles-resolve_end (root t) p r e h = e
  Settles-resolve_end (repeated t) p r e h = cc
  Settles-resolve_end unknown p r e h = cc
  Settles-resolve_end unfinished p r e h = cc

  Settles-status_end :
      (o : Option LibraryStatus) → is_some o ≡ true → Settles (λ _. Unit {0}) (status_end o)
  Settles-status_end none h = cc
  Settles-status_end (some s) h = tt

  Settles-identity_of : (p : String) → contains ids p ≡ true → Settles (IsOf m p) (identity_of m p)
  unfolding identity_of resolve
  Settles-identity_of p k =
      let (r, leads) =
        All-at (λ q. (s : String) × (follow m.canonical q ≡ root s)) ids p settled.1 k in
      Settles-bind (λ t. follow m.canonical p ≡ root t) (IsOf m p)
        (resolve_end (follow m.canonical p)) _
        (Settles-resolve_end (follow m.canonical p) p r refl leads)
        (λ t to.
          Settles-bind (λ _. Unit {0}) (IsOf m p) (status_end (lookup p m.library)) _
            (Settles-status_end (lookup p m.library) (
              sym (contains-keys p m.library)
              ∙ subst (λ ks. contains ks p ≡ true) (sym settled.0.library) k))
            (λ _ _. (refl, to)))

  Settles-identities :
      (ps : List String)
      → All (λ (p : String). contains ids p ≡ true) ps
      → Settles (AreOf m ps) (identities m ps)
  unfolding identities
  Settles-identities [] k = (refl, tt)
  Settles-identities (p ∷ ps) k =
      Settles-bind (IsOf m p) (AreOf m (p ∷ ps)) (identity_of m p) _ (Settles-identity_of p k.0)
        (λ e h.
          Settles-bind (AreOf m ps) (AreOf m (p ∷ ps)) (identities m ps) _
            (Settles-identities ps k.1)
            (λ es hs. (
              ap (λ (q : String). q ∷ map (λ (x : PaperIdentity). x.paper_id) es) h.0
                  ∙ ap (λ (qs : List String). p ∷ qs) hs.0,
              (ap (follow m.canonical) h.0 ∙ h.1, hs.1),
            )))

  IsRooted-AreOf :
      (es : List PaperIdentity) (e : PaperIdentity)
      → AreOf m (sort_by text_le ids) es
      → follow m.canonical e.paper_id ≡ root e.canonical_paper_id
      → IsRooted es e
  IsRooted-AreOf es e h leads =
      let r = e.canonical_paper_id in
      let fixed = follow-root m.canonical e.paper_id r leads in
      let known =
        subst (λ ks. contains ks r ≡ true) settled.0.canonical.papers
          (contains-keys r m.canonical ∙ ap is_some fixed) in
      let (top, member, same) =
        contains-map (λ (x : PaperIdentity). x.paper_id) es r
          (subst (λ qs. contains qs r ≡ true) (sym h.0) (contains-sort_by text_le ids r known)) in
      (
        top,
        member,
        same,
        same_root top r (All-Memᴰ _ es top h.1 member) same (follow_self m.canonical r fixed),
      )
    where
      same_root :
          (top : PaperIdentity) (r : String)
          → follow m.canonical top.paper_id ≡ root top.canonical_paper_id
          → top.paper_id ≡ r
          → follow m.canonical r ≡ root r
          → top.canonical_paper_id ≡ top.paper_id
      same_root top r a b c = cc

  pub Settles-IsRegistry : Settles (IsRegistry ids) (identities m (sort_by text_le ids))
  Settles-IsRegistry = Settles-weaken (identities m (sort_by text_le ids)) (
      Settles-identities (sort_by text_le ids)
        (All-sort_by text_le (λ (p : String). contains ids p ≡ true) ids (All-contains ids)))
    where
      Settles-weaken :
          (x : Run (List PaperIdentity))
          → Settles (AreOf m (sort_by text_le ids)) x
          → Settles (IsRegistry ids) x
      Settles-weaken (returns es) h = (h.0, All-map es (λ e leads. IsRooted-AreOf es e h leads) h.1)
      Settles-weaken (raises d) h = tt
      Settles-weaken crashes h = h
      Settles-weaken exhausted h = h

pub Settles-project :
    (ids : List String) (cs : List Correction)
    → All (IsAdmissible ids) cs
    → Settles (IsRegistry ids) (project ids cs)
unfolding project
Settles-project ids cs h =
    Settles-bind (AreSettled ids) (IsRegistry ids) (apply_all cs (fresh ids)) _
      (Settles-apply_all ids cs (fresh ids) h (AreSettled-fresh ids))
      (λ m settled. Settles-IsRegistry ids m settled)
