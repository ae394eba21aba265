-- ===== src/Identity/Settled.antt =====
-- `_project` of corrections that name known papers: it returns or raises, and what it returns.
use lit_grove.Prelude.{
  String, ◌≡◌, ◌≢◌, refl, sym, ap, subst, true, some, List, [], ◌∷◌, map, contains, lookup, All,
  All-map, All-contains, string_eq, arith,
}
use lit_grove.Identity.State.{Correction, Run, returns, raises, crashes, exhausted}
use lit_grove.Identity.Project.{
  Walk, root, repeated, unknown, unfinished, follow, keys, acyclic_end, require_acyclic_from,
  require_acyclic, Maps, change_by, apply_correction, apply_all, fresh,
}
use lit_grove.Identity.Walk.{IsClosed, follow-ends, follow-known, follow_self}
use lit_grove.Identity.Mapped.{
  Settles, Settles-bind, IsMapped, AreMapped, IsAcyclic, IsAdmissible, Settles-change_by,
}

module _ (ids : List String) where
  abbrev Leads : List (String × String) → String → Type 0
  Leads canonical p = (r : String) × (follow canonical p ≡ root r)

  Settles-acyclic_end :
      (c : Correction) (canonical : List (String × String)) (p : String) (w : Walk)
      → follow canonical p ≡ w
      → w ≢ unfinished
      → w ≢ unknown
      → Settles (λ _. Leads canonical p) (acyclic_end c w)
  Settles-acyclic_end c canonical p (root r) e a b = (r, e)
  Settles-acyclic_end c canonical p (repeated r) e a b = tt
  Settles-acyclic_end c canonical p unknown e a b = b refl
  Settles-acyclic_end c canonical p unfinished e a b = a refl

  IsClosed-IsMapped :
      {canonical : List (String × String)} → IsMapped ids canonical → IsClosed canonical
  IsClosed-IsMapped h p t found =
      subst (λ ks. contains ks t ≡ true) (sym h.papers) (h.closed p t found)

  Settles-require_acyclic_from :
      (c : Correction) (canonical : List (String × String)) (ps : List String)
      → IsMapped ids canonical
      → All (λ (p : String). contains ids p ≡ true) ps
      → Settles (λ _. All (Leads canonical) ps) (require_acyclic_from ps canonical c)
  unfolding require_acyclic_from
  Settles-require_acyclic_from c canonical [] h k = tt
  Settles-require_acyclic_from c canonical (p ∷ ps) h k =
      Settles-bind (λ _. Leads canonical p) (λ _. All (Leads canonical) (p ∷ ps))
        (acyclic_end c (follow canonical p)) _
        (Settles-acyclic_end c canonical p (follow canonical p) refl (follow-ends canonical p) (
          follow-known canonical p (IsClosed-IsMapped h)
            (subst (λ ks. contains ks p ≡ true) (sym h.papers) k.0)))
        (λ _ leads.
          Settles-weaken (λ _ rest. (leads, rest)) (require_acyclic_from ps canonical c)
            (Settles-require_acyclic_from c canonical ps h k.1))
    where
      Settles-weaken :
          {P Q : Unit {0} → Type 0}
          → ((u : Unit {0}) → P u → Q u)
          → (m : Run (Unit {0})) → Settles P m
          → Settles Q m
      Settles-weaken f (returns u) x = f u x
      Settles-weaken f (raises d) x = tt
      Settles-weaken f crashes x = x
      Settles-weaken f exhausted x = x

  -- The maps between two rounds of the loop of `_project`.
  abbrev pub AreSettled : Maps → Type 0
  AreSettled m = AreMapped ids m × IsAcyclic ids m.canonical

  Settles-apply_correction :
      (c : Correction) (m : Maps)
      → IsAdmissible ids c
      → AreMapped ids m
      → Settles AreSettled (apply_correction c m)
  unfolding apply_correction require_acyclic
  Settles-apply_correction c m a h =
      Settles-bind (AreMapped ids) AreSettled (change_by c.operation c m) _
        (Settles-change_by ids c.operation c m a.subjects a.fits h)
        (λ m' h'.
          Settles-bind (λ _. All (Leads m'.canonical) (keys m'.canonical)) AreSettled
            (require_acyclic_from (keys m'.canonical) m'.canonical c) _
            (Settles-require_acyclic_from c m'.canonical (keys m'.canonical) h'.canonical (
              subst (λ ks. All (λ (p : String). contains ids p ≡ true) ks) (sym h'.canonical.papers)
                (All-contains ids)))
            (λ _ leads. (h', subst (All (Leads m'.canonical)) h'.canonical.papers leads)))

  pub Settles-apply_all :
      (cs : List Correction) (m : Maps)
      → All (IsAdmissible ids) cs
      → AreSettled m
      → Settles AreSettled (apply_all cs m)
  unfolding apply_all
  Settles-apply_all [] m a h = h
  Settles-apply_all (c ∷ cs) m a h =
      Settles-bind AreSettled AreSettled (apply_correction c m) (apply_all cs)
        (Settles-apply_correction c m a.0 h.0) (λ m' h'. Settles-apply_all cs m' a.1 h')

  lookup-pairs :
      (ps : List String) (p t : String)
      → lookup p (map (λ (q : String). (q, q)) ps) ≡ some t
      → (t ≡ p) × (contains ps t ≡ true)
  unfolding lookup
  lookup-pairs [] p t h = cc
  lookup-pairs (q ∷ qs) p t h =
      ground (arith, lookup-pairs qs p t, string_eq.beq_iff q p, string_eq.beq_iff q t)

  pairs-lookup :
      (ps : List String) (p : String)
      → contains ps p ≡ true
      → lookup p (map (λ (q : String). (q, q)) ps) ≡ some p
  unfolding lookup
  pairs-lookup [] p h = cc
  pairs-lookup (q ∷ qs) p h = ground (arith, pairs-lookup qs p, string_eq.beq_iff q p)

  keys-map :
      {V : Type 0} (f : String → V) (ps : List String)
      → keys (map (λ (q : String). (q, f q)) ps) ≡ ps
  keys-map f [] = refl
  keys-map f (p ∷ ps) = ap (λ (r : List String). p ∷ r) (keys-map f ps)

  pub AreSettled-fresh : AreSettled (fresh ids)
  AreSettled-fresh = (
    record {
      canonical = record {
        papers = keys-map (λ q. q) ids;
        closed = λ p t found. (lookup-pairs ids p t found).1;
      };
      library = keys-map _ ids;
    },
    All-map ids
        (λ p h. (p, follow_self (map (λ (q : String). (q, q)) ids) p (pairs-lookup ids p h)))
        (All-contains ids),
  )
