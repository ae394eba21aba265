-- ===== src/Identity/Mapped.antt =====
-- What the operations of `_project` keep of the maps, for corrections that name known papers.
use lit_grove.Prelude.{
  String, ◌≡◌, refl, sym, ap, ◌∙◌, subst, true, Bool-cases, inl, inr, Option, none, some, List, [],
  ◌∷◌, contains, lookup, insert, lookup-insert, All, ◌==◌, string_eq, arith,
}
use lit_grove.Identity.State.{
  Operation, confirmed_duplicate_merge, mistaken_merge_split, paper_alias, library_archive,
  library_tombstone, Correction, LibraryStatus, Run, returns, raises, crashes, exhausted, ◌>>=◌,
}
use lit_grove.Identity.Project.{
  root, follow, keys, Maps, assign, assign_self, merge, alias, put_status, change_by,
}

-- The run returns a value with the property, or raises `ResearchKBError`: nothing else.
abbrev pub Settles : {A : Type 0} → (A → Type 0) → Run A → Type 0
Settles P (returns a) = P a
Settles P (raises d) = Unit
Settles P crashes = ⊥
Settles P exhausted = ⊥

pub Settles-bind :
    {A B : Type 0} (P : A → Type 0) (Q : B → Type 0) (m : Run A) (f : A → Run B)
    → Settles P m
    → ((a : A) → P a → Settles Q (f a))
    → Settles Q (m >>= f)
Settles-bind P Q (returns a) f h next = next a h
Settles-bind P Q (raises d) f h next = tt
Settles-bind P Q crashes f h next = h
Settles-bind P Q exhausted f h next = h

keys-insert :
    {V : Type 0} (k : String) (v : V) (d : List (String × V))
    → contains (keys d) k ≡ true
    → keys (insert k v d) ≡ keys d
unfolding insert
keys-insert k v [] h = cc
keys-insert k v ((j, w) ∷ d) h = elim (Bool-cases (j == k)) [
  | inl same ↦ rw same refl
  | inr other ↦ rw other (ap (λ (r : List String). j ∷ r) (keys-insert k v d (ground arith)))
]

module _ (ids : List String) where
  -- The maps have the papers as their keys, and send papers to papers.
  pub record IsMapped (canonical : List (String × String)) : Type 0 where
    pub papers : keys canonical ≡ ids
    pub closed : (p t : String) → lookup p canonical ≡ some t → contains ids t ≡ true

  pub record AreMapped (m : Maps) : Type 0 where
    pub canonical : IsMapped m.canonical
    pub library : keys m.library ≡ ids

  -- Every paper leads to one that stands for itself.
  abbrev pub IsAcyclic : List (String × String) → Type 0
  IsAcyclic canonical = All (λ (p : String). (r : String) × (follow canonical p ≡ root r)) ids

  abbrev pub Known : List String → Type 0
  Known ps = All (λ (p : String). contains ids p ≡ true) ps

  insert-IsMapped :
      (p t : String) (canonical : List (String × String))
      → contains ids p ≡ true
      → contains ids t ≡ true
      → IsMapped canonical
      → IsMapped (insert p t canonical)
  insert-IsMapped p t canonical kp kt h = record {
    papers =
        keys-insert p t canonical (subst (λ ks. contains ks p ≡ true) (sym h.papers) kp) ∙ h.papers;
    closed = λ q s found. ground (arith, lookup-insert p q t canonical, h.closed q s);
  }

  assign-IsMapped :
      (ps : List String) (t : String) (canonical : List (String × String))
      → Known ps
      → contains ids t ≡ true
      → IsMapped canonical
      → IsMapped (assign ps t canonical)
  unfolding assign
  assign-IsMapped [] t canonical k kt h = h
  assign-IsMapped (p ∷ ps) t canonical k kt h =
      assign-IsMapped ps t (insert p t canonical) k.1 kt (insert-IsMapped p t canonical k.0 kt h)

  assign_self-IsMapped :
      (ps : List String) (canonical : List (String × String))
      → Known ps
      → IsMapped canonical
      → IsMapped (assign_self ps canonical)
  unfolding assign_self
  assign_self-IsMapped [] canonical k h = h
  assign_self-IsMapped (p ∷ ps) canonical k h =
      assign_self-IsMapped ps (insert p p canonical) k.1 (insert-IsMapped p p canonical k.0 k.0 h)

  abbrev pub RetainsKnown : Option String → Type 0
  RetainsKnown none = ⊥
  RetainsKnown (some p) = contains ids p ≡ true

  abbrev pub HasSubject : List String → Type 0
  HasSubject [] = ⊥
  HasSubject (p ∷ ps) = Unit

  -- What each operation needs of a correction.
  abbrev pub Fits : Operation → Correction → Type 0
  Fits confirmed_duplicate_merge c = RetainsKnown c.retained_paper_id
  Fits paper_alias c = RetainsKnown c.retained_paper_id
  Fits mistaken_merge_split c = Unit
  Fits library_archive c = HasSubject c.subject_paper_ids
  Fits library_tombstone c = HasSubject c.subject_paper_ids

  pub record IsAdmissible (c : Correction) : Type 0 where
    pub subjects : Known c.subject_paper_ids
    pub fits : Fits c.operation c

  Settles-merge :
      (ps : List String) (retained : Option String) (m : Maps)
      → Known ps
      → RetainsKnown retained
      → AreMapped m
      → Settles AreMapped (merge ps retained m)
  Settles-merge ps none m k r h = r
  Settles-merge ps (some t) m k r h = record {
    canonical =
        insert-IsMapped t t (assign ps t m.canonical) r r
          (assign-IsMapped ps t m.canonical k r h.canonical);
    library = h.library;
  }

  Settles-alias :
      (ps : List String) (retained : Option String) (m : Maps)
      → Known ps
      → RetainsKnown retained
      → AreMapped m
      → Settles AreMapped (alias ps retained m)
  Settles-alias ps none m k r h = r
  Settles-alias ps (some t) m k r h = record {
    canonical = assign-IsMapped ps t m.canonical k r h.canonical;
    library = h.library;
  }

  Settles-put_status :
      (ps : List String) (s : LibraryStatus) (m : Maps)
      → Known ps
      → HasSubject ps
      → AreMapped m
      → Settles AreMapped (put_status ps s m)
  Settles-put_status [] s m k n h = n
  Settles-put_status (p ∷ ps) s m k n h = record {
    canonical = h.canonical;
    library =
        keys-insert p s m.library (subst (λ ks. contains ks p ≡ true) (sym h.library) k.0)
        ∙ h.library;
  }

  pub Settles-change_by :
      (o : Operation) (c : Correction) (m : Maps)
      → Known c.subject_paper_ids
      → Fits o c
      → AreMapped m
      → Settles AreMapped (change_by o c m)
  Settles-change_by confirmed_duplicate_merge c m k f h =
      Settles-merge c.subject_paper_ids c.retained_paper_id m k f h
  Settles-change_by paper_alias c m k f h =
      Settles-alias c.subject_paper_ids c.retained_paper_id m k f h
  Settles-change_by mistaken_merge_split c m k f h = record {
    canonical = assign_self-IsMapped c.subject_paper_ids m.canonical k h.canonical;
    library = h.library;
  }
  Settles-change_by library_archive c m k f h = Settles-put_status c.subject_paper_ids _ m k f h
  Settles-change_by library_tombstone c m k f h = Settles-put_status c.subject_paper_ids _ m k f h
