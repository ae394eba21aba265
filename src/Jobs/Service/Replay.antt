-- ===== src/Jobs/Service/Replay.antt =====
-- A `transition` that is sent again after it has been carried out.
use lit_grove.Prelude.{
  ◌⊎◌, inl, inr, or_false, ℕ, ◌+◌, String, ◌≡◌, refl, sym, ap, ◌∙◌, subst, Bool, true, false,
  Option, none, some, List, [], ◌∷◌, ◌++◌, map, contains, select, find, get_last?, sort_by, leb,
  ◌==◌, string_eq, option_eq, if◌then◌else◌, arith, All, All-map, Pairwise, All-select, All-sort_by,
  All-sorted_by, Pairwise-select, Pairwise-sort_by, select-append, get_last-append, find-append,
  All-get_last, All-below_last, sort_by-append, sort_by-IsSorted, eq_of_beq, beq-false, ne_of_beq,
}
use lit_grove.Diagnostics.{ok}
use lit_grove.Jobs.State.{JobState, predecessor_eq}
use lit_grove.Jobs.Rules.{progress, progress_eq}
use lit_grove.Jobs.Chain.{Env}
use lit_grove.Jobs.Chain.Ids.{DifferentIds, pipeline_job_chain_diagnostics-DifferentIds}
use lit_grove.Jobs.Service.{
  unchanged, appended, Fresh, Ids, Transition, transition_intent, history_of, by_revision,
  next_state, replay, swap, swap_in, transition,
}
use lit_grove.Jobs.Service.Accepted.{Accepted, transition-ok}

revision_total : (a b : JobState) → by_revision a b ≡ false → by_revision b a ≡ true
revision_total a b h = ground arith

revision_trans :
    (a b c : JobState) → by_revision a b ≡ true → by_revision b c ≡ true → by_revision a c ≡ true
revision_trans a b c h k = ground arith

revision_next :
    (a b : JobState) (n : ℕ) → by_revision a b ≡ true → n ≡ b.revision + 1 → leb a.revision n ≡ true
revision_next a b n h e = ground arith

-- A state of the highest revision comes last in its job's history.
pub history_of-append :
    (job_id : String) (file : List JobState) (s head : JobState)
    → (s.job_id == job_id) ≡ true
    → get_last? (history_of job_id file) ≡ some head
    → s.revision ≡ head.revision + 1
    → history_of job_id (file ++ s ∷ []) ≡ history_of job_id file ++ s ∷ []
history_of-append job_id file s head same last above =
    ap (sort_by by_revision) (select-append (λ (x : JobState). x.job_id == job_id) file s same)
    ∙ sort_by-append by_revision (select (λ (x : JobState). x.job_id == job_id) file) s (
        All-sorted_by by_revision (λ x. by_revision x s ≡ true) _
          (All-map (history_of job_id file) (λ x k. revision_next x head s.revision k above)
            (All-below_last (λ x y. by_revision x y ≡ true) (history_of job_id file) head
              (λ x. revision_refl x) last
              (sort_by-IsSorted by_revision revision_total revision_trans
                (select (λ (x : JobState). x.job_id == job_id) file)))))
  where
    revision_refl : (x : JobState) → by_revision x x ≡ true
    revision_refl x = ground arith

some_is : (a b : JobState) → some a ≡ some b → a ≡ b
some_is a b h = ap (λ o. elim o [ none ↦ a | some x ↦ x ]) h

found_first :
    (b : Bool) (x found : JobState) (rest : Option JobState)
    → (if b then some x else rest) ≡ some found
    → ((b ≡ true) × (x ≡ found)) ⊎ (rest ≡ some found)
found_first true x found rest h = inl (refl, some_is x found h)
found_first false x found rest h = inr h

-- Of states with different IDs, the first with an ID is the last with it.
find-last :
    (id : String) (xs : List JobState) (found l : JobState)
    → Pairwise DifferentIds xs
    → find (λ (x : JobState). x.state_id == id) xs ≡ some found
    → get_last? xs ≡ some l
    → (l.state_id == id) ≡ true
    → found ≡ l
find-last id [] found l d f e h = cc
find-last id (x ∷ []) found l d f e h = elim (found_first (x.state_id == id) x found none f) [
  | inl (t, same) ↦ sym same ∙ some_is x l e
  | inr none_left ↦ cc
]
find-last id (x ∷ y ∷ ys) found l d f e h =
    elim (found_first (x.state_id == id) x found
      (find (λ (z : JobState). z.state_id == id) (y ∷ ys)) f) [
        | inl (t, same) ↦ absurd_first t
        | inr later ↦ find-last id (y ∷ ys) found l d.1 later e h
      ]
  where
    absurd_first : (x.state_id == id) ≡ true → found ≡ l
    absurd_first t =
        let apart = All-get_last (DifferentIds x) (y ∷ ys) l e d.0 in
        let equal = subst (λ i. (x.state_id == i) ≡ true) (sym (eq_of_beq l.state_id id h)) t in cc

differ_from_new :
    (id : String) (xs : List JobState)
    → contains (map (λ (x : JobState). x.state_id) xs) id ≡ false
    → All (λ x. (x.state_id == id) ≡ false) xs
differ_from_new id [] h = tt
differ_from_new id (x ∷ xs) h = let (a, b) = or_false _ _ h in (a, differ_from_new id xs b)

select-same :
    (job_id : String) (file : List JobState)
    → All (λ x. (x.job_id == job_id) ≡ true) (select (λ (x : JobState). x.job_id == job_id) file)
select-same job_id [] = tt
select-same job_id (x ∷ xs) = go (x.job_id == job_id) refl (select-same job_id xs)
  where
    go :
        (b : Bool)
        → (x.job_id == job_id) ≡ b
        → All (λ y. (y.job_id == job_id) ≡ true) (select (λ (y : JobState). y.job_id == job_id) xs)
        → All
            (λ y. (y.job_id == job_id) ≡ true)
            (if b
              then x ∷ select (λ (y : JobState). y.job_id == job_id) xs
              else select (λ (y : JobState). y.job_id == job_id) xs)
    go true e rest = (e, rest)
    go false e rest = rest

module _ (env : Env) (ids : Ids) (fresh : Fresh) (t : Transition) (file : List JobState) where
  pub head_is_expected :
      (s head expected : JobState) → Accepted env ids fresh t file s head expected → expected ≡ head
  head_is_expected s head expected a =
      find-last t.expected_state_id (history_of t.job_id file) expected head
        (Pairwise-sort_by by_revision
          (λ x y d.
            beq-false y.state_id x.state_id (λ e. ne_of_beq x.state_id y.state_id d (sym e)))
          _
          (Pairwise-select DifferentIds (λ (x : JobState). x.job_id == t.job_id) file
            (pipeline_job_chain_diagnostics-DifferentIds env file a.report)))
        a.expected_at a.head_at a.is_head

  pub head_job :
      (head : JobState)
      → get_last? (history_of t.job_id file) ≡ some head
      → (head.job_id == t.job_id) ≡ true
  head_job head last =
      All-get_last (λ x. (x.job_id == t.job_id) ≡ true) (history_of t.job_id file) head last
        (All-sort_by by_revision (λ x. (x.job_id == t.job_id) ≡ true) _ (select-same t.job_id file))

  -- The ID of the appended state is not the one that the call expects.
  pub new_is_not_expected :
      (s head expected : JobState)
      → Accepted env ids fresh t file s head expected
      → (fresh.state_id == t.expected_state_id) ≡ false
  new_is_not_expected s head expected a = beq-false fresh.state_id t.expected_state_id (λ e.
      ne_of_beq head.state_id fresh.state_id
        (All-get_last (λ x. (x.state_id == fresh.state_id) ≡ false) (history_of t.job_id file) head
          a.head_at
          (All-sort_by by_revision (λ x. (x.state_id == fresh.state_id) ≡ false) _
            (All-select (λ x. (x.state_id == fresh.state_id) ≡ false) _ file
              (differ_from_new fresh.state_id file a.new_id))))
        (eq_of_beq head.state_id t.expected_state_id a.is_head ∙ sym e))

  replay_accepts :
      (s head expected : JobState)
      → Accepted env ids fresh t file s head expected
      → replay env ids t expected s ≡ ok (unchanged s)
  unfolding replay next_state
  replay_accepts s head expected a =
      let same = head_is_expected s head expected a in
      let digest =
        eq_of_beq (env.canonical_digest head) t.expected_state_digest
          (subst (λ x. (env.canonical_digest x == t.expected_state_digest) ≡ true) same a.digest) in
      let id = eq_of_beq head.state_id t.expected_state_id a.is_head in
      let predecessor =
        ap (λ (x : JobState). x.predecessor) a.state
        ∙ (λ i. some (record { state_id = id i; state_digest = digest i })) in
      rw (
        (option_eq.beq_iff s.predecessor _).1 predecessor,
        (progress_eq.beq_iff (progress s) (transition_intent expected t)).1
            (ap progress a.state ∙ ap (λ x. transition_intent x t) (sym same)),
      )

  swap_in_replays :
      (s head expected : JobState) (again : Fresh)
      → Accepted env ids fresh t file s head expected
      → swap_in env ids again t (file ++ s ∷ []) ≡ ok (unchanged s)
  unfolding swap_in swap next_state
  swap_in_replays s head expected again a =
      rw
        (
          history_of-append t.job_id file s head
              (subst (λ x. (x.job_id == t.job_id) ≡ true) (sym a.state) (head_job head a.head_at))
              a.head_at (ap (λ (x : JobState). x.revision) a.state),
          get_last-append (history_of t.job_id file) s,
          find-append (λ (x : JobState). x.state_id == t.expected_state_id)
              (history_of t.job_id file) s expected a.expected_at,
          a.digest,
          subst (λ (x : JobState). (x.state_id == t.expected_state_id) ≡ false) (sym a.state)
              (new_is_not_expected s head expected a),
        )
        (replay_accepts s head expected a)

  -- A `transition` that has appended a state answers the same call, sent again to the store with that
  -- state, with that state, and appends nothing.
  pub transition-replay :
      (s : JobState) (again : Fresh)
      → transition env ids fresh t file ≡ ok (appended s)
      → transition env ids again t (file ++ s ∷ []) ≡ ok (unchanged s)
  unfolding transition
  transition-replay s again h =
      let (head, expected, a) = transition-ok env ids fresh t file s h in
      rw (a.request, a.after) (swap_in_replays s head expected again a)
