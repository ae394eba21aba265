-- ===== src/Identity/Walk.antt =====
-- The `while` loop of `_require_acyclic` and `_resolve` ends, and where.
use lit_grove.Prelude.{
  ℕ, zero, suc, ◌+◌, ◌<◌, String, ◌≡◌, ◌≢◌, refl, inl, inr, true, Option-cases, some, List, [], ◌∷◌,
  length, contains, lookup, Distinct, is_subset, length-le-of_subset, string_eq, arith, is_some,
}
use lit_grove.Identity.Project.{root, unknown, unfinished, walk, follow, keys}

pub length-keys : {V : Type 0} (d : List (String × V)) → length (keys d) ≡ length d
length-keys [] = refl
length-keys (e ∷ es) = omega (arith, length-keys es)

pub contains-keys :
    {V : Type 0} (k : String) (d : List (String × V)) → contains (keys d) k ≡ is_some (lookup k d)
unfolding lookup
contains-keys k [] = refl
contains-keys k ((j, v) ∷ d) = ground (arith, contains-keys k d)

-- The papers that the loop has seen are keys, and no two are the same.
abbrev IsSeen : List (String × String) → List String → Type 0
IsSeen canonical seen = Distinct seen × (is_subset seen (keys canonical) ≡ true)

walk-ends :
    (fuel : ℕ) (canonical : List (String × String)) (seen : List String) (current : String)
    → IsSeen canonical seen
    → length canonical < fuel + length seen
    → walk fuel canonical seen current ≢ unfinished
unfolding walk
walk-ends zero canonical seen current h k e =
    absurd (omega (arith, length-le-of_subset seen (keys canonical) h.0 h.1, length-keys canonical))
walk-ends (suc fuel) canonical seen current h k e = elim (Option-cases (lookup current canonical)) [
  | inl missing ↦ ground arith
  | inr (target, found) ↦
      ground
        (arith, contains-keys current canonical, walk-ends fuel canonical (current ∷ seen) target)
]

-- Whatever the map, and from every paper, one round more than the map has keys is enough for the loop of
-- `_require_acyclic` and of `_resolve` to end.
pub follow-ends :
    (canonical : List (String × String)) (paper_id : String)
    → follow canonical paper_id ≢ unfinished
unfolding follow
follow-ends canonical paper_id =
    walk-ends (suc (length canonical)) canonical [] paper_id (tt, refl) (omega arith)

-- Each paper of the map is sent to one of its papers.
abbrev pub IsClosed : List (String × String) → Type 0
IsClosed canonical =
    (p t : String) → lookup p canonical ≡ some t → contains (keys canonical) t ≡ true

walk-known :
    (fuel : ℕ) (canonical : List (String × String)) (seen : List String) (current : String)
    → IsClosed canonical
    → contains (keys canonical) current ≡ true
    → walk fuel canonical seen current ≢ unknown
unfolding walk
walk-known zero canonical seen current closed k = ground arith
walk-known (suc fuel) canonical seen current closed k =
    elim (Option-cases (lookup current canonical)) [
      | inl missing ↦ ground (arith, contains-keys current canonical)
      | inr (target, found) ↦ ground (
        arith,
        closed current target found,
        walk-known fuel canonical (current ∷ seen) target closed,
      )
    ]

pub follow-known :
    (canonical : List (String × String)) (paper_id : String)
    → IsClosed canonical
    → contains (keys canonical) paper_id ≡ true
    → follow canonical paper_id ≢ unknown
unfolding follow
follow-known canonical paper_id closed k =
    walk-known (suc (length canonical)) canonical [] paper_id closed k

walk-root :
    (fuel : ℕ) (canonical : List (String × String)) (seen : List String) (current r : String)
    → walk fuel canonical seen current ≡ root r
    → lookup r canonical ≡ some r
unfolding walk
walk-root zero canonical seen current r h = cc
walk-root (suc fuel) canonical seen current r h = elim (Option-cases (lookup current canonical)) [
  | inl missing ↦ ground arith
  | inr (target, found) ↦
      ground (
        arith,
        string_eq.beq_iff target current,
        walk-root fuel canonical (current ∷ seen) target r,
      )
]

pub follow-root :
    (canonical : List (String × String)) (paper_id r : String)
    → follow canonical paper_id ≡ root r
    → lookup r canonical ≡ some r
unfolding follow
follow-root canonical paper_id r = walk-root (suc (length canonical)) canonical [] paper_id r

pub follow_self :
    (canonical : List (String × String)) (r : String)
    → lookup r canonical ≡ some r
    → follow canonical r ≡ root r
unfolding follow walk
follow_self canonical r h = ground (arith, string_eq.beq_iff r r)
