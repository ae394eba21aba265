-- ===== src/Identity/Project.antt =====
-- `_project`, `_require_acyclic` and `_resolve`: the maps from a paper to the paper that stands for it
-- and to its library status.
use text.Mathlib.Text.{is_le}
use Prim.Native.String.{compare}
use lit_grove.Prelude.{
  ℕ, zero, suc, String, Bool, true, false, Option, none, some, List, [], ◌∷◌, map, length, contains,
  lookup, insert, sort_by, ◌==◌, string_eq,
}
use lit_grove.Diagnostics.{Diagnostic, diagnostic, grounding_mismatch}
use lit_grove.Identity.State.{
  Operation, confirmed_duplicate_merge, mistaken_merge_split, paper_alias, library_archive,
  library_tombstone, Correction, LibraryStatus, active, archived, tombstoned, PaperIdentity, Run,
  returns, raises, crashes, exhausted, ◌>>=◌, ◌>>◌,
}

-- How the loop `while canonical[current] != current` ends: at a paper that stands for itself, at one
-- that it has seen, or at one that is no key.
pub data Walk : Type 0 where
  root : String → Walk
  repeated : String → Walk
  unknown : Walk
  unfinished : Walk

unfoldable pub walk : ℕ → List (String × String) → List String → String → Walk
walk zero canonical seen current = unfinished
walk (suc fuel) canonical seen current = elim (lookup current canonical) [
  | none ↦ unknown
  | some target ↦ elim (target == current) [
    | true ↦ root current
    | false ↦ elim (contains seen current) [
      | true ↦ repeated current
      | false ↦ walk fuel canonical (current ∷ seen) target
    ]
  ]
]

-- The loop of both functions. One round more than there are keys is enough: no paper is passed twice.
unfoldable pub follow : List (String × String) → String → Walk
follow canonical paper_id = walk (suc (length canonical)) canonical [] paper_id

abbrev pub cycle_diagnostic : Correction → Diagnostic
cycle_diagnostic c =
    diagnostic grounding_mismatch "registry-identity-correction" (some c.correction_id)
      "/retained_paper_id" "Registry identity correction creates an alias cycle"

abbrev pub acyclic_end : Correction → Walk → Run (Unit {0})
acyclic_end c (root p) = returns tt
acyclic_end c (repeated p) = raises (cycle_diagnostic c)
acyclic_end c unknown = crashes
acyclic_end c unfinished = exhausted

unfoldable pub require_acyclic_from :
    List String → List (String × String) → Correction → Run (Unit {0})
require_acyclic_from [] canonical c = returns tt
require_acyclic_from (p ∷ ps) canonical c =
    acyclic_end c (follow canonical p) >> require_acyclic_from ps canonical c

abbrev pub keys : {V : Type 0} → List (String × V) → List String
keys [] = []
keys (e ∷ es) = e.0 ∷ keys es

-- `_require_acyclic`
unfoldable pub require_acyclic : List (String × String) → Correction → Run (Unit {0})
require_acyclic canonical c = require_acyclic_from (keys canonical) canonical c

abbrev pub resolve_end : Walk → Run String
resolve_end (root p) = returns p
resolve_end (repeated p) = returns p
resolve_end unknown = crashes
resolve_end unfinished = exhausted

-- `_resolve`
unfoldable pub resolve : List (String × String) → String → Run String
resolve canonical paper_id = resolve_end (follow canonical paper_id)

pub record Maps : Type 0 where
  pub canonical : List (String × String)
  pub library : List (String × LibraryStatus)

-- `for paper_id in subjects: canonical[paper_id] = retained`
unfoldable pub assign : List String → String → List (String × String) → List (String × String)
assign [] retained canonical = canonical
assign (p ∷ ps) retained canonical = assign ps retained (insert p retained canonical)

-- `for paper_id in subjects: canonical[paper_id] = paper_id`
unfoldable pub assign_self : List String → List (String × String) → List (String × String)
assign_self [] canonical = canonical
assign_self (p ∷ ps) canonical = assign_self ps (insert p p canonical)

abbrev pub merge : List String → Option String → Maps → Run Maps
merge subjects none m = crashes
merge subjects (some retained) m =
    returns
      (record m { canonical = insert retained retained (assign subjects retained m.canonical) })

abbrev pub alias : List String → Option String → Maps → Run Maps
alias subjects none m = crashes
alias subjects (some retained) m =
    returns (record m { canonical = assign subjects retained m.canonical })

-- `library[subjects[0]] = status`
abbrev pub put_status : List String → LibraryStatus → Maps → Run Maps
put_status [] status m = crashes
put_status (p ∷ ps) status m = returns (record m { library = insert p status m.library })

abbrev pub change_by : Operation → Correction → Maps → Run Maps
change_by confirmed_duplicate_merge c m = merge c.subject_paper_ids c.retained_paper_id m
change_by paper_alias c m = alias c.subject_paper_ids c.retained_paper_id m
change_by mistaken_merge_split c m =
    returns (record m { canonical = assign_self c.subject_paper_ids m.canonical })
change_by library_archive c m = put_status c.subject_paper_ids archived m
change_by library_tombstone c m = put_status c.subject_paper_ids tombstoned m

-- One round of the loop of `_project`.
unfoldable pub apply_correction : Correction → Maps → Run Maps
apply_correction c m = do
  changed ← change_by c.operation c m
  require_acyclic changed.canonical c
  returns changed

unfoldable pub apply_all : List Correction → Maps → Run Maps
apply_all [] m = returns m
apply_all (c ∷ cs) m = apply_correction c m >>= apply_all cs

abbrev pub fresh : List String → Maps
fresh paper_ids = record {
  canonical = map (λ (p : String). (p, p)) paper_ids;
  library = map (λ (p : String). (p, active)) paper_ids;
}

-- `library[paper_id]`
abbrev pub status_end : Option LibraryStatus → Run LibraryStatus
status_end none = crashes
status_end (some status) = returns status

unfoldable pub identity_of : Maps → String → Run PaperIdentity
identity_of m paper_id = do
  canonical_paper_id ← resolve m.canonical paper_id
  status ← status_end (lookup paper_id m.library)
  returns (record {
    paper_id = paper_id;
    canonical_paper_id = canonical_paper_id;
    library_status = status;
  })

unfoldable pub identities : Maps → List String → Run (List PaperIdentity)
identities m [] = returns []
identities m (p ∷ ps) = do first ← identity_of m p; rest ← identities m ps; returns (first ∷ rest)

abbrev pub text_le : String → String → Bool
text_le a b = is_le (compare a b)

-- `_project`, of the set of the papers.
unfoldable pub project : List String → List Correction → Run (List PaperIdentity)
project paper_ids corrections = do
  m ← apply_all corrections (fresh paper_ids)
  identities m (sort_by text_le paper_ids)
