-- ===== src/Diagnostics/Deduplicate.antt =====
-- What `_deduplicate` keeps of a list of diagnostics.
use lit_grove.Prelude.{
  ◌≡◌, ◌↔◌, sym, ap, ◌∙◌, Bool, true, false, ◌||◌, List, [], ◌∷◌, map, contains, contains-map,
  contains-of_Memᴰ, Distinct, All, All-map, All-self, Pairwise, Memᴰ, unique_keys,
  unique_from-All_Memᴰ, unique-eq-nil,
}
use lit_grove.Diagnostics.{Diagnostic, Key, key, key_eq, deduplicate}

-- Two diagnostics that are told apart by the record's kind and the severity at most.
pub record IsSame (a b : Diagnostic) : Type 0 where
  pub code : a.code ≡ b.code
  pub record_id : a.record_id ≡ b.record_id
  pub json_path : a.json_path ≡ b.json_path
  pub message : a.message ≡ b.message

key-IsSame : (a b : Diagnostic) → key a ≡ key b → IsSame a b
key-IsSame a b h = record {
  code = ap (λ (k : Key). k.code) h;
  record_id = ap (λ (k : Key). k.record_id) h;
  json_path = ap (λ (k : Key). k.json_path) h;
  message = ap (λ (k : Key). k.message) h;
}

IsSame-key : (a b : Diagnostic) → IsSame a b → key a ≡ key b
IsSame-key a b h = λ i. record {
  code = h.code i;
  record_id = h.record_id i;
  json_path = h.json_path i;
  message = h.message i;
}

abbrev pub AreDifferent : Diagnostic → Diagnostic → Type 0
AreDifferent a b = IsSame a b → ⊥

different_from :
    (d : Diagnostic) (ds : List Diagnostic)
    → contains (map key ds) (key d) ≡ false
    → All (AreDifferent d) ds
different_from d [] h = tt
different_from d (e ∷ ds) h = (
  λ same.
      clash (key_eq.beq (key e) (key d)) _
        ((key_eq.beq_iff (key e) (key d)).1 (sym (IsSame-key d e same))) h,
  different_from d ds (rest (key_eq.beq (key e) (key d)) h),
)
  where
    clash : (b c : Bool) → b ≡ true → (b || c) ≡ false → ⊥
    clash true c p q = cc
    clash false c p q = cc

    rest : (b : Bool) {c : Bool} → (b || c) ≡ false → c ≡ false
    rest true q = cc
    rest false q = q

Distinct-different : (ds : List Diagnostic) → Distinct (map key ds) → Pairwise AreDifferent ds
Distinct-different [] h = tt
Distinct-different (d ∷ ds) h = (different_from d ds h.0, Distinct-different ds h.1)

-- `_deduplicate` keeps items of its input and no two that have the same code, record ID, path and message,
-- and for each item of the input it keeps one with the same four.
pub deduplicate_keys :
    (items : List Diagnostic)
    → All (λ (d : Diagnostic). Memᴰ d items) (deduplicate items)
      × Pairwise AreDifferent (deduplicate items)
      × All (λ (d : Diagnostic). (e : Diagnostic) × Memᴰ e (deduplicate items) × IsSame e d) items
unfolding deduplicate
deduplicate_keys items =
    let (distinct, covers) = unique_keys key items in
    (
      unique_from-All_Memᴰ key [] items,
      Distinct-different (deduplicate items) distinct,
      All-map items
          (λ d m.
            (let (e, n, same) =
                contains-map key (deduplicate items) (key d)
                  (covers (key d) ∙ contains-of_Memᴰ key d items m) in
              (e, n, key-IsSame e d same)))
          (All-self items),
    )

-- A report is empty exactly when nothing was reported.
pub deduplicate-eq-nil : (items : List Diagnostic) → (deduplicate items ≡ []) ↔ (items ≡ [])
unfolding deduplicate
deduplicate-eq-nil = unique-eq-nil key
