-- ===== src/Runtime/Submitting/Batches.antt =====
-- What Submit stores of a batch.
use mathlib.Core.List.{append-nil, append_assoc}
use incident_investigator.Prelude.{
  ◌≡◌, refl, ap, sym, ◌∙◌, subst, arith, ℕ, suc, ◌+◌, String, true, false, ◌||◌, Option, none, some,
  List, [], ◌∷◌, ◌++◌, ◌==◌, map, contains, Distinct, Distinct-concat, All, All-append, map-append,
  inl, inr, Bool-cases, length, not, if◌then◌else◌,
}
use incident_investigator.Model.Platform.{Platform}
use incident_investigator.Model.Evidence.{Category, Evidence, is_valid_category, custom_category}
use incident_investigator.Runtime.Sessions.{RuntimeError}
use incident_investigator.Runtime.Submitting.{normalize_evidence, ingest}

abbrev pub ids_of : List Evidence → List String
ids_of evidence = map (λ (e : Evidence). e.id) evidence

module _ (P : Platform) (fresh : ℕ → String) (now : ℕ) where
  -- The items of a batch from its n-th on, as they are stored.
  unfoldable pub normalized : ℕ → List Evidence → List Evidence
  normalized n [] = []
  normalized n (raw ∷ raws) = normalize_evidence (fresh n) now raw ∷ normalized (suc n) raws

  next_ids :
      (seen : List String) (stored : List Evidence) (e : Evidence)
      → seen ≡ ids_of stored
      → seen ++ e.id ∷ [] ≡ ids_of (stored ++ e ∷ [])
  next_ids seen stored e h =
      ap (λ ids. ids ++ e.id ∷ []) h ∙ sym (map-append (λ (x : Evidence). x.id) stored (e ∷ []))

  -- Each piece of evidence has an identifier that is neither among those known before nor that of
  -- a piece before it.
  abbrev pub NewIds : List String → List Evidence → Type 0
  NewIds ids [] = Unit
  NewIds ids (e ∷ es) = (contains ids e.id ≡ false) × NewIds (ids ++ e.id ∷ []) es

  -- The summary is not blank.
  abbrev pub HasSummary : Evidence → Type 0
  HasSummary raw = (P.trim_space raw.summary == "") ≡ false

  -- Why the loop stops at what is left of a batch, the n-th item being the first of it.
  pub data Stopped (n : ℕ) (ids : List String)
      : List (Option Evidence) → Option RuntimeError → Type 0 where
    all_stored : Stopped n ids [] none
    not_given :
        (items : List (Option Evidence))
        → Stopped n ids (none ∷ items) (some RuntimeError.invalid_evidence)
    blank :
        (raw : Evidence) (items : List (Option Evidence))
        → (P.trim_space raw.summary == "") ≡ true
        → Stopped n ids (some raw ∷ items) (some RuntimeError.invalid_evidence)
    known :
        (raw : Evidence) (items : List (Option Evidence))
        → contains ids (normalize_evidence (fresh n) now raw).id ≡ true
        → Stopped n ids
            (some raw ∷ items)
            (some (RuntimeError.duplicate_evidence_id (normalize_evidence (fresh n) now raw).id))

  -- What the loop has done: the batch is a part that is stored, in its order, behind the evidence
  -- that was there, and a rest at which the loop stops. Each item of the part has a summary and an
  -- identifier that is new where it stands.
  pub record Ingested (n : ℕ) (stored : List Evidence) (items : List (Option Evidence))
      (out : List Evidence × Option RuntimeError) : Type 0 where
    pub taken : List Evidence
    pub rest : List (Option Evidence)
    pub whole : items ≡ map some taken ++ rest
    pub result : out.0 ≡ stored ++ normalized n taken
    pub summaries : All HasSummary taken
    pub new_ids : NewIds (ids_of stored) (normalized n taken)
    pub stop : Stopped (n + length taken) (ids_of out.0) rest out.1

  no_more :
      (n : ℕ) (stored : List Evidence) (items : List (Option Evidence))
      (error : Option RuntimeError)
      → Stopped n (ids_of stored) items error
      → Ingested n stored items (stored, error)
  unfolding normalized
  no_more n stored items error h = record {
    taken = [];
    rest = items;
    whole = refl;
    result = sym (append-nil stored);
    summaries = tt;
    new_ids = tt;
    stop = subst (λ k. Stopped k (ids_of stored) items error) (omega arith) h;
  }

  one_more :
      (n : ℕ) (stored : List Evidence) (raw : Evidence) (items : List (Option Evidence))
      (out : List Evidence × Option RuntimeError)
      → HasSummary raw
      → contains (ids_of stored) (normalize_evidence (fresh n) now raw).id ≡ false
      → Ingested (suc n) (stored ++ normalize_evidence (fresh n) now raw ∷ []) items out
      → Ingested n stored (some raw ∷ items) out
  unfolding normalized
  one_more n stored raw items out said new h = record {
    taken = raw ∷ h.taken;
    rest = h.rest;
    whole = ap (λ xs. some raw ∷ xs) h.whole;
    result = h.result ∙ append_assoc stored (normalize_evidence (fresh n) now raw ∷ []) _;
    summaries = (said, h.summaries);
    new_ids = (
      new,
      subst (λ ids. NewIds ids (normalized (suc n) h.taken))
          (sym (next_ids (ids_of stored) stored (normalize_evidence (fresh n) now raw) refl))
          h.new_ids,
    );
    stop = subst (λ k. Stopped k (ids_of out.0) h.rest out.1) (omega arith) h.stop;
  }

  pub ingest-Ingested :
      (n : ℕ) (seen : List String) (stored : List Evidence) (items : List (Option Evidence))
      → seen ≡ ids_of stored
      → Ingested n stored items (ingest P fresh now n seen stored items)
  unfolding ingest
  ingest-Ingested n seen stored [] e = no_more n stored [] none all_stored
  ingest-Ingested n seen stored (none ∷ items) e =
      no_more n stored (none ∷ items) _ (not_given items)
  ingest-Ingested n seen stored (some raw ∷ items) e =
      elim (Bool-cases (P.trim_space raw.summary == "")) [
        | inl b ↦ rw b (no_more n stored (some raw ∷ items) _ (blank raw items b))
        | inr b ↦ elim (Bool-cases (contains seen (normalize_evidence (fresh n) now raw).id)) [
          | inl k ↦ rw (b, k) (no_more n stored (some raw ∷ items) _ (known raw items (rw e at k)))
          | inr k ↦
              rw (b, k)
                (one_more n stored raw items _ b (rw e at k) (
                  ingest-Ingested (suc n) _ _ items
                    (next_ids seen stored (normalize_evidence (fresh n) now raw) e)))
        ]
      ]

custom_valid : is_valid_category custom_category ≡ true
unfolding is_valid_category
custom_valid = refl

valid_or_custom :
    (c : Category)
    → is_valid_category (if (c == "") || not (is_valid_category c) then custom_category else c)
      ≡ true
valid_or_custom c = elim (Bool-cases (c == "")) [
  | inl e ↦ rw e custom_valid
  | inr e ↦ elim (Bool-cases (is_valid_category c)) [
    | inl v ↦ rw (e, v) v
    | inr v ↦ rw (e, v) custom_valid
  ]
]

source_or_default : (s : String) → ((if s == "" then "provided_by_client" else s) == "") ≡ false
source_or_default s = elim (Bool-cases (s == "")) [ inl e ↦ rw e refl | inr e ↦ rw e e ]

module _ (P : Platform) where
  -- Evidence as the store holds it: with a known category, a summary and a source.
  abbrev pub IsNormal : Evidence → Type 0
  IsNormal e =
      (is_valid_category e.category ≡ true)
      × ((P.trim_space e.summary == "") ≡ false)
      × ((e.source == "") ≡ false)

  -- No two pieces of evidence share an identifier, and each is as the store holds it.
  abbrev pub Clean : List Evidence → Type 0
  Clean evidence = Distinct (ids_of evidence) × All IsNormal evidence

  normalize_evidence-IsNormal :
      (id : String) (now : ℕ) (raw : Evidence)
      → (P.trim_space raw.summary == "") ≡ false
      → IsNormal (normalize_evidence id now raw)
  unfolding normalize_evidence
  normalize_evidence-IsNormal id now raw h =
      (valid_or_custom raw.category, h, source_or_default raw.source)

  stored-Clean :
      (stored : List Evidence) (e : Evidence)
      → Clean stored
      → IsNormal e
      → contains (ids_of stored) e.id ≡ false
      → Clean (stored ++ e ∷ [])
  stored-Clean stored e c n k = (
    subst Distinct (sym (map-append (λ (x : Evidence). x.id) stored (e ∷ [])))
        (Distinct-concat (ids_of stored) e.id c.0 k),
    All-append IsNormal stored (e ∷ []) c.1 (n, tt),
  )

  pub ingest-Clean :
      (fresh : ℕ → String) (now n : ℕ) (seen : List String) (stored : List Evidence)
      (items : List (Option Evidence))
      → seen ≡ ids_of stored
      → Clean stored
      → Clean (ingest P fresh now n seen stored items).0
  unfolding ingest
  ingest-Clean fresh now n seen stored [] e c = c
  ingest-Clean fresh now n seen stored (none ∷ items) e c = c
  ingest-Clean fresh now n seen stored (some raw ∷ items) e c =
      elim (Bool-cases (P.trim_space raw.summary == "")) [
        | inl b ↦ rw b c
        | inr b ↦ elim (Bool-cases (contains seen (normalize_evidence (fresh n) now raw).id)) [
          | inl k ↦ rw (b, k) c
          | inr k ↦
              rw (b, k)
                (ingest-Clean fresh now (suc n) _ _ items
                  (next_ids P fresh now seen stored (normalize_evidence (fresh n) now raw) e)
                  (stored-Clean stored _ c (normalize_evidence-IsNormal (fresh n) now raw b)
                    (rw e at k)))
        ]
      ]
