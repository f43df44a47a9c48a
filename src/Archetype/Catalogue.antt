-- ===== src/Archetype/Catalogue.antt =====
-- What the registry of archetypes knows after registrations.
use incident_investigator.Prelude.{
  ◌≡◌, refl, sym, ap, subst, arith, eq_iff, eq_self, String, true, some, List, [], ◌∷◌, ◌++◌,
  contains, Distinct, contains-concat, Distinct-concat, is_some, map, inl, inr, Bool-cases,
}
use incident_investigator.Model.Platform.{Platform}
use incident_investigator.Prelude.Dict.{lookup, lookup-insert}
use incident_investigator.Archetype.{
  Archetype, Registry, register, register_all, new_registry, empty_registry, all_archetypes,
  archetype_by_id, score, ScoreContext,
}

module _ {F : Type 0} where
  abbrev pub archetype_ids : List (Archetype F) → List String
  archetype_ids xs = map (λ (a : Archetype F). a.id) xs

  archetype_ids-concat :
      (xs : List (Archetype F)) (a : Archetype F)
      → archetype_ids (xs ++ a ∷ []) ≡ archetype_ids xs ++ a.id ∷ []
  archetype_ids-concat [] a = refl
  archetype_ids-concat (b ∷ xs) a = ap (λ rest. b.id ∷ rest) (archetype_ids-concat xs a)

  -- The list and the index of a registry have the same ids, and the list has each of them once.
  pub record Catalogued (r : Registry F) : Type 0 where
    pub same_ids :
        (k : String) → contains (archetype_ids (all_archetypes r)) k ≡ is_some (archetype_by_id r k)
    pub once : Distinct (archetype_ids (all_archetypes r))
    pub right_key : (k : String) (a : Archetype F) → archetype_by_id r k ≡ some a → a.id ≡ k

  register-Catalogued :
      (a : Archetype F) (r : Registry F) → Catalogued r → Catalogued (register a r)
  unfolding register
  register-Catalogued a r c = elim (Bool-cases (is_some (lookup a.id r.by_id))) [
    | inl known ↦ rw known (record {
      same_ids = λ k. ground (arith, c.same_ids k, lookup-insert a.id k a r.by_id, eq_iff a.id k);
      once = c.once;
      right_key =
          λ k b e. ground (arith, c.right_key k b, lookup-insert a.id k a r.by_id, eq_iff a.id k);
    })
    | inr new ↦ rw new (record {
      same_ids = λ k. ground (
        arith,
        c.same_ids k,
        lookup-insert a.id k a r.by_id,
        eq_iff a.id k,
        archetype_ids-concat r.order a,
        contains-concat (archetype_ids r.order) a.id k,
      );
      once =
          subst Distinct (sym (archetype_ids-concat r.order a))
            (Distinct-concat (archetype_ids r.order) a.id c.once (ground (arith, c.same_ids a.id)));
      right_key =
          λ k b e. ground (arith, c.right_key k b, lookup-insert a.id k a r.by_id, eq_iff a.id k);
    })
  ]

  register_all-Catalogued :
      (xs : List (Archetype F)) (r : Registry F) → Catalogued r → Catalogued (register_all xs r)
  unfolding register_all
  register_all-Catalogued [] r c = c
  register_all-Catalogued (a ∷ xs) r c =
      register_all-Catalogued xs (register a r) (register-Catalogued a r c)

  -- In the registry that NewRegistry builds, All lists exactly the ids that ByID finds, each one
  -- once, and ByID returns an archetype that has the id asked for.
  pub new_registry-Catalogued : (xs : List (Archetype F)) → Catalogued (new_registry xs)
  unfolding new_registry empty_registry lookup
  new_registry-Catalogued xs =
      register_all-Catalogued xs empty_registry
        (record { same_ids = λ k. refl; once = tt; right_key = λ k a e. ground arith })

-- To register an archetype under an id that the registry already knows changes what ByID returns
-- for that id, and neither All nor Score, which go on with the archetype registered first.
pub register_again_keeps_score :
    (P : Platform) (a : Archetype P.Float) (r : Registry P.Float) (ctx : ScoreContext P.Float)
    → is_some (archetype_by_id r a.id) ≡ true
    → (archetype_by_id (register a r) a.id ≡ some a)
      × (all_archetypes (register a r) ≡ all_archetypes r)
      × (score P ctx (register a r) ≡ score P ctx r)
unfolding register score
register_again_keeps_score P a r ctx known =
    (ground (arith, lookup-insert a.id a.id a r.by_id, eq_self a.id), rw known, rw known)
