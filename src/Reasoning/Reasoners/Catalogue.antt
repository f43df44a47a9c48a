-- ===== src/Reasoning/Reasoners/Catalogue.antt =====
-- The registry of reasoners: what Get and List answer.
use incident_investigator.Prelude.{
  ◌≡◌, refl, ap, sym, subst, none, ◌∙◌, arith, List, [], ◌∷◌, ◌&&◌, ◌||◌, some, map, filter_map,
  All, Option-cases, ◌≤◌, String, ◌==◌, ok, if◌then◌else◌, inl, inr, Bool-cases, is_some, Distinct,
  Distinct-concat, contains, contains-concat, eq_iff,
}
use incident_investigator.Prelude.Dict.{Dict, lookup, lookup-insert}
use incident_investigator.Prelude.Order.{Ordered, sort-Ordered, contains-sort, sort-Distinct}
use incident_investigator.Prelude.Sorting.{All-sort}
use incident_investigator.Model.Platform.{Platform}
use incident_investigator.Reasoning.Reasoners.{
  Reasoner, ReasonerRegistry, register_reasoner, list_reasoners, get_reasoner, more_urgent,
  empty_reasoners,
}

module _ {F : Type 0} where
  -- The names in the order of registration, each once, are those that have a reasoner, and each
  -- reasoner stands under its name.
  pub record Registered (reg : ReasonerRegistry F) : Type 0 where
    pub once : Distinct reg.order
    pub known : (name : String) → contains reg.order name ≡ is_some (lookup name reg.reasoners)
    pub named :
        (name : String) (r : Reasoner F) → lookup name reg.reasoners ≡ some r → r.name ≡ name

  pub empty_reasoners-Registered : Registered (empty_reasoners {F = F})
  unfolding empty_reasoners lookup
  empty_reasoners-Registered = record { once = tt; known = λ name. refl; named = λ name r e. cc }

  pub register_reasoner-Registered :
      (r : Reasoner F) (reg : ReasonerRegistry F)
      → Registered reg
      → Registered (register_reasoner r reg)
  unfolding register_reasoner
  register_reasoner-Registered r reg h = elim (Bool-cases (is_some (lookup r.name reg.reasoners))) [
    | inl e ↦ record {
      once = rw e h.once;
      known = λ name. ground (
        arith,
        h.known name,
        h.known r.name,
        lookup-insert r.name name r reg.reasoners,
        eq_iff r.name name,
      );
      named = λ name x e.
          ground
            (arith, h.named name x, lookup-insert r.name name r reg.reasoners, eq_iff r.name name);
    }
    | inr e ↦ record {
      once = rw e (Distinct-concat reg.order r.name h.once (h.known r.name ∙ e));
      known = λ name. ground (
        arith,
        h.known name,
        contains-concat reg.order r.name name,
        lookup-insert r.name name r reg.reasoners,
      );
      named = λ name x e.
          ground
            (arith, h.named name x, lookup-insert r.name name r reg.reasoners, eq_iff r.name name);
    }
  ]

  -- The name of a reasoner.
  abbrev pub name_of : Reasoner F → String
  name_of r = r.name

  contains-found :
      (reasoners : Dict (Reasoner F)) (order : List String) (k : String)
      → ((name : String) (r : Reasoner F) → lookup name reasoners ≡ some r → r.name ≡ name)
      → contains (map name_of (filter_map (λ name. lookup name reasoners) order)) k
        ≡ (contains order k && is_some (lookup k reasoners))
  contains-found reasoners [] k h = refl
  contains-found reasoners (o ∷ os) k h = elim (Option-cases (lookup o reasoners)) [
    | inl e ↦ ground (arith, contains-found reasoners os k h, eq_iff o k)
    | inr (r, e) ↦
        ground (arith, contains-found reasoners os k h, eq_iff o k, eq_iff r.name k, h o r e)
  ]

  abbrev found : Dict (Reasoner F) → List String → List (Reasoner F)
  found reasoners order = filter_map (λ name. lookup name reasoners) order

  found-none :
      (reasoners : Dict (Reasoner F)) (o : String) (os : List String)
      → lookup o reasoners ≡ none
      → found reasoners (o ∷ os) ≡ found reasoners os
  found-none reasoners o os e = ground arith

  found-some :
      (reasoners : Dict (Reasoner F)) (o : String) (os : List String) (r : Reasoner F)
      → lookup o reasoners ≡ some r
      → found reasoners (o ∷ os) ≡ r ∷ found reasoners os
  found-some reasoners o os r e = ground arith

  found-Distinct :
      (reasoners : Dict (Reasoner F)) (order : List String)
      → ((name : String) (r : Reasoner F) → lookup name reasoners ≡ some r → r.name ≡ name)
      → Distinct order
      → Distinct (map name_of (found reasoners order))
  found-Distinct reasoners [] h d = tt
  found-Distinct reasoners (o ∷ os) h d = elim (Option-cases (lookup o reasoners)) [
    | inl e ↦
        subst (λ (xs : List (Reasoner F)). Distinct (map name_of xs))
          (sym (found-none reasoners o os e)) (found-Distinct reasoners os h d.1)
    | inr (r, e) ↦
        subst (λ (xs : List (Reasoner F)). Distinct (map name_of xs))
          (sym (found-some reasoners o os r e))
          (
            ground (arith, contains-found reasoners os r.name h, h o r e, d.0),
            found-Distinct reasoners os h d.1,
          )
  ]

  found-All :
      (reasoners : Dict (Reasoner F)) (order : List String)
      → ((name : String) (r : Reasoner F) → lookup name reasoners ≡ some r → r.name ≡ name)
      → All (λ (x : Reasoner F). lookup x.name reasoners ≡ some x) (found reasoners order)
  found-All reasoners [] h = tt
  found-All reasoners (o ∷ os) h = elim (Option-cases (lookup o reasoners)) [
    | inl e ↦
        subst (All (λ (x : Reasoner F). lookup x.name reasoners ≡ some x))
          (sym (found-none reasoners o os e)) (found-All reasoners os h)
    | inr (r, e) ↦
        subst (All (λ (x : Reasoner F). lookup x.name reasoners ≡ some x))
          (sym (found-some reasoners o os r e))
          (ap (λ k. lookup k reasoners) (h o r e) ∙ e, found-All reasoners os h)
  ]

  names_listed :
      (reg : ReasonerRegistry F) (k : String)
      → Registered reg
      → contains (map name_of (list_reasoners reg)) k ≡ is_some (lookup k reg.reasoners)
  unfolding list_reasoners
  names_listed reg k h = ground (
    arith,
    contains-sort name_of more_urgent (filter_map (λ name. lookup name reg.reasoners) reg.order) k,
    contains-found reg.reasoners reg.order k h.named,
    h.known k,
  )

module _ (P : Platform) where
  -- What List gives of a registry: each reasoner that Get gives under its name, once, by descending
  -- priority.
  pub record Listing (reg : ReasonerRegistry P.Float) : Type 0 where
    pub once : Distinct (map name_of (list_reasoners reg))
    pub given :
        All (λ (x : Reasoner P.Float). lookup x.name reg.reasoners ≡ some x) (list_reasoners reg)
    pub urgent : Ordered (λ (a b : Reasoner P.Float). b.priority ≤ a.priority) (list_reasoners reg)

  Registered-Listing : (reg : ReasonerRegistry P.Float) → Registered reg → Listing reg
  unfolding list_reasoners
  Registered-Listing reg h = record {
    once =
        sort-Distinct name_of more_urgent _ (found-Distinct reg.reasoners reg.order h.named h.once);
    given =
        All-sort (λ (x : Reasoner P.Float). lookup x.name reg.reasoners ≡ some x) more_urgent _
          (found-All reg.reasoners reg.order h.named);
    urgent =
        sort-Ordered (λ (a b : Reasoner P.Float). b.priority ≤ a.priority) more_urgent
          (λ x y z i j. omega arith) (λ x y i. ground arith) (λ x y i. ground arith) _;
  }

  -- After Register, Get gives the new reasoner under its name, whether or not the name was taken, and
  -- under any other name what it gave before. List gives a reasoner of a name exactly if it is the
  -- new name or List gave one before. It gives each name once, with the reasoner that is stored under
  -- it, by descending priority. The registry stays such that this holds after the next Register.
  pub register_reasoner_lem :
      (r : Reasoner P.Float) (reg : ReasonerRegistry P.Float) (name : String)
      → Registered reg
      → (get_reasoner P name (register_reasoner r reg)
          ≡ (if r.name == name then ok r else get_reasoner P name reg))
        × (contains (map name_of (list_reasoners (register_reasoner r reg))) name
            ≡ ((r.name == name) || contains (map name_of (list_reasoners reg)) name))
        × Listing (register_reasoner r reg)
        × Registered (register_reasoner r reg)
  unfolding get_reasoner register_reasoner
  register_reasoner_lem r reg name h =
      let next = register_reasoner-Registered r reg h in
      (
        ground (arith, lookup-insert r.name name r reg.reasoners),
        ground (
          arith,
          lookup-insert r.name name r reg.reasoners,
          names_listed (register_reasoner r reg) name next,
          names_listed reg name h,
        ),
        Registered-Listing (register_reasoner r reg) next,
        next,
      )
