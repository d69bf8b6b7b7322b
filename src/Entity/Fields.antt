-- ===== src/Entity/Fields.antt =====
-- Setting several fields of an instance in turn, from values or from the instance's other fields.
use obmc_yadro_webapp.Prelude.{
  ◌≡◌, ◌∙◌, refl, ap, Bool, true, false, not, ◌&&◌, Option, none, some, List, [], ◌∷◌, All,
  if◌then◌else◌, ◌==◌, text_eq, lookup, any_of, arith, Bool-cases, inl, inr,
}
use obmc_yadro_webapp.Prelude.Text.{Text}
use obmc_yadro_webapp.Entity.{FieldType, Field, Instance, get_field, supplement_or_update}
use obmc_yadro_webapp.Entity.Merge.{supplement_or_update_lem}

unfoldable pub set_fields : List (Text × FieldType) → Instance → Option Instance
unfolding supplement_or_update
set_fields [] i = some i
set_fields ((member, value) ∷ fields) i = elim (supplement_or_update member value i) [
  | none ↦ none
  | some next ↦ set_fields fields next
]

-- The second member of each pair, from the value of the first; `none` is an exception.
unfoldable pub set_each :
    (Field → Option FieldType) → List (Text × Text) → Instance → Option Instance
unfolding supplement_or_update get_field
set_each value [] i = some i
set_each value ((source, target) ∷ pairs) i = elim (value (get_field source i)) [
  | none ↦ none
  | some v ↦ elim (supplement_or_update target v i) [
    | none ↦ none
    | some next ↦ set_each value pairs next
  ]
]

-- What a member holds after the fields are set.
unfoldable pub fields_after : List (Text × FieldType) → Text → Option Field → Option Field
fields_after [] j first = first
fields_after ((member, value) ∷ fields) j first =
    fields_after fields j (if member == j then some (some value) else first)

pub set_fields_lem :
    (fields : List (Text × FieldType)) (i : Instance)
    → (next : Instance) × (set_fields fields i ≡ some next)
      × ((j : Text)
          → lookup j next.member_instances ≡ fields_after fields j (lookup j i.member_instances))
unfolding set_fields fields_after
set_fields_lem [] i = (i, refl, λ j. refl)
set_fields_lem ((member, value) ∷ fields) i =
    let step = supplement_or_update_lem member value i in
    let rest = set_fields_lem fields step.0 in
    (rest.0, rw (step.1, set_fields) rest.1, λ j. rest.2 j ∙ ap (fields_after fields j) (step.2 j))

-- No member is read after it was set.
unfoldable pub apart : List (Text × Text) → Bool
apart [] = true
apart ((source, target) ∷ pairs) = not (any_of (λ p. target == p.0) pairs) && apart pairs

-- The pair that sets a member last: its source.
unfoldable pub source_of : List (Text × Text) → Text → Option Text
source_of [] j = none
source_of ((source, target) ∷ pairs) j = elim (source_of pairs j) [
  | some other ↦ some other
  | none ↦ if target == j then some source else none
]

unfoldable pub Reads :
    (Field → Option FieldType) → (Text → FieldType) → Instance → List (Text × Text) → Type 0
Reads value g i pairs = All (λ p. value (get_field p.0 i) ≡ some (g p.0)) pairs

get_field-other :
    (t s : Text) (v : FieldType) (i next : Instance)
    → ((j : Text)
        → lookup j next.member_instances
          ≡ (if t == j then some (some v) else lookup j i.member_instances))
    → (t == s) ≡ false
    → get_field s next ≡ get_field s i
unfolding get_field
get_field-other t s v i next h e = rw (get_field, h s, e) refl

Reads-kept :
    (value : Field → Option FieldType) (g : Text → FieldType) (t : Text) (v : FieldType)
    (i next : Instance) (pairs : List (Text × Text))
    → ((j : Text)
        → lookup j next.member_instances
          ≡ (if t == j then some (some v) else lookup j i.member_instances))
    → any_of (λ p. t == p.0) pairs ≡ false
    → Reads value g i pairs
    → Reads value g next pairs
unfolding Reads
Reads-kept value g t v i next [] h e r = tt
Reads-kept value g t v i next ((s, u) ∷ pairs) h e r = (
  ap value (get_field-other t s v i next h (ground arith)) ∙ r.0,
  Reads-kept value g t v i next pairs h (ground arith) r.1,
)

-- What a member holds whose source is given, if it has one.
unfoldable pub set_from : (Text → FieldType) → Option Text → Option Field → Option Field
set_from g none first = first
set_from g (some source) first = some (some (g source))

-- Of two settings of one member the later one stands.
later_source :
    (s t j : Text) (g : Text → FieldType) (later : Option Text) (last middle first : Option Field)
    → last ≡ set_from g later middle
    → middle ≡ (if t == j then some (some (g s)) else first)
    → last
      ≡ set_from g
          (elim later [ some other ↦ some other | none ↦ if t == j then some s else none ])
          first
unfolding set_from
later_source s t j g (some other) last middle first e f = e
later_source s t j g none last middle first e f = elim (Bool-cases (t == j)) [
  | inl same ↦ rw same (e ∙ rw same at f)
  | inr different ↦ rw different (e ∙ rw different at f)
]

-- The loop succeeds, and sets each target from the value that its source had before the loop.
pub set_each_lem :
    (value : Field → Option FieldType) (g : Text → FieldType) (pairs : List (Text × Text))
    (i : Instance)
    → apart pairs ≡ true
    → Reads value g i pairs
    → (next : Instance) × (set_each value pairs i ≡ some next)
      × ((j : Text)
          → lookup j next.member_instances
            ≡ set_from g (source_of pairs j) (lookup j i.member_instances))
unfolding set_from set_each apart Reads source_of
set_each_lem value g [] i a r = (i, refl, λ j. refl)
set_each_lem value g ((s, t) ∷ pairs) i a r =
    let step = supplement_or_update_lem t (g s) i in
    let rest =
      set_each_lem value g pairs step.0 (ground arith)
        (Reads-kept value g t (g s) i step.0 pairs step.2 (ground arith) r.1) in
    (
      rest.0,
      rw (set_each, r.0, step.1) rest.1,
      λ j.
          later_source s t j g (source_of pairs j) (lookup j rest.0.member_instances)
            (lookup j step.0.member_instances) (lookup j i.member_instances) (rest.2 j) (step.2 j),
    )
