-- ===== src/Entity/Conditions.antt =====
-- When a field and an instance pass a condition (src/core/entity/entity_interface.hpp,
-- src/core/entity/entity.cpp).
use mathlib.Core.Option.{some-injective}
use obmc_yadro_webapp.Prelude.{
  ◌≡◌, ◌↔◌, inl, inr, refl, ap, sym, ◌∙◌, Bool, true, false, not, Option, none, some, [], ◌∷◌,
  if◌then◌else◌, ◌==◌, nat_eq, text_eq, text_beq_iff, All, arith, Bool-cases,
}
use obmc_yadro_webapp.Prelude.Text.{Text}
use obmc_yadro_webapp.Prelude.Int.{ℤ, pos, negsuc}
use obmc_yadro_webapp.Entity.{
  FieldType, string, int32, boolean, Field, Instance, get_value, get_field, as_string, as_int,
  as_bool, both_equal, ValueKind, string_kind, int_kind, bool_kind, int_beq, bool_beq, equal,
  non_equal, Condition, CompareCallback, dummy_field, compare_rules, field_value_compare,
}

-- The value is one of the kind.
abbrev pub IsOfKind : ValueKind → FieldType → Type 0
IsOfKind string_kind value = (s : Text) × (value ≡ string s)
IsOfKind int_kind value = (n : ℤ) × (value ≡ int32 n)
IsOfKind bool_kind value = (b : Bool) × (value ≡ boolean b)

int_beq_iff : (a b : ℤ) → (int_beq a b ≡ true) ↔ (a ≡ b)
unfolding int_beq
int_beq_iff (pos m) (pos n) = ground arith
int_beq_iff (pos m) (negsuc n) = ground arith
int_beq_iff (negsuc m) (pos n) = ground arith
int_beq_iff (negsuc m) (negsuc n) = ground arith

bool_beq_iff : (a b : Bool) → (bool_beq a b ≡ true) ↔ (a ≡ b)
unfolding bool_beq
bool_beq_iff true b = ground arith
bool_beq_iff false b = ground arith

both_equal_iff {ℓ} :
    {A : Type ℓ} (same : A → A → Bool) (left right : Option A)
    → ((a b : A) → (same a b ≡ true) ↔ (a ≡ b))
    → (both_equal same left right ≡ true) ↔ ((left ≡ right) × ((a : A) × (right ≡ some a)))
unfolding both_equal
both_equal_iff same none none h = ground arith
both_equal_iff same none (some b) h = ground arith
both_equal_iff same (some a) none h = ground arith
both_equal_iff same (some a) (some b) h =
    (λ e. (ap some ((h a b).0 e), (b, refl)), λ p. (h a b).1 (some-injective a b p.0))

kind_iff {ℓ} :
    {A : Type ℓ} (same : A → A → Bool) (project : FieldType → Option A) (inject : A → FieldType)
    (left value : FieldType)
    → ((a b : A) → (same a b ≡ true) ↔ (a ≡ b))
    → ((v : FieldType) (a : A) → (project v ≡ some a) ↔ (v ≡ inject a))
    → (both_equal same (project left) (project value) ≡ true)
      ↔ ((left ≡ value) × ((a : A) × (value ≡ inject a)))
kind_iff same project inject left value h p =
    let both = both_equal_iff same (project left) (project value) h in
    (
      λ e.
          let q = both.0 e in
          let held = (p value q.1.0).0 q.1.1 in
          ((p left q.1.0).0 (q.0 ∙ q.1.1) ∙ sym held, (q.1.0, held)),
      λ q. both.1 (ap project q.0, (q.1.0, (p value q.1.0).1 q.1.1)),
    )

not_iff : (b : Bool) → (not b ≡ true) ↔ (b ≡ false)
not_iff b = ground arith

as_string_iff : (v : FieldType) (s : Text) → (as_string v ≡ some s) ↔ (v ≡ string s)
unfolding as_string
as_string_iff (string t) s = ground arith
as_string_iff v s = ground arith

as_int_iff : (v : FieldType) (n : ℤ) → (as_int v ≡ some n) ↔ (v ≡ int32 n)
unfolding as_int
as_int_iff (int32 m) n = ground arith
as_int_iff v n = ground arith

as_bool_iff : (v : FieldType) (b : Bool) → (as_bool v ≡ some b) ↔ (v ≡ boolean b)
unfolding as_bool
as_bool_iff (boolean c) b = ground arith
as_bool_iff v b = ground arith

-- A field passes `Equal` exactly if it has the value and the value is of the compared type. It
-- passes `NonEqual` exactly if it does not pass `Equal`. A member that is not read passes no `Equal`.
pub equal_iff :
    (kind : ValueKind) (f : Field) (value : FieldType)
    → ((equal kind (some f) value ≡ true) ↔ ((get_value f ≡ value) × IsOfKind kind value))
      × ((non_equal kind (some f) value ≡ true) ↔ (equal kind (some f) value ≡ false))
      × (equal kind none value ≡ false)
unfolding equal non_equal
equal_iff string_kind f value = (
  kind_iff ◌==◌ as_string string (get_value f) value text_beq_iff as_string_iff,
  not_iff (equal string_kind (some f) value),
  refl,
)
equal_iff int_kind f value = (
  kind_iff int_beq as_int int32 (get_value f) value int_beq_iff as_int_iff,
  not_iff (equal int_kind (some f) value),
  refl,
)
equal_iff bool_kind f value = (
  kind_iff bool_beq as_bool boolean (get_value f) value bool_beq_iff as_bool_iff,
  not_iff (equal bool_kind (some f) value),
  refl,
)

-- What a rule's callback is given: no instance for the dummy member.
abbrev pub operand : Text → Instance → Option Field
operand member i = if dummy_field == member then none else some (get_field member i)

compare_rules-lem :
    (rules : Condition) (i : Instance) (result : Bool)
    → (compare_rules rules i result ≡ true) ↔ (
        (result ≡ true)
        × All
            (λ (rule : Text × FieldType × CompareCallback). rule.2 (operand rule.0 i) rule.1 ≡ true)
            rules)
unfolding compare_rules
compare_rules-lem [] i result = ground arith
compare_rules-lem ((member, value, callback) ∷ rules) i result =
    elim (Bool-cases (callback (operand member i) value)) [
      | inl passed ↦
          let rest = compare_rules-lem rules i result in
          rw (passed, compare_rules)
            ((λ e. ((rest.0 e).0, (refl, (rest.0 e).1)), λ p. rest.1 (p.0, p.1.1)))
      | inr failed ↦
          let rest = compare_rules-lem rules i false in
          rw (failed, compare_rules) ((λ e. ground (arith, rest.0 e), λ p. ground (arith, p.1.0)))
    ]

-- An instance passes a condition exactly if it passes every rule of it: a condition without a rule
-- lets every instance pass.
pub field_value_compare_iff :
    (condition : Condition) (i : Instance)
    → (field_value_compare condition i ≡ true)
      ↔ All
          (λ (rule : Text × FieldType × CompareCallback). rule.2 (operand rule.0 i) rule.1 ≡ true)
          condition
unfolding field_value_compare
field_value_compare_iff condition i =
    let rules = compare_rules-lem condition i true in (λ e. (rules.0 e).1, λ p. rules.1 (refl, p))
