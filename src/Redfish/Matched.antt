-- ===== src/Redfish/Matched.antt =====
-- What the check of one segment of a path comes to (src/core/route/redfish/node.hpp).
use obmc_yadro_webapp.Prelude.{
  ℕ, zero, suc, ◌+◌, ◌<◌, ◌≡◌, ◌⊎◌, refl, ◌∙◌, inl, inr, Bool, true, false, Option, none, some,
  List, [], ◌∷◌, arith, nat_eq, text_eq, length, get_elem?, Bool-cases, Option-cases, leb, ltb,
}
use mathlib.Core.Path.{subst, sym}
use obmc_yadro_webapp.Prelude.Text.{Text}
use obmc_yadro_webapp.Entity.{Condition, Instance}
use obmc_yadro_webapp.Redfish.Context.{
  RedfishContext, IEntity, context_instances, verify_parameter, decode_uri_segment,
}
use obmc_yadro_webapp.Redfish.Actions.{Handled, done, thrown, undefined}
use obmc_yadro_webapp.Redfish.Resolver.{
  Segment, fixed_segment, entity_segment, Node, node, uri_prefix, match_segment, accepts,
  prefix_stands, verify_static_segments, validate_segment, match_entire_pattern,
}

-- The static segments of the node stand just before the last segment of the path, and the node accepts
-- that one; the context is what this match leaves.
pub Serves : List Text → Node → RedfishContext → Type 0
Serves path_info n after =
    (before : ℕ) × (last : Text) × (earlier : RedfishContext) × (before + length (uri_prefix n) + 1
      ≡ length path_info)
    × (prefix_stands path_info before (uri_prefix n) ≡ true)
    × (get_elem? path_info (before + length (uri_prefix n)) ≡ some last)
    × (accepts n earlier last ≡ done true after)

-- Both contexts have the same request and the same answer.
unfoldable pub Answers : RedfishContext → RedfishContext → Type 0
Answers ctx after = (after.request ≡ ctx.request) × (after.answer ≡ ctx.answer)

-- A step of finding a node keeps the request and the answer, however it ends, and is never undefined.
unfoldable pub KeepsAnswer : {A : Type 0} → RedfishContext → Handled A → Type 0
KeepsAnswer ctx (done a after) = Answers ctx after
KeepsAnswer ctx (thrown after) = Answers ctx after
KeepsAnswer ctx undefined = ⊥

pub Answers-trans :
    (ctx next after : RedfishContext) → Answers ctx next → Answers next after → Answers ctx after
unfolding Answers
Answers-trans ctx next after h k = (k.0 ∙ h.0, k.1 ∙ h.1)

KeepsAnswer-trans :
    {A : Type 0} (ctx next : RedfishContext) (h : Handled A)
    → Answers ctx next
    → KeepsAnswer next h
    → KeepsAnswer ctx h
unfolding KeepsAnswer
KeepsAnswer-trans ctx next (done a after) k l = Answers-trans ctx next after k l
KeepsAnswer-trans ctx next (thrown after) k l = Answers-trans ctx next after k l
KeepsAnswer-trans ctx next undefined k l = l

-- What `match_segment` makes of a check of a parameter.
abbrev matched : RedfishContext → Option (RedfishContext × Bool) → Handled Bool
matched ctx o = elim o [ none ↦ thrown ctx | some (next, found) ↦ done found next ]

verified-KeepsAnswer :
    (entity : IEntity) (conditions : List (Option Condition)) (name : Text) (ctx : RedfishContext)
    (found : Option (List Instance))
    → context_instances entity conditions ctx ≡ found
    → KeepsAnswer ctx (matched ctx (verify_parameter entity conditions name ctx))
unfolding KeepsAnswer Answers verify_parameter
verified-KeepsAnswer entity conditions name ctx none e = rw (verify_parameter, e) (refl, refl)
verified-KeepsAnswer entity conditions name ctx (some []) e = rw (verify_parameter, e) (refl, refl)
verified-KeepsAnswer entity conditions name ctx (some (first ∷ others)) e =
    rw (verify_parameter, e) (refl, refl)

match_segment-KeepsAnswer :
    (own : Segment) (ctx : RedfishContext) (value : Text)
    → KeepsAnswer ctx (match_segment own ctx value)
unfolding match_segment KeepsAnswer Answers
match_segment-KeepsAnswer (fixed_segment segment) ctx value = (refl, refl)
match_segment-KeepsAnswer (entity_segment entity get_conditions name) ctx value =
    verified-KeepsAnswer entity (get_conditions ctx (decode_uri_segment value)) name ctx
      (context_instances entity (get_conditions ctx (decode_uri_segment value)) ctx) refl

accepts-KeepsAnswer :
    (n : Node) (ctx : RedfishContext) (value : Text) → KeepsAnswer ctx (accepts n ctx value)
accepts-KeepsAnswer (node prefixes own ns) ctx value = match_segment-KeepsAnswer own ctx value

-- What a check of a segment comes to: nothing is compared, or the segment behind the static ones is.
unfoldable pub Compares : List Text → Node → ℕ → RedfishContext → ℕ × Handled Bool → Type 0
Compares path_info n depth ctx (behind, result) =
    (result ≡ done false ctx)
    ⊎ (result ≡ thrown ctx)
    ⊎ ((last : Text) × (behind ≡ depth + length (uri_prefix n))
        × (prefix_stands path_info depth (uri_prefix n) ≡ true)
        × (get_elem? path_info behind ≡ some last)
        × (result ≡ accepts n ctx last))

pub validate_segment-Compares :
    (path_info : List Text) (n : Node) (depth : ℕ) (ctx : RedfishContext)
    → Compares path_info n depth ctx (validate_segment path_info n depth ctx)
unfolding validate_segment verify_static_segments Compares
validate_segment-Compares path_info n depth ctx = elim (Bool-cases (leb (length path_info) depth)) [
  | inl out ↦ inl (rw (out, validate_segment) refl)
  | inr here ↦ elim (Bool-cases (prefix_stands path_info depth (uri_prefix n))) [
    | inr missing ↦ inl (rw (here, missing, validate_segment, verify_static_segments) refl)
    | inl stands ↦ elim (Bool-cases (ltb (depth + length (uri_prefix n)) (length path_info))) [
      | inr short ↦ inl (rw (here, stands, short, validate_segment, verify_static_segments) refl)
      | inl long ↦ elim (Option-cases (get_elem? path_info (depth + length (uri_prefix n)))) [
        | inl none_there ↦ inr (
            inl
              (rw (here, stands, long, none_there, validate_segment, verify_static_segments) refl))
        | inr (last, found) ↦ inr (
            inr (
              last,
              rw (here, stands, validate_segment, verify_static_segments) refl,
              stands,
              rw (here, stands, validate_segment, verify_static_segments) found,
              rw (here, stands, long, found, validate_segment, verify_static_segments) refl,
            ))
      ]
    ]
  ]
]

pub compared-KeepsAnswer :
    (path_info : List Text) (n : Node) (depth : ℕ) (ctx : RedfishContext) (v : ℕ × Handled Bool)
    → Compares path_info n depth ctx v
    → KeepsAnswer ctx v.1
unfolding Compares KeepsAnswer Answers
compared-KeepsAnswer path_info n depth ctx (behind, result) (inl same) =
    subst (KeepsAnswer ctx) (sym same) (refl, refl)
compared-KeepsAnswer path_info n depth ctx (behind, result) (inr (inl same)) =
    subst (KeepsAnswer ctx) (sym same) (refl, refl)
compared-KeepsAnswer path_info n depth ctx (behind, result) (inr (inr (last, b, s, f, same))) =
    subst (KeepsAnswer ctx) (sym same) (accepts-KeepsAnswer n ctx last)

get_elem?-lt :
    (path_info : List Text) (i : ℕ) (last : Text)
    → get_elem? path_info i ≡ some last
    → i < length path_info
get_elem?-lt [] i last e = absurd (ground arith)
get_elem?-lt (x ∷ xs) zero last e = omega arith
get_elem?-lt (x ∷ xs) (suc i) last e = let below = get_elem?-lt xs i last e in omega arith

pub compared-Serves :
    (path_info : List Text) (n : Node) (depth : ℕ) (ctx after : RedfishContext)
    (v : ℕ × Handled Bool)
    → Compares path_info n depth ctx v
    → v.1 ≡ done true after
    → match_entire_pattern path_info v.0 ≡ true
    → Serves path_info n after
unfolding Compares match_entire_pattern Serves
compared-Serves path_info n depth ctx after (behind, result) (inl same) e entire =
    absurd (ground arith)
compared-Serves path_info n depth ctx after (behind, result) (inr (inl same)) e entire =
    absurd (ground arith)
compared-Serves path_info n depth ctx after (behind, result) (inr (inr (last, b, s, f, same))) e
      entire =
    let inside = get_elem?-lt path_info behind last f in
    (depth, last, ctx, ground arith, s, rw (sym b) f, sym same ∙ e)
