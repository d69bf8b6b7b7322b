-- ===== src/Redfish/Resolver.antt =====
-- Finding the Redfish node of a path (src/core/route/redfish/node.hpp, and the templates of the
-- generated nodes). A node's template parameters are data: the static segments before its own, its own
-- segment, and its children. A node without static segments has the empty list of them.
use obmc_yadro_webapp.Prelude.{
  ℕ, suc, ◌+◌, ◌-◌, Bool, true, false, ◌&&◌, Option, none, some, List, [], ◌∷◌, ltb, leb,
  if◌then◌else◌, ◌==◌, nat_eq, text_eq, length, get_elem?,
}
use obmc_yadro_webapp.Prelude.Text.{Text}
use obmc_yadro_webapp.Entity.{Condition}
use obmc_yadro_webapp.Redfish.Context.{
  RedfishContext, IEntity, verify_parameter, decode_uri_segment,
}
use obmc_yadro_webapp.Redfish.Actions.{Handled, done, thrown, undefined}

-- The segment that a node answers to: a fixed one, or one that is looked up as a parameter. For a
-- parameter the conditions are those that the generated node has for a value, and the text is the
-- parameter's name.
pub data Segment : Type 0 where
  fixed_segment : Text → Segment
  entity_segment : IEntity → (RedfishContext → Text → List (Option Condition)) → Text → Segment

mutual
  pub data Node : Type 0 where
    node : (prefixes : List Text) (own : Segment) (ns : Nodes) → Node

  pub data Nodes : Type 0 where
    no_childs : Nodes
    child : Node → Nodes → Nodes

abbrev pub uri_prefix : Node → List Text
uri_prefix (node prefixes own ns) = prefixes

-- `matchParameter`, and the comparison with `segment` of a node without a parameter.
unfoldable pub match_segment : Segment → RedfishContext → Text → Handled Bool
unfolding verify_parameter decode_uri_segment
match_segment (fixed_segment segment) ctx value = done (value == segment) ctx
match_segment (entity_segment entity get_conditions name) ctx value =
    elim (verify_parameter entity (get_conditions ctx (decode_uri_segment value)) name ctx) [
      | none ↦ thrown ctx
      | some (next, found) ↦ done found next
    ]

abbrev pub accepts : Node → RedfishContext → Text → Handled Bool
accepts (node prefixes own ns) = match_segment own

-- Whether the static segments stand in the path from the index on.
unfoldable pub prefix_stands : List Text → ℕ → List Text → Bool
prefix_stands path_info index [] = true
prefix_stands path_info index (prefix ∷ prefixes) =
    let rest = prefix_stands path_info (suc index) prefixes in
    elim (get_elem? path_info index) [
      | none ↦ false
      | some segment ↦ if segment == prefix then rest else false
    ]

-- The depth behind the static segments, where they stand; the depth is passed by reference.
unfoldable pub verify_static_segments : List Text → List Text → ℕ → ℕ × Bool
verify_static_segments path_info prefixes depth =
    if prefix_stands path_info depth prefixes
    then (depth + length prefixes, ltb (depth + length prefixes) (length path_info))
    else (depth, false)

-- The depth is passed by reference; the match may select an instance in the context, and may throw.
unfoldable pub validate_segment : List Text → Node → ℕ → RedfishContext → ℕ × Handled Bool
unfolding match_segment
validate_segment path_info n depth ctx =
    if leb (length path_info) depth
    then (depth, done false ctx)
    else let (behind, verified) = verify_static_segments path_info (uri_prefix n) depth in
      (
        behind,
        (if verified
            then elim (get_elem? path_info behind) [
              | none ↦ thrown ctx
              | some segment ↦ accepts n ctx segment
            ]
            else done false ctx),
      )

unfoldable pub match_entire_pattern : List Text → ℕ → Bool
match_entire_pattern path_info depth = depth == length path_info - 1

-- No node is `NodeNotFound`. The depth that a child has moved is the next child's as well, and so is
-- the instance that it has selected.
unfoldable mutual
  unfolding validate_segment match_entire_pattern

  pub uri_resolver : List Text → Node → ℕ → RedfishContext → Handled (Option Node)
  uri_resolver path_info (node prefixes own ns) depth ctx =
      let (behind, matched) = validate_segment path_info (node prefixes own ns) depth ctx in
      elim matched [
        | done valid next ↦ elim (valid && match_entire_pattern path_info behind) [
          | true ↦ done (some (node prefixes own ns)) next
          | false ↦ next_child_resolver path_info ns (suc behind) next
        ]
        | thrown failed ↦ thrown failed
        | undefined ↦ undefined
      ]

  pub next_child_resolver : List Text → Nodes → ℕ → RedfishContext → Handled (Option Node)
  next_child_resolver path_info no_childs depth ctx = done none ctx
  next_child_resolver path_info (child n rest) depth ctx =
      let (behind, matched) = validate_segment path_info n depth ctx in
      elim matched [
        | done valid next ↦ elim valid [
          | true ↦ elim (match_entire_pattern path_info behind) [
            | true ↦ done (some n) next
            | false ↦ uri_resolver path_info n behind next
          ]
          | false ↦ next_child_resolver path_info rest behind next
        ]
        | thrown failed ↦ thrown failed
        | undefined ↦ undefined
      ]
