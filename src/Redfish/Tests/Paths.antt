-- ===== src/Redfish/Tests/Paths.antt =====
-- The resolver on a small tree: three children of the root, two of them behind the segment Foo; and a
-- tree with a fan as its parameter.
use obmc_yadro_webapp.Prelude.{
  ◌≡◌, refl, some, none, [], ◌∷◌, nat_eq, text_eq, text_beq, insert_or_assign,
}
use obmc_yadro_webapp.Prelude.Ordered.{assign_ordered}
use obmc_yadro_webapp.Prelude.Text.{text}
use obmc_yadro_webapp.Redfish.Context.{new_context, context_instances, verify_parameter}
use obmc_yadro_webapp.Redfish.Actions.{done}
use obmc_yadro_webapp.Redfish.Resolver.{
  Node, node, no_childs, child, fixed_segment, entity_segment, match_segment, prefix_stands,
  verify_static_segments, validate_segment, match_entire_pattern, uri_resolver, next_child_resolver,
}
use obmc_yadro_webapp.Redfish.Matched.{Serves, Answers}
use obmc_yadro_webapp.Redfish.Laws.{uri_resolver_sound}
use obmc_yadro_webapp.Redfish.Router.{node_methods, run}
use obmc_yadro_webapp.Redfish.Router.Answered.{Run, run_lem}
use obmc_yadro_webapp.Redfish.Tests.Nodes.{fan, fans, request, fresh}

abbrev first : Node
first = node (text "Foo" ∷ []) (fixed_segment (text "First")) no_childs

abbrev second_node : Node
second_node = node (text "Foo" ∷ []) (fixed_segment (text "Second")) no_childs

abbrev plain : Node
plain = node [] (fixed_segment (text "Plain")) no_childs

abbrev root : Node
root =
    node [] (fixed_segment (text "redfish"))
      (child first (child second_node (child plain no_childs)))

resolved :
    uri_resolver (text "redfish" ∷ text "Foo" ∷ text "First" ∷ []) root 0 fresh
    ≡ done (some first) fresh
unfolding uri_resolver next_child_resolver validate_segment verify_static_segments prefix_stands
    match_entire_pattern match_segment text_beq
resolved = refl

-- The second node is not found at its own path: the first has moved the depth.
lost :
    uri_resolver (text "redfish" ∷ text "Foo" ∷ text "Second" ∷ []) root 0 fresh ≡ done none fresh
unfolding uri_resolver next_child_resolver validate_segment verify_static_segments prefix_stands
    match_entire_pattern match_segment text_beq
lost = refl

-- The plain node is found at a path that is not its own.
misplaced :
    uri_resolver (text "redfish" ∷ text "Foo" ∷ text "Plain" ∷ []) root 0 fresh
    ≡ done (some plain) fresh
unfolding uri_resolver next_child_resolver validate_segment verify_static_segments prefix_stands
    match_entire_pattern match_segment text_beq
misplaced = refl

uri_resolver_sound_example :
    Serves (text "redfish" ∷ text "Foo" ∷ text "First" ∷ []) first fresh × Answers fresh fresh
uri_resolver_sound_example =
    uri_resolver_sound (text "redfish" ∷ text "Foo" ∷ text "First" ∷ []) root first 0 fresh fresh
      resolved

-- A node whose parameter is a fan.
abbrev fan_node : Node
fan_node = node [] (entity_segment fans (λ ctx value. []) (text "Fan")) no_childs

abbrev fan_root : Node
fan_root = node [] (fixed_segment (text "redfish")) (child fan_node no_childs)

-- The fan is selected for the node that answers.
selected :
    uri_resolver (text "redfish" ∷ text "Fan_1" ∷ []) fan_root 0 fresh
    ≡ done (some fan_node) (record fresh {
      parameter_ctx = some (fan, fans);
      parameters = (text "Fan", some (fan, fans)) ∷ [];
    })
unfolding uri_resolver next_child_resolver validate_segment verify_static_segments prefix_stands
    match_entire_pattern match_segment text_beq verify_parameter context_instances new_context
    assign_ordered insert_or_assign
selected = refl

run_lem_example :
    Run (λ n. node_methods []) fan_root request (run (λ n. node_methods []) fan_root request)
run_lem_example = run_lem (λ n. node_methods []) fan_root request
