-- ===== src/Redfish/Laws.antt =====
-- What the node that serves a path has to do with it, and what finding it changes
-- (src/core/route/redfish/node.hpp).
use obmc_yadro_webapp.Prelude.{ℕ, ◌≡◌, Option, some, List, nat_eq, text_eq}
use mathlib.Core.Path.{subst}
use obmc_yadro_webapp.Prelude.Text.{Text}
use obmc_yadro_webapp.Redfish.Context.{RedfishContext}
use obmc_yadro_webapp.Redfish.Actions.{Handled, done}
use obmc_yadro_webapp.Redfish.Resolver.{Node, uri_resolver}
use obmc_yadro_webapp.Redfish.Matched.{Serves, Answers}
use obmc_yadro_webapp.Redfish.Resolved.{Resolved, uri_resolver-Resolved}

Resolved-Serves :
    (path_info : List Text) (ctx : RedfishContext) (h : Handled (Option Node)) (m : Node)
    (after : RedfishContext)
    → Resolved path_info ctx h
    → h ≡ done (some m) after
    → Serves path_info m after × Answers ctx after
unfolding Resolved
Resolved-Serves path_info ctx h m after r e = subst (Resolved path_info ctx) e r

-- The node that a path resolves to accepts the last segment of the path, and its static segments
-- stand in the path just before that one, wherever in the tree it was found. Finding it keeps the
-- request and the answer of the context.
pub uri_resolver_sound :
    (path_info : List Text) (n m : Node) (depth : ℕ) (ctx after : RedfishContext)
    → uri_resolver path_info n depth ctx ≡ done (some m) after
    → Serves path_info m after × Answers ctx after
uri_resolver_sound path_info n m depth ctx after e =
    Resolved-Serves path_info ctx (uri_resolver path_info n depth ctx) m after
      (uri_resolver-Resolved path_info n depth ctx) e
