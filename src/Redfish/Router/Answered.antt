-- ===== src/Redfish/Router/Answered.antt =====
-- How a Redfish request is answered (src/core/route/redfish/router.hpp).
use obmc_yadro_webapp.Prelude.{
  ◌≡◌, ◌⊎◌, refl, sym, ap, inl, inr, Option, none, some, text_eq, text_beq,
}
use mathlib.Core.Path.{subst}
use obmc_yadro_webapp.Prelude.Text.{text}
use obmc_yadro_webapp.Http.{Code}
use obmc_yadro_webapp.Request.{Request, get_uri_path}
use obmc_yadro_webapp.Redfish.Payload.{find_member, members_of}
use obmc_yadro_webapp.Redfish.Context.{RedfishContext, response_set_status}
use obmc_yadro_webapp.Redfish.Messages.{internal_error, uri_not_found}
use obmc_yadro_webapp.Redfish.Messages.Reported.{ListsError, response_add_error-ListsError}
use obmc_yadro_webapp.Redfish.Messages.Base.{message_json}
use obmc_yadro_webapp.Redfish.Messages.Resources.{uri_not_found_message}
use obmc_yadro_webapp.Redfish.Actions.{Handled, done, thrown, undefined, ◌>>=◌}
use obmc_yadro_webapp.Redfish.Resolver.{Node, uri_resolver}
use obmc_yadro_webapp.Redfish.Matched.{Serves, Answers}
use obmc_yadro_webapp.Redfish.Resolved.{Resolved, uri_resolver-Resolved}
use obmc_yadro_webapp.Redfish.Router.{
  Methods, process_node, process_resolved, caught, run, run_context,
}

-- Where the path of a request leads, in the context of the request.
abbrev pub resolution : Node → Request → Handled (Option Node)
resolution root request = uri_resolver request.env.path_info root 0 (run_context request)

-- An exception behind which the answer is an internal error.
pub Failed : RedfishContext → RedfishContext → Type 0
Failed failed after =
    (after ≡ internal_error failed) × (after.answer.response.status ≡ Code.internal_server_error)

-- What a request comes to: the status and the message of an unknown path; an internal error behind an
-- exception of the search for its node; or what the method of the node that serves it has done in the
-- context that the search has left, or an internal error behind an exception of that.
pub Answer : (Node → Methods) → Node → Request → RedfishContext → Type 0
Answer methods_of root request after =
    ((selected : RedfishContext) × (resolution root request ≡ done none selected)
      × (after.answer.response.status ≡ Code.not_found)
      × ListsError (uri_not_found_message (get_uri_path request)) after)
    ⊎ ((failed : RedfishContext) × (resolution root request ≡ thrown failed)
        × Answers (run_context request) failed
        × Failed failed after)
    ⊎ ((n : Node) × (selected : RedfishContext) × (resolution root request ≡ done (some n) selected)
        × Serves request.env.path_info n selected
        × Answers (run_context request) selected
        × ((process_node (methods_of n) request.env.request_method selected ≡ done tt after)
            ⊎ ((failed : RedfishContext) × (process_node (methods_of n) request.env.request_method
                    selected
                  ≡ thrown failed)
                × Failed failed after)))

-- What the whole of a request comes to, with the only way in which it is undefined.
pub Run : (Node → Methods) → Node → Request → Handled (Unit {0}) → Type 0
Run methods_of root request ran =
    ((ran ≡ undefined)
      × ((n : Node) × (selected : RedfishContext) × (resolution root request
            ≡ done (some n) selected)
          × (process_node (methods_of n) request.env.request_method selected ≡ undefined)))
    ⊎ ((after : RedfishContext) × (ran ≡ done tt after) × Answer methods_of root request after)

not_found-ListsError :
    (ctx : RedfishContext)
    → find_member (text "error") ctx.answer.payload ≡ none
    → ((uri_not_found ctx).answer.response.status ≡ Code.not_found)
      × ListsError (uri_not_found_message (get_uri_path ctx.request)) (uri_not_found ctx)
unfolding uri_not_found uri_not_found_message message_json find_member members_of text_beq
    response_set_status
not_found-ListsError ctx fresh = (
  refl,
  response_add_error-ListsError (uri_not_found_message (get_uri_path ctx.request)) _ _
      (response_set_status Code.not_found ctx) fresh refl refl,
)

missing-Run :
    (methods_of : Node → Methods) (root : Node) (request : Request) (selected : RedfishContext)
    → resolution root request ≡ done none selected
    → Answers (run_context request) selected
    → Run methods_of root request (caught (process_resolved methods_of none selected))
unfolding Run Answer Answers caught process_resolved run_context find_member text_beq
missing-Run methods_of root request selected e (same, answer) =
    let fresh : find_member (text "error") selected.answer.payload ≡ none =
      ap (λ a. find_member (text "error") a.payload) answer in
    let shown = not_found-ListsError selected fresh in
    inr (
      uri_not_found selected,
      refl,
      inl (
        selected,
        e,
        shown.0,
        subst (λ r. ListsError (uri_not_found_message (get_uri_path r)) (uri_not_found selected))
            same shown.1,
      ),
    )

failed-Run :
    (methods_of : Node → Methods) (root : Node) (request : Request) (failed : RedfishContext)
    → resolution root request ≡ thrown failed
    → Answers (run_context request) failed
    → Run methods_of root request (caught (thrown failed))
unfolding Run Answer Failed caught internal_error
failed-Run methods_of root request failed e kept =
    inr (internal_error failed, refl, inr (inl (failed, e, kept, (refl, refl))))

found-Run :
    (methods_of : Node → Methods) (root : Node) (request : Request) (n : Node)
    (selected : RedfishContext) (handled : Handled (Unit {0}))
    → resolution root request ≡ done (some n) selected
    → Serves request.env.path_info n selected
    → Answers (run_context request) selected
    → process_node (methods_of n) request.env.request_method selected ≡ handled
    → Run methods_of root request (caught handled)
unfolding Run Answer Failed caught internal_error
found-Run methods_of root request n selected (done ended after) e serves kept h =
    inr (after, refl, inr (inr (n, selected, e, serves, kept, inl h)))
found-Run methods_of root request n selected (thrown failed) e serves kept h = inr (
  internal_error failed,
  refl,
  inr (inr (n, selected, e, serves, kept, inr (failed, h, (refl, refl)))),
)
found-Run methods_of root request n selected undefined e serves kept h =
    inl (refl, (n, selected, e, h))

request_kept :
    (request : Request) (selected : RedfishContext)
    → Answers (run_context request) selected
    → selected.request ≡ request
unfolding Answers run_context
request_kept request selected kept = kept.0

Resolved-Run :
    (methods_of : Node → Methods) (root : Node) (request : Request)
    (resolved : Handled (Option Node))
    → resolution root request ≡ resolved
    → Resolved request.env.path_info (run_context request) resolved
    → Run methods_of root request (caught (resolved >>= process_resolved methods_of))
unfolding Resolved process_resolved
Resolved-Run methods_of root request (done none selected) e r =
    missing-Run methods_of root request selected e r
Resolved-Run methods_of root request (done (some n) selected) e (serves, kept) =
    found-Run methods_of root request n selected
      (process_node (methods_of n) selected.request.env.request_method selected) e serves kept
      (ap (λ q. process_node (methods_of n) q.env.request_method selected)
        (sym (request_kept request selected kept)))
Resolved-Run methods_of root request (thrown failed) e r =
    failed-Run methods_of root request failed e r
Resolved-Run methods_of root request undefined e r = absurd r

-- Every request is answered, unless its node does something undefined: no exception leaves `run`. A
-- path without a node is answered 404 with a message that names the path. A path with one, which then
-- serves the path, is answered by the method of the request, in the context that the search has left
-- with its answer as it was. Behind an exception of the search or of the method the answer is an
-- internal error.
pub run_lem :
    (methods_of : Node → Methods) (root : Node) (request : Request)
    → Run methods_of root request (run methods_of root request)
unfolding run
run_lem methods_of root request =
    Resolved-Run methods_of root request (resolution root request) refl
      (uri_resolver-Resolved request.env.path_info root 0 (run_context request))
