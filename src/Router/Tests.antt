-- ===== src/Router/Tests.antt =====
-- The theorems on routing, with a handler that answers a fixed text and a hash that is the size.
use obmc_yadro_webapp.Prelude.{
  ◌≡◌, refl, true, false, none, some, List, [], ◌∷◌, length, lookup, emplace, if◌then◌else◌, nat_eq,
}
use obmc_yadro_webapp.Prelude.Text.{Text, text}
use obmc_yadro_webapp.Http.{ok, temporary_redirect, unauthorized}
use obmc_yadro_webapp.Utils.{to_lower}
use obmc_yadro_webapp.Session.Tests.{one_world}
use obmc_yadro_webapp.Session.Read.{read_data, read_all, read_file, generate_uuid}
use obmc_yadro_webapp.Request.{get_uri_path, is_browser_request}
use obmc_yadro_webapp.Response.{new_response}
use obmc_yadro_webapp.Authorization.Tests.{
  strict, plain_request, token_request, plain_denied, token_granted,
}
use obmc_yadro_webapp.Router.{
  IRouteHandler, Routes, Router, prepare, register_uri, pre_handler, process,
}
use obmc_yadro_webapp.Router.Laws.{
  verdict_of, process_denied, handled, Sent, process_granted, register_uri-pre_handler,
}

abbrev greeter : Text → IRouteHandler
greeter uri = record {
  Object = Unit;
  object = tt;
  run = λ o w r. (w, record new_response { status = ok; internal_buffer = uri });
  pre_handlers = λ o r. (tt, true);
}

abbrev no_routes : Routes
no_routes = record { router_handlers = []; dynamic_router_handlers = [] }

abbrev router : List Text → Router
router path_info = record {
  request_object = record plain_request {
    env = record plain_request.env { path_info = path_info };
  };
  handler = none;
}

abbrev graphql : Router
graphql = router (text "API" ∷ text "GraphQL" ∷ [])

registered :
    register_uri length (text "/api/graphql/") greeter no_routes
    ≡ some (record no_routes { router_handlers = (13, greeter) ∷ [] })
unfolding register_uri to_lower lookup emplace
registered = refl

loaded : read_data strict.now (text "U") one_world ≡ one_world
unfolding read_data read_all read_file generate_uuid lookup
loaded = refl

denied : (verdict_of strict (text "U") plain_request one_world).granted ≡ false
denied = rw loaded plain_denied

granted : (verdict_of strict (text "U") token_request one_world).granted ≡ true
granted = rw loaded token_granted

process_denied_example :
    let with =
      process strict
        (text "U")
        (text "D")
        (record { request_object = plain_request; handler = some (greeter []) })
        one_world in
    (with
      ≡ process strict
          (text "U")
          (text "D")
          (record { request_object = plain_request; handler = none })
          one_world)
    × (with.1.status
        ≡ (if is_browser_request plain_request then temporary_redirect else unauthorized))
    × (with.1.internal_buffer ≡ [])
process_denied_example =
    process_denied strict (text "U") (text "D") plain_request (some (greeter [])) none one_world
      denied

process_granted_example :
    Sent
      (text "D")
      (handled (some (greeter (text "hi"))) (verdict_of strict (text "U") token_request one_world))
      (process strict
        (text "U")
        (text "D")
        (record { request_object = token_request; handler = some (greeter (text "hi")) })
        one_world)
process_granted_example =
    process_granted strict (text "U") (text "D") token_request (some (greeter (text "hi")))
      one_world granted

at_graphql : to_lower (get_uri_path graphql.request_object) ≡ to_lower (text "/api/graphql/")
unfolding to_lower get_uri_path
at_graphql = refl

register_uri-pre_handler_example :
    (pre_handler length (record no_routes { router_handlers = (13, greeter) ∷ [] }) graphql
      ≡ prepare graphql (greeter (to_lower (text "/api/graphql/"))))
    × (register_uri length
          (text "/api/graphql/")
          greeter
          (record no_routes { router_handlers = (13, greeter) ∷ [] })
        ≡ none)
register_uri-pre_handler_example =
    register_uri-pre_handler length (text "/api/graphql/") greeter greeter no_routes
      (record no_routes { router_handlers = (13, greeter) ∷ [] }) graphql registered at_graphql refl
