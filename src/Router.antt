-- ===== src/Router.antt =====
-- Finding the handler of a request and running it (src/core/router.hpp and src/core/router.cpp).
-- Handlers and `std::hash` are parameters. Handlers read the request only.
pub mod Laws
mod Tests
use obmc_yadro_webapp.Prelude.{
  ℕ, ◌≡◌, Bool, true, false, Option, none, some, List, [], ◌∷◌, ◌++◌, if◌then◌else◌, Eq, nat_eq,
  lookup, emplace,
}
use obmc_yadro_webapp.Prelude.Text.{Text, text, to_string}
use obmc_yadro_webapp.Http.{not_found}
use obmc_yadro_webapp.Utils.{to_lower}
use obmc_yadro_webapp.Session.Types.{World}
use obmc_yadro_webapp.Session.Read.{read_data}
use obmc_yadro_webapp.Request.{Request, get_uri_path}
use obmc_yadro_webapp.Response.{Response, new_response, set_status, set_header, total_size}
use obmc_yadro_webapp.Authorization.{Services, Verdict, authenticate}

-- `IRouteHandler`: an object with a state of its own, and its two operations.
pub record IRouteHandler : Type 1 where
  pub Object : Type 0
  pub object : Object
  pub run : Object → World → Request → World × Response
  pub pre_handlers : Object → Request → Object × Bool

abbrev pub DynamicRoutePatternFn : Type 0
DynamicRoutePatternFn = List Text → Bool

-- The static routes by the hash of their path, and the dynamic ones in the order of registration.
pub record Routes : Type 1 where
  pub router_handlers : List (ℕ × (Text → IRouteHandler))
  pub dynamic_router_handlers : List (DynamicRoutePatternFn × (Request → IRouteHandler))

pub record Router : Type 1 where
  pub request_object : Request
  pub handler : Option IRouteHandler

-- Calls `preHandlers` of a handler and stores it.
unfoldable pub prepare : Router → IRouteHandler → Router × Bool
prepare router handler =
    let (object, result) = handler.pre_handlers handler.object router.request_object in
    (record router { handler = some (record handler { object = object }) }, result)

unfoldable pub register_dynamic_uri :
    DynamicRoutePatternFn → (Request → IRouteHandler) → Routes → Routes
register_dynamic_uri rule builder routes = record routes {
  dynamic_router_handlers = routes.dynamic_router_handlers ++ (rule, builder) ∷ [];
}

-- The first dynamic route whose condition holds.
unfoldable pub find_dynamic :
    List Text
    → List (DynamicRoutePatternFn × (Request → IRouteHandler))
    → Option (Request → IRouteHandler)
find_dynamic path_info [] = none
find_dynamic path_info ((condition, builder) ∷ routes) =
    if condition path_info then some builder else find_dynamic path_info routes

module _ (hash : Text → ℕ) where
  -- `none` is the exception: the route is already registered.
  unfoldable pub register_uri : Text → (Text → IRouteHandler) → Routes → Option Routes
  register_uri pattern builder routes =
      let key = hash (to_lower pattern) in
      elim (lookup key routes.router_handlers) [
        | some registered ↦ none
        | none ↦
            some (record routes { router_handlers = emplace key builder routes.router_handlers })
      ]

  -- A handler that is set from an earlier call is prepared once more, whatever it answers.
  unfoldable pub pre_handler : Routes → Router → Router × Bool
  unfolding prepare find_dynamic
  pre_handler routes router =
      let again : Router = elim router.handler [
        | none ↦ router
        | some handler ↦ (prepare router handler).0
      ] in
      let uri = to_lower (get_uri_path router.request_object) in
      elim (lookup (hash uri) routes.router_handlers) [
        | some builder ↦ prepare again (builder uri)
        | none ↦
            elim (find_dynamic router.request_object.env.path_info routes.dynamic_router_handlers) [
              | some builder ↦ prepare again (builder router.request_object)
              | none ↦ (again, true)
            ]
      ]

-- `date` is the formatted current date.
unfoldable pub set_general_headers : Text → Response → Response
set_general_headers date response =
    set_header (text "Date") date
      (set_header (text "Content-Length") (to_string (total_size response)) response)

unfoldable pub process : Services → Text → Text → Router → World → World × Response
process services uuid date router w =
    let verdict =
      authenticate services (read_data services.now uuid w) router.request_object new_response in
    if verdict.granted
    then elim router.handler [
      | none ↦ (verdict.world, set_status not_found (set_general_headers date verdict.response))
      | some handler ↦
          let (w', response) = handler.run handler.object verdict.world verdict.request in
          (w', set_general_headers date response)
    ]
    else (verdict.world, verdict.response)
