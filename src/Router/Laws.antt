-- ===== src/Router/Laws.antt =====
-- Which handler serves a request, and that only a granted request reaches it (src/core/router.cpp).
use obmc_yadro_webapp.Prelude.{
  ℕ, ◌≡◌, refl, sym, ap, ◌∙◌, inl, inr, true, false, Option, none, some, List, [], ◌∷◌, ◌++◌, arith,
  ◌==◌, nat_eq, beq_refl, if◌then◌else◌, lookup, emplace, lookup-emplace, lookup-emplace_other,
  length, Bool-cases, Option-cases,
}
use obmc_yadro_webapp.Prelude.Text.{Text, text, to_string, of_digits, of_digits-to_string}
use obmc_yadro_webapp.Http.{header, not_found, temporary_redirect, unauthorized}
use obmc_yadro_webapp.Utils.{to_lower}
use obmc_yadro_webapp.Session.Types.{World}
use obmc_yadro_webapp.Session.Read.{read_data}
use obmc_yadro_webapp.Request.{Request, get_uri_path, is_browser_request}
use obmc_yadro_webapp.Response.{Response, new_response, set_status, set_header, total_size}
use obmc_yadro_webapp.Authorization.{Services, Verdict, authenticate}
use obmc_yadro_webapp.Authorization.Denied.{authenticate_denied}
use obmc_yadro_webapp.Router.{
  IRouteHandler, DynamicRoutePatternFn, Routes, Router, prepare, register_uri, register_dynamic_uri,
  find_dynamic, pre_handler, set_general_headers, process,
}

-- The verdict on a request, once the files are read.
abbrev pub verdict_of : Services → Text → Request → World → Verdict
verdict_of services uuid r w = authenticate services (read_data services.now uuid w) r new_response

-- A request that is not granted reaches no handler: whatever handler is set, the answer and the
-- state after it are the same. The answer is 307 to a browser and 401 to any other client, and its
-- body is empty.
pub process_denied :
    (services : Services) (uuid date : Text) (r : Request) (h k : Option IRouteHandler) (w : World)
    → (verdict_of services uuid r w).granted ≡ false
    → (process services uuid date (record { request_object = r; handler = h }) w
        ≡ process services uuid date (record { request_object = r; handler = k }) w)
      × ((process services uuid date (record { request_object = r; handler = h }) w).1.status
          ≡ (if is_browser_request r then temporary_redirect else unauthorized))
      × ((process services uuid date
            (record { request_object = r; handler = h })
            w).1.internal_buffer
          ≡ [])
unfolding process
process_denied services uuid date r h k w e =
    let (empty, status, body, files) =
      authenticate_denied services (read_data services.now uuid w) r new_response e in
    rw e (refl, status, body)

-- The answer of the handler of a granted request, or that there is none.
abbrev pub handled : Option IRouteHandler → Verdict → World × Response
handled none verdict = (verdict.world, record verdict.response { status = not_found })
handled (some h) verdict = h.run h.object verdict.world verdict.request

-- The answer to a granted request as it is sent: its status, type and body are kept, and behind its
-- headers stand the length of the body that is sent, as a decimal number, and the date.
pub Sent : Text → World × Response → World × Response → Type 0
Sent date (w, answer) (w', sent) =
    (w' ≡ w)
    × (sent.status ≡ answer.status)
    × (sent.content_type ≡ answer.content_type)
    × (sent.internal_buffer ≡ answer.internal_buffer)
    × ((number : Text) × (sent.header_buffer
          ≡ (answer.header_buffer ++ (text "Content-Length: " ++ (number ++ 13 ∷ 10 ∷ [])))
            ++ (text "Date: " ++ (date ++ 13 ∷ 10 ∷ [])))
        × (of_digits 0 number ≡ length sent.internal_buffer))

general_headers-Sent :
    (date : Text) (w : World) (answer : Response)
    → Sent date (w, answer) (w, set_general_headers date answer)
unfolding Sent set_general_headers set_header header total_size
general_headers-Sent date w answer = (
  refl,
  refl,
  refl,
  refl,
  (
    to_string (length answer.internal_buffer),
    refl,
    of_digits-to_string (length answer.internal_buffer),
  ),
)

-- A granted request is answered by its handler, which sees the request with the session that
-- authentication has set, or is answered 404 with the state that authentication has left. The answer
-- is sent as it is, with the length of its body and the date behind its headers.
pub process_granted :
    (services : Services) (uuid date : Text) (r : Request) (h : Option IRouteHandler) (w : World)
    → (verdict_of services uuid r w).granted ≡ true
    → Sent date
        (handled h (verdict_of services uuid r w))
        (process services uuid date (record { request_object = r; handler = h }) w)
unfolding process set_status set_general_headers set_header total_size
process_granted services uuid date r none w e =
    rw (e, process)
      (general_headers-Sent date (verdict_of services uuid r w).world
        (record (verdict_of services uuid r w).response { status = not_found }))
process_granted services uuid date r (some h) w e =
    rw (e, process)
      (general_headers-Sent date
        (h.run h.object (verdict_of services uuid r w).world
          (verdict_of services uuid r w).request).0
        (h.run h.object (verdict_of services uuid r w).world
          (verdict_of services uuid r w).request).1)

-- A path with no static route goes to the first dynamic route whose condition holds: routes
-- that are registered later are only reached where no earlier one matches.
pub find_dynamic_lem :
    (rule : DynamicRoutePatternFn) (builder : Request → IRouteHandler) (path_info : List Text)
    (routes : Routes)
    → find_dynamic path_info (register_dynamic_uri rule builder routes).dynamic_router_handlers
      ≡ elim (find_dynamic path_info routes.dynamic_router_handlers) [
        | some first ↦ some first
        | none ↦ if rule path_info then some builder else none
      ]
unfolding register_dynamic_uri find_dynamic
find_dynamic_lem rule builder path_info routes = go routes.dynamic_router_handlers
  where
    go :
        (rs : List (DynamicRoutePatternFn × (Request → IRouteHandler)))
        → find_dynamic path_info (rs ++ (rule, builder) ∷ []) ≡ elim (find_dynamic path_info rs) [
          | some first ↦ some first
          | none ↦ if rule path_info then some builder else none
        ]
    go [] = refl
    go ((condition, first) ∷ rs) = elim (Bool-cases (condition path_info)) [
      | inl holds ↦ rw holds refl
      | inr fails ↦ rw fails (go rs)
    ]

module _ (hash : Text → ℕ) where
  pre_handler_static :
      (routes : Routes) (router : Router) (builder : Text → IRouteHandler)
      → lookup (hash (to_lower (get_uri_path router.request_object))) routes.router_handlers
        ≡ some builder
      → router.handler ≡ none
      → pre_handler hash routes router
        ≡ prepare router (builder (to_lower (get_uri_path router.request_object)))
  unfolding pre_handler
  pre_handler_static routes router builder found fresh = rw (found, fresh, pre_handler) refl

  -- The answer depends only on the static route of the path and on the dynamic routes.
  pre_handler-cong :
      (routes routes' : Routes) (router : Router)
      → lookup (hash (to_lower (get_uri_path router.request_object))) routes'.router_handlers
        ≡ lookup (hash (to_lower (get_uri_path router.request_object))) routes.router_handlers
      → routes'.dynamic_router_handlers ≡ routes.dynamic_router_handlers
      → pre_handler hash routes' router ≡ pre_handler hash routes router
  unfolding pre_handler
  pre_handler-cong routes routes' router static dynamic =
      elim (Option-cases
        (lookup (hash (to_lower (get_uri_path router.request_object))) routes.router_handlers)) [
          | inl missing ↦ rw (static ∙ missing, missing, dynamic, pre_handler) refl
          | inr (builder, found) ↦ rw (static ∙ found, found, pre_handler) refl
        ]

  added :
      (pattern : Text) (builder : Text → IRouteHandler) (routes routes' : Routes)
      → register_uri hash pattern builder routes ≡ some routes'
      → (lookup (hash (to_lower pattern)) routes.router_handlers ≡ none)
        × (record routes {
          router_handlers = emplace (hash (to_lower pattern)) builder routes.router_handlers;
        }
            ≡ routes')
  unfolding register_uri
  added pattern builder routes routes' e =
      elim (Option-cases (lookup (hash (to_lower pattern)) routes.router_handlers)) [
        | inr (old, found) ↦
            let refused : register_uri hash pattern builder routes ≡ none =
              rw (found, register_uri) refl in
            absurd (ground arith)
        | inl missing ↦ let given = rw (missing, register_uri) at e in (missing, cc given)
      ]

  present :
      (pattern : Text) (builder : Text → IRouteHandler) (routes routes' : Routes)
      → register_uri hash pattern builder routes ≡ some routes'
      → lookup (hash (to_lower pattern)) routes'.router_handlers ≡ some builder
  present pattern builder routes routes' e =
      let key = hash (to_lower pattern) in
      let (missing, here) = added pattern builder routes routes' e in
      rw (sym here)
        (rw (lookup-emplace key key builder routes.router_handlers, missing, beq_refl key) refl)

  -- Once a path is registered, a request to it, in any letter case, goes to the new handler, and a
  -- second registration of the path is refused.
  pub register_uri-pre_handler :
      (pattern : Text) (builder builder' : Text → IRouteHandler) (routes routes' : Routes)
      (router : Router)
      → register_uri hash pattern builder routes ≡ some routes'
      → to_lower (get_uri_path router.request_object) ≡ to_lower pattern
      → router.handler ≡ none
      → (pre_handler hash routes' router ≡ prepare router (builder (to_lower pattern)))
        × (register_uri hash pattern builder' routes' ≡ none)
  unfolding register_uri
  register_uri-pre_handler pattern builder builder' routes routes' router e same fresh =
      let found = present pattern builder routes routes' e in
      (
        pre_handler_static routes' router builder (rw same found) fresh
            ∙ ap (λ uri. prepare router (builder uri)) same,
        rw (found, register_uri) refl,
      )

  -- Registering a path changes nothing for the requests whose path has another hash.
  pub register_uri_other :
      (pattern : Text) (builder : Text → IRouteHandler) (routes routes' : Routes) (router : Router)
      → register_uri hash pattern builder routes ≡ some routes'
      → (hash (to_lower pattern) == hash (to_lower (get_uri_path router.request_object))) ≡ false
      → pre_handler hash routes' router ≡ pre_handler hash routes router
  register_uri_other pattern builder routes routes' router e other =
      let (missing, here) = added pattern builder routes routes' e in
      let uri = hash (to_lower (get_uri_path router.request_object)) in
      pre_handler-cong routes routes' router
        (rw (sym here)
          (lookup-emplace_other (hash (to_lower pattern)) uri builder routes.router_handlers other))
        (ap (λ v. v.dynamic_router_handlers) (sym here))
