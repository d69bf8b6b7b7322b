-- ===== src/Lib.antt =====
-- Verification library of obmc-yadro-webapp, the web service of YADRO's OpenBMC firmware. A request
-- comes in over FastCGI. The router reads the session files, lets authorization decide, and hands a
-- granted request to the handler of its route; handlers answer from entities, whose fields are
-- computed from properties on D-Bus.
--
-- The modules and the code that they stand for:
--   Prelude        Boolean tests, equality as an instance, association lists for maps, byte strings.
--   Http           src/http/headers.hpp: status codes, their classes, the status line.
--   Utils          src/core/helpers/utils.hpp: text helpers, URL encoding, net masks.
--   Json           JSON values, as src/service/session.cpp reads and writes them.
--   Session        src/service/session.hpp and session.cpp. Types: the store, `SessionStore`, and the
--                  world around it (`ConfigFile`'s fields and the files by path). Store: the operations
--                  on sessions. FromJson, Config, Read: the two configuration files. Step: every
--                  operation as a step of a relation, and the invariant. Sweep, Expiry, Tokens,
--                  Persist: what a sweep keeps, who can log in, how sessions come about, what
--                  outlives a restart.
--   Request        src/core/request.hpp and request.cpp.
--   Response       src/core/response.hpp and response.cpp.
--   Authorization  src/service/authorization.hpp: the whitelist, the four methods in their order, the
--                  answer to a request without a session. Evidence, Attempts, Sound and Denied are
--                  its theorems.
--   Router         src/core/router.hpp and router.cpp: registration, lookup, and `process`.
--   Redfish        src/core/route/redfish. Resolver: the search for the node of a path in node.hpp,
--                  which selects instances in the context; Matched, Resolved and Laws are on it.
--                  Payload: the payload of response.cpp, its errors (Errors) and its body (Flash).
--                  Context: `RedfishContext` of response.hpp, with the instance that a path selects
--                  (Select, Verified). Messages: error_messages.cpp, and what its reports leave
--                  (Reported). Actions: the getters of node.hpp as records of a name and a function
--                  on the context, over a result that is done, thrown or undefined; Entities and
--                  Links are the kinds of getters, Contained, Collected and Links.Templates their
--                  theorems. Router: a node's methods and the handler of router.hpp, how it answers
--                  in Router.Answered.
--   Status         src/status_provider.hpp: health, rolled up over relations and associations.
--   Sensors        src/sensors.hpp: state, status, group, unit and names of a sensor.
--   Html           src/core/route/redfish/response.cpp: how a string is escaped on a page. Decode and
--                  Encoding are on the decoder, Safe, Loop, Append and Utf8 on the loop. Integer
--                  and Page: the page of a JSON value, with what can stand on it in Page.Markup.
--   Entity         src/core/entity: entity_interface.hpp, entity.hpp, entity.cpp, entity_manager.cpp.
--                  Fields, instances and conditions; Merge: supplementing an instance. Store: the
--                  cache of an entity, with `InstanceKind` as what the kinds of instances differ in
--                  and Kinds for the plain one; Select, Selected and Occurs are on the instances that a
--                  query is given. Relation, Source and Manager: related instances, the ways of filling,
--                  the registry.
--   Dbus           src/core/entity/dbus_query.cpp and dbus_query.hpp: searches, instances of objects
--                  and the signals of added and removed objects; Kind fills `InstanceKind`. Connect:
--                  src/core/connect/dbus_connect.cpp, the names of services.
--   Formats        src/formatters.hpp and the formatters in the headers of the entities. Values: those
--                  that every entity can use. A module per header has its enumerations with their
--                  dictionaries, Parts the formatters without one, Groups the groups of an account.
--                  Pcie.Functions: the computed fields of src/pcie.hpp, with Follow and Classes on
--                  the three loops that set the class of each function; Entity.Fields has such loops for any entity.
--
-- Names are the source's in snake_case. An operation that changes an object takes its value and
-- returns the new one; a null pointer or an exception is `none`. `std::string` is a list of byte
-- codes. Maps are association lists; the order in which an unordered map is walked is not fixed by
-- the source, and is here the order of insertion. A map with numbers as keys is ordered. Loops are
-- structural recursion on the list that they walk, or run on fuel: `to_string`, `count_digits` and
-- `fill_digits` on one more than the number, the loop over a string in Html on two turns for each
-- byte and one more, as a byte is read again only behind an unfinished code point, and the search
-- for a service's name on the 17 turns after which the source throws.
--
-- Parameters stand for code outside the repository: `Crypto` for OpenSSL's comparison and decoding
-- (the comparison of equal sizes is 0 exactly on equal contents), `Services` for PAM, the random
-- generator and the clock, `Draws` for the generator's indices and failures, and in the router the
-- handlers and `std::hash`. One call reads the clock once, but for
-- the filling of a source with a short life. In Dbus the bus's answers, the combined hash
-- of a service and a path, and what a kind of query does differently are the record `Query` and
-- arguments. A floating number is kept as its text; on a page `std::isfinite` and the text that
-- nlohmann's `to_chars` makes are parameters. What a provider gives is a list, and its own run of
-- queries counts by how it ended. The order by which
-- `std::sort` puts JSON values is the parameter `sort`, and `castEnumToString` is a function. In
-- Formats so are `std::stoul` in base 16, `std::to_string` of a floating number and `std::put_time`.
--
-- Not modelled: the listeners of changed properties, the calls of sdbusplus, the generated nodes of
-- Redfish with the conditions of their parameters, GraphQL, the text of JSON, start-up, the generator of
-- Redfish nodes, and of the headers of entities all but the formatters, the computed fields of PCIe
-- devices, the sensors and the health status. File permissions, directories, the lock around reading
-- and log messages are left out, and times do not wrap.
pub mod Prelude
pub mod Http
pub mod Utils
pub mod Html
pub mod Json
pub mod Session
pub mod Request
pub mod Response
pub mod Authorization
pub mod Router
pub mod Redfish
pub mod Status
pub mod Sensors
pub mod Entity
pub mod Dbus
pub mod Formats
