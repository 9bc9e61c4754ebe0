-- ===== src/Lib.antt =====
-- The OSM device adapter lets scoreboards, which have no browser, read the scores of a scout
-- section from Online Scout Manager (OSM). A device asks for a code, a user enters the code on a web
-- page and signs in to OSM, and the device polls for its token. With the token it reads the scores,
-- which are cached, and listens on a WebSocket for changes. This library models the program's
-- services in internal/, as functions on explicit state.
--
-- The parts and their files:
--   Prelude: Boolean tests, lists, Go ints, and Go maps as association lists and lists of texts.
--   Db: the rows and the queries of internal/db/models.go, devicecode, devicesession, allowedclient,
--     websession, adhocpatrol and sectionsettings. A table is a list of rows; an update maps over
--     it. AdhocPatrols has beside its queries the specification that they implement (Spec): an
--     ordered list of teams for each user.
--   Redis: CheckRateLimit of internal/db/redis.go with its script. A key past its expiry is gone.
--   DeviceFlow: internal/handlers/device_oauth.go and oauth_web.go. World has the stores, Faults
--     says which calls fail, and each handler takes the world to the world and a reply:
--     DeviceAuthorizeHandler is Authorize.device_authorize, DeviceTokenHandler is
--     Token.device_token, the pages are in Web and Web/Authorization. Events runs any sequence of
--     requests, Invariant is about such sequences.
--   Osm: internal/osm. Request is Request of request.go with the blocks of
--     internal/db/metrics_store.go (Blocks); Patrols and Terms are FetchPatrolScores and
--     FetchActiveTermForSection on OSM's answers.
--   Scores: internal/services. Locks is PatrolLockSet, Update is UpdateScores, Cache is
--     GetPatrolScores for a section of OSM with the refresh of its term, and Service the whole of
--     it, with the ad-hoc section and the device's settings.
--   Hub: internal/websocket. Registry has the two maps that the hub's mutex guards and what a
--     registration and an unregistration do under it; Subscriptions adds the Redis subscriptions,
--     Delivery the send channels; Sections has the critical sections under the mutex, in any
--     order, since everything outside it may come between two of them; Sessions has
--     RegisterDeviceAndSubscribe with its failures, undisturbed from its start to its end, and
--     sequences of connections, disconnections and deliveries of which none overlaps another.
--   Auth: Refresh is internal/tokenrefresh with RefreshToken of internal/osm/oauthclient, Device
--     is internal/deviceauth with its middleware, Web is internal/webauth with the middleware for
--     sessions and the chain of internal/server/server.go, Remote is the proxy's metadata of
--     internal/middleware/remote.go.
--   Admin: internal/handlers/admin_*.go. Login is admin_oauth.go, Adhoc admin_adhoc.go,
--     Scoreboards admin_scoreboards.go and admin_timer.go, Scores and Settings admin_api.go. World
--     has what their handlers share, Paths the parameters in their paths.
--   Tests: concrete runs.
--
-- The device flow uses the limiter and the stores; the scores use the locks, OSM's answers and the
-- device codes; a device authenticates with the token that the flow gave it. An admin request passes
-- the chain of Auth.Web and then its handler, which reads and writes the stores and publishes
-- messages to the channels that the hub delivers from.
--
-- Times are nanoseconds on the native numbers. Go ints are integers, with wrap-around where two are
-- added or a duration is made of a number of seconds that comes from outside (OSM's headers and the
-- lifetime of its tokens); the configuration's numbers of seconds do not wrap. User codes and paths are lists of bytes, other
-- texts are strings. Identifiers of patrols in decimal stand as numbers. No function needs fuel: the
-- loops run over lists, and the one retry of a request is a second pass. Random draws, strconv.Atoi,
-- the printing of numbers, time.Parse, OSM's answers and the failures of the calls of PostgreSQL and
-- Redis that the handlers make are arguments. The queries of one operation are one step: what
-- another request does between them (between GET and DEL of the state of a login, or between the
-- count and the insert of a patrol) is left out.
--
-- Not modelled: the HTML templates, logging and metrics, the sockets' reads and writes, the mock
-- servers, start-up and configuration, which have no logic of their own; the JSON texts, which stand
-- as what they decode to; the handler that turns the score service's errors into statuses; and the
-- admin pages for the session and the list of sections, which only read.
pub mod Prelude
pub mod Db
pub mod Redis
pub mod Osm
pub mod Scores
pub mod Auth
pub mod Admin
pub mod Tests
pub mod DeviceFlow
pub mod Hub
