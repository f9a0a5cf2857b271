-- ===== src/Lib.antt =====
-- A model of the services of a security platform, with the properties that make them correct.
--
-- The parts. The gateway (api-gateway) authenticates requests, counts them per route and passes them
-- to the services through circuit breakers. The identity service (iam-service) issues, validates and
-- revokes tokens, asks for second factors, authorizes requests and keeps roles, rules and sessions.
-- The response service (soar-service) loads playbooks, runs their steps and emits audit events. The
-- ledger (ledger-service) logs events on Hyperledger Fabric, through a client and a chaincode. The
-- feedback service (ai-service) stores feedback on alerts, and the dashboard (ui-dashboard) listens
-- on a socket and shows alerts, anomalies, the ledger, roles and sessions. They meet in the tokens (a
-- session that is revoked marks the blacklist that the validation of tokens reads), in the events
-- (the emitter and the ledger make a key of each), and in HTTP calls.
--
-- The files, with the code they model:
--   Base: effects (Base/Js), responses (Base/Http), JSON, texts, integers, lists and tests; Base/Split
--     is `split` at one character, Base/Env the variables of the environment and their defaults.
--   Soar/Playbook: soar-service/src/playbook/types.ts and engine/types.ts. Soar/Engine: engine/index.ts
--     and engine/registry.ts (runPlaybook is run_playbook, get is get_handler). Soar/Backoff:
--     utils/backoff.ts. Soar/Emitter: emitters/kafkaEmitter.ts. Soar/Mapper: playbook/mapper.ts.
--     Soar/Actions: actions/isolateHost.ts, resetPassword.ts and notify.ts; Soar/Actions/Registry:
--     actions/index.ts. Soar/Steps: engine/steps. Soar/Cli: soar-service/src/index.ts (runPlaybookCli is
--     run_playbook_cli). Soar/Config: soar-service/src/config/index.ts and the choice of the command.
--   Iam/Jwt: iam-service/src/lib/jwt.ts (Iam/Jwt/Signing its keys). Iam/Authz: middleware/authz.ts.
--     Iam/Mfa: routes/mfa.ts; Iam/Mfa/Interleaved: its verifications that run at the same time.
--     Iam/Roles, Iam/Rules, Iam/Sessions: routes/roles.ts, rules.ts and sessions.ts; Iam/Access is what
--     these handlers share. Iam/Sessions/Revoked joins the sessions with the tokens, and Iam/Router with
--     the authorization (mountSessionRoutes is handle).
--   Ledger/Contract: ledger-service/chaincode/ledger/src/ledger_contract.ts. Ledger/Client:
--     ledger-service/src/fabricClient.ts. Ledger/Routes: routes/ledger.ts and api/logEvent.ts.
--     Ledger/Server: server.ts, the application in front of them (app is serve). Ledger/Env: env.ts.
--     Ledger/Contract/Refinement states the abstract ledger.
--   Gateway/Auth, Gateway/Metrics, Gateway/Proxy: api-gateway/src/middleware/auth.ts, metrics.ts and
--     lib/proxy.ts. Gateway/Usage: middleware/openaiUsage.ts. Gateway/Sockets: lib/socket.ts. Gateway/App:
--     the chain of server.ts from the authentication on, the routers of routes and config/services.ts
--     (createApp is handle). Gateway/Server: the public routes in front of it (createApp is serve), the
--     origins and the shutdown. Gateway/Metrics/Globals: what metrics.ts sets up when it is loaded.
--     Gateway/Env: config/env.ts.
--   Feedback: ai-service/src/routes/feedback.ts.
--   Dashboard/Socket, Dashboard/Debounce: ui-dashboard/hooks/useWebSocket.ts and useDebounce.ts.
--     Dashboard/Heatmap, Dashboard/Theme, Dashboard/Filters: components/SeverityHeatmap.tsx,
--     DarkModeToggle.tsx and FiltersDrilldown.tsx; Dashboard/Cards: components/IncidentCard.tsx and
--     LiveUpdates.tsx. Dashboard/Overview, Dashboard/Anomalies, Dashboard/Manager:
--     pages/Dashboard.tsx, AnomalyViewer.tsx and IAMManager.tsx. Dashboard/Audit and
--     Dashboard/Throttle: pages/AuditLedger.tsx; Dashboard/Audit/Answers joins it with the ledger's
--     handler. Dashboard/Modal: src/components/FeedbackModal/FeedbackModal.tsx; Dashboard/Modal/Stored
--     joins it with the feedback handler. Dashboard/Fetch is what the pages share.
--     Dashboard/View is the tree of elements that a component renders, with its handlers as values;
--     what each component renders is in its module Render, in Dashboard/Anomalies/Page and in
--     Dashboard/Filters/Menus.
-- A module named after what it proves stands under the component; a Tests module holds test data and
-- runs at concrete inputs. A function of the source keeps its name, in snake_case.
--
-- The model. An asynchronous function is a function from a state to an outcome, a value or a thrown
-- error, and the state it leaves. The state is a record of the module's variables and counters and of
-- a world, which the services act on. Databases, Redis, Kafka, Fabric, casbin, json-logic, zod, ajv,
-- yaml, jose, the clock, timers and hashes are records of functions that the definitions take as
-- arguments; what a theorem relies on of them is among its hypotheses. An await runs to its end before
-- the next statement, so two requests do not interleave; Iam/Mfa/Interleaved cuts the verification of
-- a second factor at its awaits instead, and lets any number of requests take turns. A request handler ends in a reply.
-- The two retry loops run on fuel, one more than the limit of the retries; the last attempt is then
-- reached with fuel to spare, and the clause without fuel is never reached. Times and counts are
-- natural numbers; a difference of clock readings in a step's result is an integer, since clocks may
-- go back.
--
-- A component of the dashboard renders a tree whose elements stand by their names, with the
-- properties that the source gives them, less the keys and references of React; numbers in it that are
-- not natural stand by their texts. Rendering that may throw has an optional result.
--
-- Not modelled: log lines, the construction of clients and servers, what the component libraries and
-- React make of the elements, the requests of the dashboard through React Query, which are parameters
-- or left out, and the programs in Python.
pub mod Base
pub mod Dashboard
pub mod Feedback
pub mod Gateway
pub mod Iam
pub mod Ledger
pub mod Soar
