-- ===== src/Lib.antt =====
-- ktayl underwriting: a model of the underwriting workbench under app/, and what makes it correct.
--
-- The service takes in a submission (a counterparty and a risk), assesses it against the current appetite
-- ruleset, prices it with the current rate table, and binds an accepted and quoted risk: it has the policy
-- service create, submit and activate a policy, publishes an event, and stores a binding. Each of these appends
-- an audit entry. A bound submission takes no further decision and no further quote.
--
-- Which file models what:
--   Prelude, Prelude/*     Boolean tests, lists, integers over the native numbers, and texts.
--   Decimal, Decimal/*     Python's decimal.Decimal as app/rating/engine.py uses it, with the roundings.
--   Enums                  app/enums.py
--   Appetite, Appetite/*   app/appetite/rules.py (`RulesetSpec`, `from_rules`, `SubmissionFacts`, `assess`) and the
--                          payload `V1_RULES` of app/appetite/repository.py
--   Rating/Engine          `rate` of app/rating/engine.py, one function per stage; its children hold the proofs, and
--                          Rating/Engine/Formula the price as a formula without stages and line items
--   Rating/Tables          `RateTableSpec.from_rules`, and `V1_RULES` and `V2_RULES` of app/rating/repository.py
--   Store/Rows             the ORM models app/*/models.py, the committed tables `Db`, and what a request may raise
--   Store/Queries          the repositories app/*/repository.py and the reads of app/submission/service.py
--   Store/Order            ORDER BY
--   Workbench/Submissions  `create_submission` and `assess_submission` of app/submission/service.py
--   Workbench/Quotes       `quote_submission` and `_facts_of` of app/rating/service.py
--   Workbench/Dearer       what a quote costs against the insured value
--   Workbench/Schemas      the schemas of app/submission/schemas.py that replies have
--   Workbench/Inbox        `list_submissions` of app/submission/service.py; Workbench/InboxSpec the inbox without a join,
--                          InboxSpec/Refines the one against the other
--   Bind/Interfaces        the protocols of app/bind/policy_client.py and app/bind/publisher.py
--   Bind/HttpClient        `HttpPolicyServiceClient` of app/bind/policy_client.py; Bind/Conflicts what it makes of a
--                          policy service that was called before, Bind/Rebind a bind after one
--                          that failed on its way, by the page of policies that answers the lookup
--   Bind/Token             the token cache of app/bind/token.py
--   Bind/Nats              `NatsBoundRiskPublisher` of app/bind/publisher.py; Bind/NatsRetries what its retries come to
--   Bind/Service           app/bind/service.py; Bind/Outcomes what a bind answers and stores,
--                          Bind/Endings and Bind/Ends each way in which it ends
--   Api/Routes             the four endpoints of app/api/routes.py that write, with their status codes
--   Api/Reads              the endpoints that read
--   Api/Auth               app/api/auth.py; Api/Guard the scope check and the actor as dependencies of the endpoints
--   System/Run             the seeding of app/main.py and the seed functions of the repositories, and a run: a list of
--                          requests, served one after another
--   System/*               the specification of a step (System/Steps), that requests refine it, and what follows
--   System/Answers         the quote route against the rate table version 2
--   System/Flow, .../*     the four endpoints that write, one after another, for one risk; System/Flow/Guarded
--                          the same behind the checks of tokens
--   System/Overlap, .../*  binds in two halves (Bind/Overlap), between which other requests are served
--   System/Secured         requests that come in with a header, each behind its scope check
--   Wiring, Wiring/*       app/config.py and app/api/deps.py: a request to bind with the parts made for it
--   System/Lifespan, .../* `lifespan` of app/main.py: the wait, the migrations and the seeding
--   Startup, Startup/*     app/db/startup.py
--   Migrations             the statements of `alembic.op` on a schema and its rows
--   Migrations/Versions    the four revisions of migrations/versions; Migrations/Upgrade an upgrade to head by Alembic
--   Migrations/Models      the tables that app/*/models.py declare
--   Migrations/Reached     the databases that revisions and use leave; Migrations/Closed, /Undo, /Consistent, /Head
--                          and /Latest what the revisions make of them
--   Tests/*                concrete tables and risks
--
-- State: a `Db` holds the committed rows of each table in the order of their insertion. An operation takes a
-- `Db` and gives a result with the new `Db`; what raises leaves the `Db` that it began with, which is the
-- roll-back of the session. `Env` holds what the code takes from outside: fresh ids and the clock at the n-th
-- draw, the text of an id, SHA-1, the text of a date. Nothing is assumed of them, but where a theorem says that
-- no id and no time is given twice (`IsFair`). The policy service and the publisher are parameters that act on a
-- world `W`, which a call may change also when it raises; nothing is assumed of them either. Nor is anything
-- assumed of the JWT library, which at its n-th call says what a token holds, of the message broker, and of the
-- database driver at start-up. Alembic is a parameter too, of which it is assumed that an upgrade to head runs the revision
-- that follows the stored one and goes on from there (`Alembic`). Python's `Protocol` classes are the records `PolicyClient` and `Publisher`.
--
-- Numbers: money is a whole number of eurocents; the insured value is zero or more, as the payload's schema and
-- the engine's use have it, and a BIGINT column refuses what is past its range. Decimals keep 28 significant
-- digits, rounded half to even, as the default context does; quantizing rounds half up and raises past 28 digits.
-- `excess` takes as fuel the number whose digits it counts, which is more than it has digits.
--
-- The schema is what PostgreSQL has of it. A revision runs in one transaction, so a statement that is refused leaves
-- the database as it was. Rows of quotes from before revision 0004_quote_manifest are not told from later ones.
--
-- Simplifications: ids are numbers; `upper` and `lower` change the letters of ASCII; of rows that tie in an
-- ORDER BY … LIMIT 1 the first inserted comes first, and of rows that tie in a longer ORDER BY too; a text
-- column takes a text of any length; a decimal has no exponent bounds, no infinities and no NaN; the display
-- text of a line item is kept as the numbers in it, and the text of an exception is left out; requests are
-- served one at a time, but in System/Overlap.
--
-- Of a reply of the policy service the model has the status code and the keys that the client reads, as values. In
-- Bind/HttpClient `base_url` is without its trailing slashes, which Wiring cuts off.
--
-- Fuel: `attempts` and `wait_loop` take the number of attempts that are left, which is what the loops count.
--
-- Not modelled: how the settings are read from the environment, the wiring of app/main.py and migrations/env.py, the
-- request log, the schemas that copy rows field by field, and the frontend. A body that is no valid payload is
-- refused by the framework before an endpoint runs.
pub mod Prelude
pub mod Decimal
pub mod Enums
pub mod Appetite
pub mod Rating
pub mod Store
pub mod Workbench
pub mod Bind
pub mod Api
pub mod System
pub mod Startup
pub mod Migrations
pub mod Wiring
pub mod Tests
