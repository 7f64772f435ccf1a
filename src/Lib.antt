-- ===== src/Lib.antt =====
-- ShipZen, a deployment platform. Three programs work on one PostgreSQL database: the API
-- (api/) takes requests, the worker (worker/) builds images from the messages of a Redis stream, and
-- the controller (controller/) makes the cluster match the tables. They never call each other: the
-- API writes a row and an outbox event in one transaction, the relay moves the event to the stream,
-- the worker takes the row to Deploying, and the controller takes it to Running and switches the
-- project to it.
--
-- The files and the code they model:
--   Prelude          shared names, Boolean tests and lists over the native numbers, texts as lists of
--                    code points (str.strip, str.split, re classes)
--   Database         the rows (api/migrations), the unique indexes of migration 0013 (Index), the forms
--                    of statement that the code uses (Statements)
--   Shared           shipzen_common: Slug (controller/main.py _k8s_slug), Hostnames (hostnames.py),
--                    RepoConfig (repo_config.py), Sizes (sizes.py)
--   Worker           World: state, exceptions and the monad of the handlers; Store: state_machine.py,
--                    queue_client.py and the worker's statements; Monitor: monitor_job; Stages and
--                    Process: process_message of worker/main.py, stage by stage and whole
--   Controller       Release: promote_release and the end of the grace period; Scaling:
--                    release_scaling; Manifest: pinned_image, _safe_port, _safe_health_path; Sweep:
--                    reconcile_deployments; Projects: _reconcile_project; Vanity:
--                    sync_vanity_route and commit_manifests_to_git; Leader: LeaderElector
--   Api              Access: _check_project_access, Accounts: get_or_create_user (api/database.py);
--                    Auth: get_current_user (api/auth.py); Limits: check_deploy_limits
--                    (api/helpers.py); Create, Cancel, Rollback: the handlers of
--                    api/routers/deployments.py; Relay: _relay_outbox_once (api/background.py);
--                    Sockets: the WebSockets of api/routers/deployments.py; Migrate: api/migrate.py;
--                    Pages: list_deployments;
--                    Webhooks: api/routers/webhooks.py (Push: one project, App: all projects, Previews:
--                    pull requests); Crypto: crypto_box.py; Env: routers/env.py, secret_store.py;
--                    Projects: routers/projects.py and validation.py
--   Examples         the theorems at concrete inputs
--
-- State and errors. A table is a list of rows; an UPDATE is `update`, an INSERT is `insert`, which
-- fails on a duplicate key or a clash of the unique indexes. The worker's code is a function from a
-- world to a result or an exception and a new world; what was written before an exception stays
-- written. `faults` says of each coming use of the database, and of the queue to settle a
-- message, whether it fails, so every interleaving of failures is covered. Answers of git, GitHub, the cluster and the registry are arguments (`Env`, `Run`,
-- `Seen`), over which the theorems quantify. An API handler is a function to a reply (a value or an HTTP
-- status) and the tables it leaves; for a cancel, the commits of other processes between its SELECT and
-- its UPDATE are an argument.
--
-- Numbers and bounds. Ids are numbers of 128 bits; the Secrets and Jobs of a build are named by the
-- first 8 digits, `i / 2 ^ 96`. The clock is a number of seconds, and every comparison of times is the
-- code's. No definition uses fuel: the polling loop of monitor_job runs over the list of its looks, the
-- sweep over its snapshot of rows. Of the rounds of the relay those that are committed are counted, and as
-- many are enough as the outbox has tens of messages.
--
-- Not modelled: third-party code (its answers are arguments), what is sent over the log and status
-- sockets, metrics, e-mail, audit logs, the text of manifests and of error messages, commit columns, the
-- routes of the administrators, the worker's pool of threads, the analyzer, the user interface and the
-- infrastructure. A sign-in is one step: two that wait for GitHub at the same time are not interleaved.
pub mod Prelude
pub mod Database
pub mod Shared
pub mod Worker
pub mod Controller
pub mod Api
mod Examples
