-- ===== src/Lib.antt =====
-- A verification of the core logic of EdgeWatch Telemetry, which collects telemetry of remote
-- pumps: an agent on the device (agent/) sends it to an API (api/app/), whose services keep
-- alerts, notify operators, and queue commands and updates that the devices fetch. Modelled from the Python:
--
-- CostCaps (agent/cost_caps.py, CostCapState): the agent's caps on the bytes and snapshots of a
--   UTC day. A call is a function of the caps, the state file, the clock's readings so far and the
--   counters; `ensure_today` is `_ensure_today`, and `save` and `load_or_default` are the private
--   methods of those names. CostCaps.Daily is about a day's counters, CostCaps.Storage about the
--   state file and the OSError of a write to it.
-- Alerting: the rows (api/app/models.py) on which the alerting services act, and `Session`, the
--   tables of the database with the HTTP calls and metrics of a run. Its parts call one another as
--   the services do:
--   Alerting.Monitor (api/app/services/monitor.py) opens and resolves alerts; `lifecycle` is the
--   body that the two power monitors share, `monitor` that of the threshold monitors, and
--   Alerting.Monitor.Microphone the monitor of the microphone, given the device's points newest first.
--   Alerting.Notify (api/app/services/notifications.py, `process_alert_notification`,
--   `process_platform_event`, and the webhook adapter's `deliver`) sends notifications and records
--   every decision: Destinations, Webhook, Process and Platform below it.
--   Alerting.Routing (api/app/services/routing.py, AlertRouter.should_notify) decides on them by
--   policy, mutes, quiet hours, dedupe and throttle.
-- DeviceCommands (api/app/services/device_commands.py): the queue of control commands, with
--   DeviceCommands.Operations for the service's functions under their own names.
-- Buffer (agent/buffer.py, SqliteBuffer): the agent's store-and-forward queue. Buffer.Operations has
--   the methods under their names; Buffer.Accounts and Buffer.Enqueue follow the rows that leave,
--   Buffer.Order the order of delivery.
-- Rollout (api/app/services/device_updates.py, `normalize_rollout_stages`, `_stage_threshold_counts`,
--   `_stage_for_index`): the stages of an over-the-air deployment and the targets that each reaches.
-- Deployments (api/app/services/device_updates.py): over-the-air deployments on those stages.
--   Deployments.Selector picks the devices, Manifests and Operations have what operators do, Reports
--   and ReleaseStates what devices report, Progress how a report moves the deployment on
--   (`_evaluate_rollout_progress`, as a decision that is then carried out), Commands the command that a
--   device fetches, and Totals its counts. `event` is `_event`, which notifies through Alerting.Notify.
-- Ingestion (api/app/services/ingest_pipeline.py, api/app/services/ingestion_runtime.py,
--   api/app/contracts.py, api/app/routes/ingest.py): Contract and Prepare sort the points of a request,
--   Persist stores those that are new and calls the monitors of Alerting on them, and Route is the
--   endpoint.
-- Access (api/app/services/device_access.py): which devices a principal may use by grants on devices
--   and on fleets: `accessible_device_ids_subquery` lists them, `ensure_device_access` checks one.
-- Procedures (api/app/services/device_procedures.py): procedures that operators define and ask devices
--   to run. Procedures.Operations has the service's functions under their names; DeviceCommands gives
--   the parameters and the values of JSON.
-- Prelude: lists, integers, text and datetimes as Python has them; Tests: concrete inputs.
--
-- What is not under the repository's control is a parameter. `Sql` is what the services ask of the
-- database's ordering: `order_by(...desc()).first()` finds a row that none exceeds, and
-- `order_by(...asc()).all()` returns the same rows in order. `World` and `Calls` hold it with the
-- time zones, letter case, SHA-256, `urlsplit`, `isoformat` and the answers of the network;
-- `Floats` is the comparison and formatting of floats, of which nothing is assumed; CostCaps takes
-- the clock's days and how each save ends, and Buffer's `Sqlite` the order of rows, the
-- outcome of each INSERT and the file's sizes. Deployments takes float division, JSON texts
-- and the order of device ids,
-- Ingestion `float(n)`, the order in which RETURNING gives rows, the answer of the rate limiter, the
-- contract that has been loaded and whether a message is published; Access takes the order of texts
-- that the database sorts grants by. Tests gives a concrete instance of each.
--
-- Sessions of the database have no autoflush (api/app/db.py): a query tests the rows as they were last
-- flushed. An enqueue of DeviceCommands or Procedures therefore finds the rows that it has just
-- expired once more, and supersedes them. Between operations the tables are in step with the
-- database.
--
-- Datetimes are microseconds since the first one, aware and in UTC. Loops run over lists, but for
-- two on fuel: the decimal digits of a number n, of which there are at most n + 1, and the
-- eviction loop of the buffer, of which every round but the last deletes a row, so that the number
-- of rows and one more is enough.
--
-- Not modelled: logging and metrics export, `mask_webhook_url`, the webhook timeout, database
-- errors (but for the query on notification destinations, whose failure the code handles), the
-- OverflowError of a datetime before year 1, decimal digits of other scripts in `int`, and the
-- rest of the API and the agent: the lists of deployments, the worker behind the pubsub mode of the
-- ingestion and its payload's text, the rate limiter, the principals
-- behind a request, the agent's main loop, sensors
-- and media. Of the buffer, the pragmas, the recognition of SQLite's error
-- messages, statements other than INSERT that fail, and a recovery that fails halfway.
pub mod Prelude
pub mod CostCaps
pub mod Alerting
pub mod DeviceCommands
pub mod Buffer
pub mod Rollout
pub mod Deployments
pub mod Ingestion
pub mod Access
pub mod Procedures
mod Tests
