-- ===== src/Lib.antt =====
-- A model of nbdpsy-api, the REST service and the workers that run accounts of a note platform, with
-- the theorems that make its core correct. All paths are from the repository's root.
--
-- The program keeps its truth in database tables and works on them from handlers and from background
-- loops. `Table` models a table: a list of rows in the order of their ids, which the queries of the
-- program read and write (`session.get`, UPDATE and DELETE with a WHERE clause). A transaction is one
-- function. Where a publish handler, an import of cookies or the placeholder reaper awaits between its
-- read and its write, it takes the table twice; the other calls are one moment. `Result`
-- has the exceptions that the server turns into HTTP statuses. Moments are native numbers of
-- microseconds, counted from a midnight. The clock, random draws, ids that the database gives,
-- parsers of times and the result of a browser run are arguments.
--
-- Auth (app/auth/guards.py, app/models/operator.py, app/services/operator_service.py,
-- app/auth/bootstrap.py): the operators, their grants, the guards and the calls that write them. A
-- grant table is read as a set of pairs in `Grants`.
--
-- Accounts (app/services/account_service.py, app/services/cookie_service.py,
-- app/services/placeholder_reaper.py, app/models/xhs_account.py): `Account` has the record and the
-- service, `Cookie` the normalization of cookies, `Placeholders` the deletion of what failed logins
-- left, `Import` the import of cookies. An import takes the accounts as they were when it looked for
-- its row and the tables as they are when it writes; JSON, the cipher, SHA-256 and `str.lower` are
-- parameters; the prefix of a placeholder's name is matched as SQLite's LIKE does, in either case of the
-- letters. An exception drops what was written before it in the same call.
--
-- Publish (app/publish/scheduler.py, app/publish/queue.py, app/browser/account_locks.py,
-- app/http/publish_rest.py, app/models/publish_job.py): `Job` is the job record, `Store` the methods of
-- the scheduler, `Endpoints` and `Edits` the handlers. `Runner` is the process: the queue, any number
-- of runners, one lock for each account, the jobs in flight and the loop, as a step relation in which
-- every runner moves from one await to the next, and the clock, other lock users, handlers and crashes
-- come in between at any point. Each method of the scheduler is one step: what another task writes
-- inside one method is not modelled, nor is an error of the database inside `finish`.
--
-- Video (app/video/scheduler.py, app/models/video_job.py): `Stages` is the run of the stages of one
-- job, with the handlers as functions from the stage and the job to what they write and how they end;
-- the loop runs on fuel, and as much as the order has stages is enough. `Store` has the methods on the
-- table. What other tasks write to a job between two of its stages, and the heartbeat of a running
-- handler, are not modelled.
--
-- `Video.Endpoints` has the handlers of app/http/video_rest.py on that table and on the directories of
-- the products. A handler reads and writes the table at one moment; what the model makes of the
-- instructions of a revision, and the files, are arguments; a failure between the two commits that queue
-- a child, and one of the write that marks the child as failed, are left out.
--
-- Text (app/browser/text_formatter.py): the width of a text as the platform counts it, and the
-- truncation to a width. A text is its code points; the two regular expressions are matchers.
--
-- Pipeline (app/video/pipeline): `Resegment` has resegment.py, the merge of subtitle fragments to
-- sentences by a model, batch by batch. The answers of the model and the deadline are arguments; the
-- loop runs on fuel, and the number of fragments is enough. `Blocks` and `Timeline` have relayout of
-- remake/timeline.py, which places the sentences and the scenes of a remake on a new axis, in exact
-- ticks where the source has floats. `Carve` has carve_motion_for_speech, which cuts the motion of the
-- ball where a sentence is spoken; its loops run on fuel, and `Snapping` and `Settled` show that the fuel
-- is enough. `Lasting`, `Speech` and `Once` are about the places of relayout.
--
-- Edits (app/video/pipeline/remake/revision.py): the revision of a finished remake. `Value` has what is
-- read of a JSON object, `Reply` the plan in a reply of the language model, `Plan` the check of a plan,
-- `Spans` the scenes of a plan as windows of the source, `Override` and `Apply` what a plan does to the
-- parameters and to the lines; integers beyond the range of floats are left out. `Fates` says what becomes of one line by itself, and `Fitting` joins the
-- check of a card's duration to the layout of `Pipeline`. The texts of prompts and messages are left out.
--
-- Glossary (app/video/pipeline/glossary.py, app/models/psych_glossary.py): the terms of the translation;
-- `Best` says which row counts for a term.
--
-- Notes (app/services/note_metrics_service.py, app/services/note_delete.py,
-- app/services/note_export.py, app/services/cookie_check.py, app/browser/note_delete.py,
-- app/http/notes_rest.py, app/http/cookies_rest.py): `Metrics` has the two tables of metrics, written
-- through `Table.Upsert`. `Deletion`, `Export` and `Checks` are the tasks in the background, each with
-- its ledger in memory (`Ledger`), which expires, and which a restart empties; a deletion has a row in
-- a table besides. `Polling` has the events of that ledger in any order.
--
-- Uploads (app/services/upload_service.py, app/models/upload_batch.py): batches of images, as rows of a
-- table and as directories; a commit that fails is left out. `Saved` and `Listed` say what an upload leaves and what a listing shows.
--
-- Not modelled: the browser automation and image generation, which are calls of other programs; the
-- stages of the video pipeline that call media tools and models; the remaining REST files,
-- which hand requests on; configuration, logging, and the chrome extension.
pub mod Prelude
pub mod Result
pub mod Table
pub mod Auth
pub mod Accounts
pub mod Edits
pub mod Glossary
pub mod Notes
pub mod Pipeline
pub mod Publish
pub mod Text
pub mod Uploads
pub mod Video
