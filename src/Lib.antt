-- ===== src/Lib.antt =====
-- Diffuse reviews pull requests: webhooks are recorded and queued in PostgreSQL, workers claim the
-- queued jobs under leases, a repository's policy says with globs which paths and events count, and
-- the diff of the pull request is parsed and packed for the reviewing model, whose findings are
-- checked and put together into a report. This library models these parts of
-- packages/server/src/diffuse, and the capabilities that an isolated agent presents to it.
--
-- Glob.antt is the matcher of repository/policy/resolve.py: the two parsers `_parse_path_glob` and
-- `_parse_filter_glob`, `_advance`, which moves a set of offsets over the text, `path_matches` and
-- `filter_matches`. Characters are code points; a function on them stands for `ignore_case`.
-- Glob/Runs is an independent reading of the tokens, Glob/Sets and Glob/Advance relate the offsets
-- to it, Glob/Parse reads a pattern without the folding of wildcards, and Glob/Filter is about the
-- fuel of the filter parser: the loop takes a character in each round, so the length of the text is
-- enough.
--
-- Queue.antt holds the rows of the tables of review/workflow.py (packages/server/migrations/
-- schema.sql). An operation is a function on the tables and the time, so that a transaction is one
-- step; the row locks and the advisory lock are that atomicity. An exception is an error that
-- carries no tables, since the transaction is rolled back. Queue/Lease is `claim_workflow_job` with
-- its sweep of expired leases, `heartbeat_workflow_job`, `complete_workflow_job`,
-- `supersede_workflow_job`, `fail_workflow_job`, `workflow_job_is_latest` and
-- `workflow_queue_depth`. Queue/Deliveries records the webhooks and Queue/Pulls the pull requests,
-- Queue/Enqueue is `enqueue_review_event` and Queue/Index is `enqueue_repository_index_event`, on
-- one database, Queue/Current is `workflow_job_is_current` and Queue/Rejection
-- `record_webhook_rejection`. Queue/Conversation is `enqueue_review_conversation_event`, with the
-- table of the messages beside the database and the join of the tables that it only reads as one
-- table of threads; Queue/Conversation/History is its events among any other changes of the queue
-- and the threads. Queue/Reach puts the changes of the jobs together as a step relation. A time is
-- a number of microseconds, and a priority its distance below 0. What `resolve_github_repository`
-- found, the rows that others lock (SKIP LOCKED), the repositories that are enabled, the keys of an
-- event and the text of a number are parameters.
--
-- Policy.antt holds the records of repository/policy/models.py and resolve.py. Policy/Names is the
-- validators of paths, globs, filters and keywords and `is_sensitive_repo_path`; Policy/Patches is
-- what one file of configuration says, and Policy/Layers is `resolve_review_policy`, the layers of
-- configuration above a path with their rules and overrides; Policy/Query is the methods of
-- `ResolvedReviewPolicy`, Policy/Trigger `evaluate_trigger` and
-- `repository_failure_comment_enabled`, and Policy/Learned the approved rules and contexts of
-- operators. Policy/Prompt is the text of a policy in a prompt, and Policy/Neutral the
-- `neutralize_prompt_delimiters` of packages/protocol/src/diffuse_protocol/prompt.py that it goes
-- through: the regular expression is read by hand, with its classes of characters as parameters. A
-- confidence is of any type with a comparison and the constants of the code, because it is a
-- floating-point number; `str.lower`, `str.casefold`, the digest of a text and the text of a number
-- are parameters, white space is that of ASCII, and the fingerprints of a policy are left out.
--
-- Diff.antt is review/diff.py: `_parse_file` and `parse_unified_diff` with the header pattern of a
-- hunk, the lines that may carry a comment, and the entries of a snippet; Diff/Pack is
-- `pack_diff_files`. `shlex.split` is a parameter; digits and white space are those of ASCII.
--
-- Report.antt holds the findings of packages/protocol/src/diffuse_protocol/review.py and the order
-- of a report; its children are review/report_assembly.py: Report/Candidates is
-- `deduplicate_candidates_with_ids`, whose raw ids are the indices, Report/Verified is
-- `verified_findings`, Report/Score `risk_floor`, `review_confidence_score` and
-- `diagram_would_help`, and Report/Files `reviewable_diff` and `review_presentation`. Like the
-- confidences, the risk scores are of any type with the comparisons of the code.
--
-- Lineage.antt is `classify_finding_lineage` of review/lineage.py: the candidates, their order, the
-- matching and the transitions. The similarity of two findings, whose scores are floating-point
-- numbers, is a parameter.
--
-- Access.antt is packages/protocol/src/diffuse_protocol/access.py: the scope of a session and
-- `mint_session_capability`, Access/Verify is `verify_session_capability`. The JSON, base64, HMAC
-- and SHA-256 of the standard library are parameters, and what a read value of JSON was made of is
-- a hypothesis where it matters. A time is a number of microseconds; keys and bodies are texts. The
-- times of a payload are whole numbers of seconds: fractional ones, and those that overflow, are left
-- out.
--
-- Prelude.antt holds the Boolean tests, lists, texts and methods of strings over the native
-- numbers. The modules named Examples run the definitions at concrete inputs.
--
-- Not modelled: feedback and stranded jobs in review/workflow.py, the envelopes of the protocol,
-- the relay and the host, which are programs of their own; and the API, the GitHub clients and the
-- stores, which are input and output.
pub mod Prelude
pub mod Glob
pub mod Queue
pub mod Diff
pub mod Lineage
pub mod Policy
pub mod Report
pub mod Access
