-- ===== src/Lib.antt =====
-- Verification of reana-server, the API server of REANA, a platform that runs reproducible
-- analyses as workflows.
--
-- THE PROGRAM. Users send requests to a Flask application. reana_server/decorators.py finds out
-- who sends a request: by a token of an OpenID Connect issuer, by the cookie of a browser session,
-- or by the secret of a GitLab webhook. It calls reana_server/auth/: tokens.py validates tokens
-- with the keys of the issuer, which it caches; sessions.py keeps the sessions of browsers in
-- Redis and refreshes their tokens; provision.py finds or makes the user of an identity in the
-- database. A workflow that is started is put on a queue, together with the memory of its first
-- jobs, which complexity.py estimates; scheduler.py takes it from the queue and asks reana-
-- workflow-controller to start it when there is room. workflow_creation.py undoes what the
-- controller has created when its answer is lost, and deleter.py deletes the files of a workspace.
--
-- THE FILES.
-- Prelude and its children hold hmac.compare_digest of Python, Boolean tests and the conditional
-- on the native numbers, lists measured by them, dictionaries keyed by text (an association list:
-- the source's dict) and names of the libraries that all files share.
-- Auth.Errors has the exceptions of reana_server/auth/errors.py and decorators.py as one type, and
-- results. Auth.Exec is code that changes a state and may raise: what has been written before a
-- raise stays written. A ValueError and an exception of any other class are two further
-- constructors.
-- Auth.Jwks is JWKSCache of reana_server/auth/tokens.py. Auth.Jwks.Refresh has _fetch, _refresh
-- and its waiters: a refresh is a begin, under the lock, the request, without it, and a
-- completion, under the lock again; what other threads do to the cache in between is a parameter.
-- Auth.Jwks.Lookup has the lookup by key id and the negative cache. The import of a key set, which
-- authlib does, is a parameter.
-- Auth.Login is reana_server/oauth_state.py and, in Auth.Login.Callback, oauth_callback of
-- reana_server/rest/auth.py, which uses Auth.Sessions. The serializer of itsdangerous is an
-- interface. Auth.Sessions.Dictionary is a Redis to run them on.
-- Auth.Roles is the reading of the roles claim and require_role of reana_server/auth/tokens.py.
-- Auth.Sessions is reana_server/auth/sessions.py. Redis is an interface, a record of commands with
-- the documented effect of each; a command may fail, and then nothing is known of its effect but
-- what the record says. Auth.Sessions.Store has the storing, reading and deleting of a session,
-- Auth.Sessions.Refresh has _refresh_locked_session and what it calls, with token validation as a
-- parameter, Auth.Sessions.Lock has refresh_session, the lock of a session, its release and the
-- wait of those who do not get it, and Auth.Sessions.Subjects has delete_sessions_for_subject.
-- Auth.Provision is reana_server/auth/provision.py. Auth.Provision.Claims has the checks of the
-- issuer's claims, Auth.Provision.Linking has email_linking_allowed, link_user_identity and
-- _link_existing_user, Auth.Provision.Jit has get_or_provision_user. The database is the list of
-- the users that are committed. What other transactions commit between two steps, and the verdict
-- of the database on a COMMIT, are parameters.
-- Auth.Request is reana_server/decorators.py. What it calls in the other modules is the record
-- Identity, over an abstract state. Auth.Request.Headers has the parsing of the Authorization
-- header and csrf_ok, Auth.Request.Authenticate has _authenticate and its helpers,
-- Auth.Request.Signin has the except clauses and the cookies of signin_required, and check_quota.
-- Complexity is reana_server/complexity.py: the limits on memory, and in its children the
-- estimates and the compute backends of each type of workflow: Complexity.Serial,
-- Complexity.Snakemake, Complexity.Yadage and Complexity.Cwl, with the hints in Complexity.Hints,
-- and Complexity.Backends puts the backends together. Complexity.Cwl.Parse, Complexity.Cwl.Tree
-- and Complexity.Cwl.Estimate are the three stages of the estimate of a CWL workflow. A
-- specification is what the source reads of it: a missing value is a constructor, a value that
-- raises an exception gives no result. kubernetes_memory_to_bytes of reana-commons is a parameter.
-- Creation is reana_server/workflow_creation.py, with the request to the controller, the query for
-- the row and the compensation as an interface.
-- Deleter is reana_server/deleter.py. The workspace of reana-commons is an interface;
-- Deleter.Paths has the paths of pathlib that are compared, and is_relative_to of
-- reana_server/utils.py.
-- Fetcher is reana_server/fetcher.py: Fetcher.Validating has _validate_archive_entries and
-- Fetcher.Extracting has _extract_archive_entries of WorkflowFetcherZip, over the files and
-- directories below the output directory, by their path from there.
-- Locks is reana_server/workspace_mutations.py: in Locks itself the table of locks of one process,
-- in Locks.Requests the phases of a request and its next step, in Locks.Keys the keys that are
-- locked, in Locks.System the requests that run at the same time, an event being an arrival or a
-- step of one of them, and in Locks.Database the locks on PostgreSQL, as a log of calls.
-- Quota is reana_server/rest/quota.py with the functions of reana_server/utils.py that it calls:
-- the committed tables in Quota itself, _set_quota_limit in Quota.Limits, _set_quota_period in
-- Quota.Periods, and the endpoints in Quota.Endpoints. A function takes the tables and gives those
-- that are committed when it ends.
-- Scheduler is reana_server/scheduler.py: in Scheduler itself the readiness checks, in
-- Scheduler.Consumer the handler of a message. A handler is a function from what it reads of its
-- surroundings (the nodes, the running workflows, the answer of the controller) to the list of its
-- calls, in their order.
-- Submission is _submit_workflow_locked of reana_server/rest/workflows.py and
-- publish_workflow_submission of reana_server/utils.py: in Submission itself what is stored and
-- the steps that change it and may stop, in Submission.Submitting the try block, its handlers and
-- its finally, and in Submission.Publishing the queueing. A specification is a number that stands
-- for its content.
-- The other children of each part hold proofs, named for what they prove, and a module Tests runs
-- the definitions on concrete inputs.
--
-- NUMBERS AND LOOPS. Times are seconds and memory is bytes, both natural numbers; a difference of
-- times is written as a sum on the other side of the comparison where the source subtracts. The
-- loops are recursions on lists, and the loops that poll until a deadline, in
-- _wait_for_concurrent_refresh and _reconcile_failed_creation, have one entry of a list for each
-- turn that the deadline leaves. Two functions recurse on a bound, with a theorem that it is
-- enough: delete_files, on Python's limit on nested calls, which has to be above the height of the
-- path, and the walk of CWL workflows, which may run each other in a circle, where a bound above
-- the number of processes is enough.
--
-- NOT MODELLED. The texts of messages, logging, and metrics. In reana_server/rest/auth.py: the
-- work of _login_error_redirect on a URL. In reana_server/fetcher.py: the choice of a fetcher,
-- downloads, Git clones, and the search for the specification file. In
-- reana_server/auth/sessions.py: the counting of sessions, decode_expired_token (the interface of
-- Auth.Request has it), the attributes of cookies and the length of the lock. In
-- reana_server/auth/tokens.py: the parsing and the validation of a token, which authlib does, and
-- the settings of the claims. In reana_server/complexity.py: another initial step than the one
-- that callers use, and floating-point numbers: an average of memories is an exact fraction. The
-- lower-casing of the domain of an email is a parameter. Whole files that are not modelled: the
-- REST endpoints (reana_server/rest) but for the quotas, oauth_callback and
-- _submit_workflow_locked, the administration commands (reana_server/reana_admin), utils.py but
-- for is_relative_to, publish_workflow_submission and the quotas, specification_bundles.py,
-- validation.py, gitlab_client.py, status.py, factory.py, config.py, and discovery.py, userinfo.py
-- and config.py of reana_server/auth.
pub mod Prelude
pub mod Auth
pub mod Complexity
pub mod Creation
pub mod Deleter
pub mod Fetcher
pub mod Locks
pub mod Quota
pub mod Scheduler
pub mod Submission
