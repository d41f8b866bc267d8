-- ===== src/Lib.antt =====
-- Paperless IQ: the core of the backend, in a cubical type theory.
--
-- Paperless IQ reads documents from a Paperless NGX server, has a language model suggest metadata for
-- them, queues the suggestions for a person to decide, and writes the approved ones back. The inbox
-- monitor finds new documents; grooming compares the whole archive with the vocabulary of tags,
-- correspondents and document types and queues corrections; every route is behind the authentication.
--
-- Approval models the approval queue (backend/approval_queue.py, with its tables of
-- backend/orm_models.py and its model of backend/models.py, and the route empty_queue of
-- backend/main.py). Rows holds the tables and their conversions, Entities the creation policies and
-- the resolution of names to ids with the cache, CustomFields the formatting and resolution of custom
-- fields, Patch the assembly and sending of the PATCH, Service and Operations the methods of
-- ApprovalQueueService. A method is a function from the committed tables (Db), or these and what lies
-- outside (World), to its result or exception and what is committed after it; an exception drops
-- what the session has not committed. The Paperless server is a parameter with a state of its own
-- (Server), and so are the text, float and JSON functions of Python (Py); no theorem of
-- Approval assumes a law of them. Ids, which are UUIDs, and times are natural numbers; the random keys of audit and dismissal
-- rows are left out, and so is logging.
--
-- Inbox models InboxMonitor and Scheduler (backend/inbox_monitor.py): the tracking table, and the
-- analysis callback as a parameter that has a state of its own, may raise, and does not write the
-- table. A scheduled run also returns how it cut the documents into batches, which the code does not.
--
-- Grooming models parts of backend/grooming.py: Classify the classification of a scan over floats
-- that are a parameter (Floats), Rules the rules for one document that it is compared with, Dismissals the memory of rejections, which the approval queue writes
-- and the scans read, Selection the order of the candidates and the cap on suggestions, Corrections the check of the proposed actions
-- against the current document. Left out: the vector queries, the generated descriptions, and the
-- background tasks.
--
-- Clusters models _transitive_clusters (backend/grooming.py): UnionFind is the code, Forest, Linked
-- and Merging treat the parents as a function with its roots, Grouping and Partition the answer. The
-- loop of find runs on fuel; no chain of parents is longer than there have been unions, so more fuel
-- than pairs is enough.
--
-- Merging models merge_entities (backend/grooming.py) over a Paperless server with a state of its own;
-- Documents is the listing of an entity's documents by pages up to a limit (_fetch_entity_docs), Service
-- the rest of the code, Steps and Tags what it does to the tags of the documents when the server does as
-- documented (Documented). An exception of a listing's GET is left out.
--
-- VectorStore models the storage-independent half of backend/vector_store.py: Chunks the two
-- chunkers, with fuel for the loop of _chunk_text, which more fuel than characters satisfies when the
-- overlap is below the chunk size, and Results the assembly of search results from the candidates of a
-- query. The regular expression that finds sentence boundaries, str.strip and the deep links are
-- parameters; scores are natural numbers, since the code only compares them. Left out: the clients of
-- the vector databases and the calls that embed.
--
-- Rerankers models backend/rerankers.py: Scores what each reranker makes of an answer or of a failure,
-- Build the choice of a reranker with its URL and key, and Reranked the search of the vector store on
-- top of it. Answers of models and services are parameters; scores in [0, 1] are natural numbers up to
-- a unit, and the sigmoid is left to the parameter.
--
-- LlmQueue models backend/ollama_queue.py: Requests the priority queue with its submissions and the
-- worker's steps, Breaker the circuit breaker of the embeddings. A future is a number, and what a
-- request's function gives is a parameter. Two requests of one priority have different times, as the
-- clock gives them. Left out: starting and stopping the worker, and the status for the UI.
--
-- Analyzer models of backend/analyzer.py the prompt templates, the truncation, the suggestion from a
-- parsed answer and _apply_creation_policy; the definitions of Approval.CustomFields, which resolve
-- the same select options at approval, are its client. The list of the entities is a parameter. Left
-- out: the calls of the model, the parsing of its answer and the context for the prompt.
--
-- Auth models backend/auth.py: a session token by its four parts, the revocation set, the login
-- limiter, and the guard of the routes. HMAC and base64 are parameters (Crypto), and Base64 has what
-- is documented of the latter for the padding of the user name. A restart, which clears the revocation
-- set, is an event of its own. Left out: the splitting of the token's text, the webhook secret, and the calls that check credentials.
--
-- Permissions models the table of user permissions and what main.py does with it
-- (backend/main.py: _check_can_access, require_perm, _upsert_user_permissions, update_piq_user and
-- delete_piq_user). A request's user is the one that the authentication has set.
--
-- Settings models SettingsService (backend/settings_service.py) over a configuration that is the
-- dictionary of its fields: Store has the masking, the update, the export and the import. The model's
-- constructor with its validators, JSON and the placeholder are a parameter (Pydantic), of which the
-- theorem asks what ReadsBack says. Left out: the environment variables and the encrypted row.
--
-- RateLimiter models backend/rate_limiter.py in exact arithmetic: the parts of a token and the ticks of
-- the clock are natural numbers where the code has floats, so rounding is left out. AuditLog models
-- AuditLogService (backend/audit_log.py) over the committed rows of its table; LIKE of the database is
-- a parameter, and rows_to_csv is left out.
--
-- Prelude holds the shared names: the Boolean tests of the native numbers, lists, and association
-- lists as dictionaries. Loops are structural recursion over lists or counts but where fuel is named
-- above.
-- The other modules of the backend are not modelled.
pub mod Prelude
pub mod Approval
pub mod Inbox
pub mod Grooming
pub mod Clusters
pub mod VectorStore
pub mod LlmQueue
pub mod Analyzer
pub mod Settings
pub mod RateLimiter
pub mod AuditLog
pub mod Rerankers
pub mod Merging
pub mod Auth
pub mod Permissions
