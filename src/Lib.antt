-- ===== src/Lib.antt =====
-- A model of nexus-rag, a service that ingests documents, has curators release them, and serves
-- their chunks to callers who are cleared for them.
--
-- The parts and how they meet. A caller's token becomes claims (services/common/common/claims.py).
-- Claims and the ranked levels (classification.py) give the classifications that the caller is
-- cleared for. The tags of a document are checked against them at submission (metadata.py), and a
-- chunk's payload at retrieval (qdrant_filters.py). A document's row is in Postgres (models.py), its
-- chunks are in Qdrant, in one collection per classification (qdrant_store.py), and curation and
-- purge change both.
--
-- Which file models which part:
-- Document: the rows of services/common/common/models.py. Ids and times are numbers.
-- Access.Claims, Access.Levels, Access.Metadata, Access.Filter: the files of services/common/common
-- named above and the classification routes of services/ingestion-api/app/routes/admin.py. Each
-- definition has the name of its function. A session on the database is the list of rows that the
-- function selects from, in the order in which the query returns them.
-- Access.Payload: the payload that services/ingestion-worker/app/processing.py writes to each chunk,
-- and the meaning of the filters that the code builds.
-- Vector.Names, Vector.Store: services/common/common/qdrant_store.py. A call is a function of the
-- store's state to a result and the state it leaves, also when it raises.
-- Vector.Client: the client library, as a record of operations, and what its documentation says of
-- them. Vector.Memory is an instance in memory that keeps every law. A scroll returns all the points
-- that match, as the loop over pages does.
-- Database: the tables as lists of rows, and the entries of the audit log.
-- Curation.Http, Curation.Authority, Curation.Changes, Curation.Decide, Curation.Edit, Curation.Routes:
-- services/ingestion-api/app/routes/curate.py and the guards of services/ingestion-api/app/deps.py,
-- each definition under its function's name. Curation.World has the two stores and the order in
-- which a decision writes them; whether the commit raises is an input. One request runs at a time,
-- as under the row lock that each decision takes.
-- Purge.Destroy, Purge.Request: services/common/common/purge.py; Purge.Stores has the object store
-- (services/common/common/object_store.py) as a record of operations and laws. The clock readings and
-- the outcome of each commit are inputs.
-- Retrieval.Overlaps: collapse_adjacent_overlaps of services/orchestration-mcp/app/reranking.py.
-- Ingest: services/ingestion-worker/app/chunking.py, and the parts of Python's str that it uses.
-- Ingest.Claim: _claim_document of services/ingestion-worker/app/processing.py. Ingest.Prepare,
-- Ingest.Writes, Ingest.Job: _process_document there, what it makes of a document and what it writes. The parser,
-- the models and the advisories are a record of functions, the advisories by the audit entries that
-- they add. A commit writes the changed columns to the row as it is then. Ingest.Messages:
-- _handle_message and _mark_undeliverable, with the redelivery that JetStream documents.
-- Ingest.Recovery: services/ingestion-api/app/recovery.py, with the ids that the stream has received.
-- Vector.Upsert, Vector.Provenance: upsert_chunks and any_collection_embedding_model of
-- services/common/common/qdrant_store.py.
-- Retrieval.Reply, Retrieval.Search: run_rag_search of services/orchestration-mcp/app/rag_search.py,
-- over the query of services/common/common/qdrant_backend.py. The store does not change between the
-- calls of a query.
-- Retrieval.Fusion: fuse_ranked of services/common/common/vector_store.py. Retrieval.Rerank: rerank
-- of services/orchestration-mcp/app/reranking.py. Retrieval.Delimit: _delimit_untrusted_text of
-- services/orchestration-mcp/app/rag_search.py.
-- Access.Versioning: services/common/common/versioning.py.
-- Base: the names and lemmas that the modules share. Examples: the theorems at concrete inputs.
--
-- Loops are structural recursion on the lists that they go through. The one that is not, the
-- sliding window of chunking, is on fuel: one more than the words, which is shown to be enough when
-- the overlap is smaller than the target. The digits of a number are on fuel, one more than the
-- number. Deliveries and passes are lists of what each one meets. A rank is an integer of any size.
-- Where the code adds or multiplies floats, the model has exact fractions or integers in one unit.
-- The indices in a reranker's answer are not negative.
--
-- Not modelled: parsing and OCR of files, the language models and the advisories that they write,
-- embedding, logging, tracing, metrics, the pages and static files of the portal, and the opt-in
-- Milvus backend. Of a query, its timings, its trace and the text that is rendered for a model. Login
-- and sessions, the routes of submission, the checks for markings and sensitive data, re-embedding and
-- the reranker service.
-- Reads of the database do not raise, except the last read of a curation route, and neither do the
-- answers to a message. In particular the read of the claim, the read of the row that ends a purge, and
-- the read of the id before the revert of an edit succeed. Exceptions of the embedder that a query does
-- not handle are outside the model. The cancellation of the worker's task is an input of a job.
pub mod Base
pub mod Document
pub mod Access
pub mod Vector
pub mod Database
pub mod Curation
pub mod Purge
pub mod Retrieval
pub mod Ingest
pub mod Examples
