-- ===== src/Lib.antt =====
-- RAGFlowX is a question answering service over uploaded PDF documents. This library models the
-- retrieval, the question answering, the chat, the memory, the accounts and the uploads of its
-- Python program, and proves what they promise.
--
-- The parts and the files that model them:
--
-- * Text is Python's `str` as the list of its code points, with the methods that the program
--   calls. `str.lower` follows Unicode's tables and is a parameter wherever it is called.
-- * Retriever/Clean, Retriever/Chunking and Retriever/Tokens are the text functions of
--   backend/retriever.py: `clean_text`, `split_text` with `_split_by_separators`,
--   `_merge_segments`, `_tail_overlap` and `_hard_split_text`, the tokenizers `bm25_tokenize` and
--   `tokenize`, and `is_document_overview_query`. A regular expression is a scan of its own.
-- * Retriever/Ingest is `KnowledgeBase._chunks_from_reader`: from the pages of a PDF to parent and
--   child chunks, which go through `clean_text` and twice through `split_text`.
-- * Retriever/Bm25 is `BM25Index`; Retriever/Uploads the naming of uploaded files.
-- * Retriever/Store is the state of `KnowledgeBase` and its methods `add_pdf`, `upsert_pdf`,
--   `delete_source`, `rebuild_from_uploads` and `clear`. Each returns its result or its exception
--   with the store it leaves. `set_chunks` is the sequence they share under the lock: assign the
--   chunks, save them, rebuild the indexes. The lock makes each method one step.
-- * Retriever/Saved has the dictionaries of chunks.json, and Retriever/Startup the way back from
--   the disk: `_chunk_from_dict`, `_load_or_rebuild_index` and `KnowledgeBase.__init__`.
-- * Retriever/Rerank is `RerankerBackend` and Retriever/Search is `KnowledgeBase.search`, with the
--   fusion `_rrf_fuse`, the overview results and `_merge_search_results`.
-- * Graph is backend/graph.py: Graph/Routing the choice of a route from the question, Graph/Llm
--   `invoke_llm` with its retries, Graph/Web the Tavily search, Graph/Evidence the judgement of
--   local results, Graph/Nodes the nodes, and Graph/Workflow the compiled graph: run a node, merge
--   its update into the state, follow the edge. Graph/Grounded runs it over Retriever/Search.
-- * Api is how a handler ends: with a value, with an `AppError` of backend/core/exceptions.py, or
--   with another exception. Models has the rows of backend/models and their tables. Dict is
--   Python's `dict` with texts for keys.
-- * Accounts is backend/services/auth_service.py with backend/api/deps.py and
--   backend/api/v1/auth.py: Accounts/Passwords and Accounts/Tokens over bcrypt and JSON Web Tokens,
--   Accounts/Service the registration and the login, Accounts/Access `get_current_user` and
--   `require_admin`.
-- * Memory is backend/services/memory_service.py with backend/api/v1/memories.py: Memory/Keys the
--   tests and normal forms of texts, Memory/Extract the candidates of a message, Memory/Store the
--   table, Memory/Turn what a chat stores and recalls, Memory/Routes the handlers. Memory/Steps is
--   the relation of one call after the other, by one user, on the table.
-- * Chat/Cache is backend/services/cache_service.py over the commands of Redis; Chat/Service is
--   `run_chat` of backend/services/chat_service.py, which looks into the cache, runs Graph with the
--   history and the memory, and keeps the turn; Chat/Sessions is backend/api/v1/sessions.py and the
--   route `/chat` of backend/api/v1/chat.py; Chat/Changes is the relation of their calls.
-- * Documents/Records and Documents/Tasks are backend/tasks/document_tasks.py: the records of the
--   documents and one attempt of `process_pdf_task`, with the clean-up of
--   backend/tasks/scheduled_tasks.py; Documents/Routes is the upload under its lock and the
--   deletion of a source, of backend/api/v1/documents.py.
-- * Server is `Search` and `IndexDocument` of rag-service/server.py, the entry for the changes of
--   documents that Kafka delivers.
-- * Effects is the monad of the graph: an exception is a value with its message, and the calls of
--   the model, of the web search and of `time.sleep` are written to a log. Float is the interface
--   of the scores. Prelude has what the modules share.
-- * Tests runs the models on small inputs and applies the theorems to them.
--
-- What stands outside and is a parameter: the language model and Tavily, which answer by all that
-- was sent before or raise; the embedding backend and the PDF reader, which answer or raise; the
-- FAISS search; the request to the rerank endpoint; `uuid4`, as a sequence of identifiers; where
-- the path of an upload leads; the float arithmetic, without NaN; the environment; bcrypt, the
-- tokens' library, MD5 and JSON; the commands of Redis, and how its clock goes; the clock, as an
-- argument; the order of
-- texts in the database and the `updated_at` that it gives a row that is written. The laws asked of
-- them are that a password is accepted against its own hash, that a token is read as its claims
-- until it expires, and what Redis documents of its commands: a value that is set for a time is
-- read until it expires, and a counter counts. A statement of SQLAlchemy is the filter, the sort
-- and the cut that it says; a call is one step, since each request has a transaction of its own,
-- and the database raises nothing.
--
-- Bounds and fuel. The hard split runs on the length of its text as fuel, which is enough where
-- the chunk size is not 0, for each round then passes a character; at 0 the source does not end.
-- The graph has LangGraph's limit of 25 steps, and a run needs four at most. The retries of the
-- model are the three rounds of the source. Sizes, ranks and page numbers are natural numbers.
--
-- Not modelled: metrics, logging and `stats`; JSON as text; the model loading and HTTP of the
-- embedding backend; failures of the disk; the event stream `/chat/stream` and the routes
-- `/embeddings` and `/rerank`; what FastAPI validates; the queued upload, the query of tasks and
-- the messages to MySQL and Kafka; the start of the gRPC server; the Go gateway and sync service;
-- the frontend, the evaluation tool and the tests of the repository.
mod Prelude
pub mod Text
pub mod Dict
pub mod Float
pub mod Retriever
pub mod Effects
pub mod Api
pub mod Chat
pub mod Documents
pub mod Server
pub mod Models
pub mod Accounts
pub mod Memory
pub mod Graph
mod Tests
