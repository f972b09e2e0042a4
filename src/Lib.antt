-- ===== src/Lib.antt =====
-- Multi-model computer vision API: a FastAPI service that classifies images, detects objects and
-- finds similar images with models run by ONNX Runtime, with limits per caller, an audit trail, A/B
-- experiments and a result cache.
--
-- The parts, and how a request meets them. What is built before the first request, and what a start
-- needs, is `lifespan` of api/main.py (Startup), with the versions that are found on disk
-- (Models.Versions). A request passes the middleware of api/middleware/monitoring.py, which gives
-- it a correlation id and counts it, and an exception becomes a response by the handlers of
-- api/main.py (Web); the probes are api/routers/health.py (Health). The settings are read and
-- validated at start (Config, api/config.py). The models are loaded then, each by the first backend
-- of a chain that works (Loading, api/services/model_service.py), on sessions that the runtime
-- checks (Runtime, api/services/runtime.py), into the registry that serves a version by name
-- (Models, the same file); the experiments are read against the loaded versions (Experiments,
-- api/services/experiment_service.py and models/validation/ab_testing.py). A request passes the
-- rate limiter (RateLimit, api/middleware/rate_limit.py), its version is resolved by the
-- experiment, its upload is read and validated (Uploads, api/utils/validators.py and `_read_upload`
-- of api/routers/classification.py), the cache is asked (Cache, api/services/cache_service.py), the
-- model runs (Inference, api/services/inference_service.py), and a record is queued for the audit
-- trail (Audit, api/services/audit_service.py). An error on the way is one of the classes of
-- api/exceptions.py (Errors). The route that puts these together, with the counter of its
-- inferences, is `classify_image` (Routes, the rest of api/routers/classification.py and
-- `record_inference` of api/middleware/monitoring.py).
--
-- Beside that path: the callers' keys and tokens (Auth, api/middleware/auth.py and
-- api/routers/auth.py); the batch jobs, submitted and polled through api/routers/batch.py and run
-- by worker/tasks.py (Batch); the search for similar images (Similarity,
-- api/services/similarity_service.py); the detector with its decoder (Detect,
-- api/services/detection_service.py); the sizes of the preprocessing (Preprocess,
-- api/utils/image_processing.py); the comparison of a candidate's metrics with the baseline
-- (Regression, models/validation/regression.py) and of two windows of traffic (Drift,
-- models/validation/drift.py); the analysis of an experiment (Experiments.Analysis and
-- Experiments.Reports, models/validation/ab_testing.py); and the control of the training loop
-- (Training, models/training/pipeline.py).
--
-- How state and operations correspond. A service object is a record (AuditService, ModelService,
-- CacheService, Registry, Store); a method is a function of the same name from that record to the
-- next one, and where a method awaits, its continuation is a step of its own (Audit, `Step`, over
-- the states of `_run`). An exception is the `err` of a result; where other classes than those of
-- api/exceptions.py reach a caller, by their name (`Raised`). A `dict` is a list of entries in
-- order of first insertion (Prelude.Dict). Prelude holds the shared names: Boolean tests, lists
-- measured by native numbers, results, signed integers, `sorted` on texts, and floats as an
-- interface.
--
-- What is a parameter: Redis, by the sorted-set and text commands that are used; the database, by
-- whether an insert commits and a query answers; FastAPI's router, by what a route returns or
-- raises; Pillow, by what it reads from a header; ONNX Runtime, numpy and the file system, by the
-- calls made; httpx, by what a response delivers; Celery, by what its backend holds of a job;
-- PyJWT, by the encoding and decoding of claims; FAISS, by the hits of a search; the statistics of
-- scipy; SHA-256 and floating-point arithmetic, by their operations. A theorem that relies on more
-- than the type of such an operation names it as a hypothesis.
--
-- Bounds and fuel. Each loop of the code walks a list or counts down. Only `codes` of
-- Models.Versions runs on fuel, the bytes of a text, of which it has at least as many as
-- characters. All numbers are Python's, which do not wrap; the clock and the retry delay are in
-- whole units of the clock, as `RateLimit` says where they are defined.
--
-- Not modelled: what training does to a model, the optimisation and benchmarking scripts, the
-- database schema and its migrations, logging, and `create_app` with its routers, which do I/O or
-- call libraries; the pixels of the preprocessing, and the routes of detection and similarity,
-- which are left for later.
mod Prelude
pub mod Errors
pub mod Config
pub mod Uploads
pub mod Auth
pub mod RateLimit
pub mod Runtime
pub mod Models
pub mod Loading
pub mod Cache
pub mod Inference
pub mod Batch
pub mod Audit
pub mod Startup
pub mod Experiments
pub mod Regression
pub mod Drift
pub mod Routes
pub mod Web
pub mod Health
pub mod Training
pub mod Similarity
pub mod Preprocess
pub mod Detect
