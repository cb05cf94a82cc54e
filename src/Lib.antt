-- ===== src/Lib.antt =====
-- llm_serve: an LLM serving system: its engine core, its configuration and its HTTP interface.
--
-- The program is an inference server. Its engine, llm_serve/engine/, is a CPU model of continuous
-- batching: a scheduler that builds a batch for each step of the GPU, a paged KV-cache block manager
-- that gives blocks to sequences, and a prefix cache that pins blocks of prompts for reuse. The HTTP
-- interface, llm_serve/api/, reads a body as a request, runs it on a backend and frames the chunks
-- that come back as server-sent events; the mock backend makes chunks without a GPU. A layered
-- configuration sets all of them up. The other packages are adapters to GPU engines, metrics and
-- benchmarks.
--
-- What models what:
-- * Engine/Blocks.antt is llm_serve/engine/block_manager.py. The class is a record with the same
--   fields; `free_list` is `_free` with the top of the stack first. Each method has its name, without
--   a leading underscore, and the loops of `allocate`, `append_tokens` and `free` are functions
--   of their own (`adopt`, `claim`, `grow`, `release_all`). The children hold the proofs.
-- * Engine/Prefix.antt is llm_serve/engine/prefix_cache.py. `lookup` is `find` and `insert` is `add`;
--   the `OrderedDict` is an association list, the oldest entry first. The methods run on a pair
--   of the cache and of the block manager that it pins blocks in.
-- * Engine/Scheduler.antt is llm_serve/engine/scheduler.py: Engine/Scheduler/State.antt has the data,
--   Lifecycle.antt preemption and the end of a sequence, Decode.antt `_schedule_decodes` and
--   `_schedule_swapped`, Prefill.antt `_schedule_prefills`, and Step.antt the constructor,
--   `add_request`, `step` and `run_until_idle`. The other children hold the proofs.
-- * Api/Sse.antt is llm_serve/api/sse.py: the framing of server-sent events and its parser, over the
--   texts of the JSON objects. `split("\n\n")` is one pass with a flag for a newline that was read.
-- * Api/ChatTemplate.antt is llm_serve/api/chat_template.py: the Mistral prompt of a message list; each
--   pass of the source over the messages is a function of its own.
-- * Types.antt is llm_serve/types.py: token chunks, and the accumulator that folds them into a result.
--   Times are of any type with a subtraction.
-- * Engine/Statistics.antt is llm_serve/engine/stats.py: `record` is `observe`, the bounded deque is a
--   list that drops its head, and the cache usage is of any type.
-- * Types/Sampling.antt is the decoding parameters of llm_serve/types.py with their checks.
-- * Values.antt and its children are Python values of any type, with `==`, `<`, `str`, `int` and
--   `float`, as configuration files and JSON bodies hold them.
-- * Config.antt is llm_serve/config.py. An object of a section is the dictionary of its attributes, as
--   `setattr` and `getattr` by name use it. Config/Sections.antt has the classes with their defaults,
--   Validate.antt their `validate`, Coerce.antt `_coerce` and `_apply_section`, Yaml.antt `_scalar`
--   and `_parse_simple_yaml`, and Layers.antt the overrides and `build_config`. The other children
--   hold the proofs.
-- * Api/Schemas.antt is llm_serve/api/openai_schemas.py, over JSON values.
-- * Api/App.antt is llm_serve/api/app.py: `stream_completion`, `run_completion` and the handler of the
--   completion routes. A run of a backend is the list of its chunks and how it ends; a reply has the
--   answer, the results that were recorded and the ids that were aborted.
-- * Backends/Base.antt is the registry of llm_serve/backends/base.py and its base class; a loader is the
--   class that it returns.
-- * Backends/Mock.antt is llm_serve/backends/mock.py. The stream is run from its start to its end; at
--   each sleep and each yield a function stands for what other tasks do to the object. It comes
--   back with its chunks, how it ends, and the object after it.
-- * Metrics/Registry.antt is llm_serve/metrics/registry.py up to the registry; a metric of any of the
--   classes is one record with its kind. Its children hold the proofs. Metrics/Math.antt is
--   `cumulative_bucket_counts` of llm_serve/metrics/math.py. Metrics/Serving.antt is the registry, the text format and the metrics
--   of the server; the metric that an attribute of `ServingMetrics` holds is found by its name.
-- * Prelude.antt and its children hold lists, strings, dictionaries, methods with exceptions, and the
--   rules of total correctness that the proofs about methods use. Tests.antt has concrete runs.
--
-- A method is a function from the state to a result or an exception and the state after it, so what
-- was written before an exception stays written. A sequence object, which Python shares between
-- the dictionary of ids and a queue, lives in the dictionary, and the queues hold ids.
--
-- Bounds and fuel: numbers of the engine are natural numbers, as Python's are unbounded and none
-- there is negative; those of configurations and bodies are integers. `_scalar` has the length of
-- its text as fuel, as each nesting takes a bracket off. A fraction (`usage`, `hit_rate`, the
-- watermark) is a pair of numbers. The preemption loop has the number of running sequences as
-- fuel, since each round takes one of them away, and the loops of the cache have that of its
-- entries. `run_until_idle` has the fuel of the source, `max_steps`.
--
-- Parameters: the BLAKE2 digest, the readings of clocks, the random sources, the hash of a text, the
-- JSON library, and the operations of floats with `repr` of a text are functions that the
-- definitions take.
--
-- Not modelled: the adapters to engines, the benchmarks, the deployment files and the scripts,
-- which do input and output, wrap libraries that are not in the repository, or compute with
-- floats; in the modelled files, the figures of the cache usage in stats.py, the rates of a result
-- in types.py, `__len__` of the cache, the look-up `get` of the scheduler, the unused padding
-- field of the block statistics, `load_yaml` and `to_dict` of the configuration, PyYAML documents
-- with keys that are not texts, Python's limit on the depth of calls, by which `_scalar` fails on
-- about a thousand nested brackets, digits and letters beyond ASCII in `int` and `lower`, the
-- texts of error messages, the other figures of the metrics and their values NaN and infinite, the
-- routes of the application that only report, and `health` and `stats` of the mock backend.
pub mod Prelude
pub mod Engine
pub mod Api
pub mod Types
pub mod Values
pub mod Config
pub mod Backends
pub mod Metrics
mod Tests
