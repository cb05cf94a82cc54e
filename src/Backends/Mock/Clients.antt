-- ===== src/Backends/Mock/Clients.antt =====
-- llm_serve/backends/mock.py and llm_serve/api/app.py: a client that reads a stream of the mock backend.
use llm_serve.Prelude.{Result, ok, err, Str}
use llm_serve.Api.App.{Ending, finished, failed}
use llm_serve.Backends.Mock.Streams.{Streams}

-- How `stream_completion` sees the end of a stream; an exception has the message.
abbrev pub ending_of : Str → Result (Unit {0}) → Ending
ending_of message (ok u) = finished
ending_of message (err e) = failed message
