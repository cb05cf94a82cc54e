-- ===== src/Backends/Mock.antt =====
-- llm_serve/backends/mock.py: the deterministic backend. The stream waits at each sleep and each yield;
-- what other tasks do to the object meanwhile is the argument `others`, by the number of the wait: 0 in
-- `start`, 1 for the prefill, 2 * i + 1 before the i-th token and 2 * i + 2 after it.
use llm_serve.Prelude.{
  ℕ, zero, suc, ◌+◌, ◌*◌, ◌==◌, Bool, true, false, not, ◌&&◌, ◌||◌, Option, none, some, List, [],
  ◌∷◌, ◌++◌, length, Str, codes, str_eq, pos, leb, Result, ok, err, value_error, type_error,
  if◌then◌else◌,
}
use llm_serve.Prelude.Results.{◌>>=◌, ensure}
use llm_serve.Values.{Value, int, str, list, dict}
use llm_serve.Types.{FinishReason, TokenChunk, is_empty, prompt_len}
use llm_serve.Api.Sse.{starts_with}
use llm_serve.Api.Schemas.{ApiRequest}
pub mod Streams
pub mod Counts
pub mod Clients

-- Python's `set` of texts
unfoldable pub set_has : Str → List Str → Bool
set_has id [] = false
set_has id (s ∷ ids) = str_eq s id || set_has id ids

unfoldable pub set_add : Str → List Str → List Str
unfolding set_has
set_add id ids = if set_has id ids then ids else ids ++ id ∷ []

unfoldable pub set_discard : Str → List Str → List Str
set_discard id [] = []
set_discard id (s ∷ ids) = let rest = set_discard id ids in if str_eq s id then rest else s ∷ rest

pub record MockBackend : Type 0 where
  pub is_started : Bool
  pub aborted : List Str
  pub active : List Str
  pub prompt_tokens : ℕ
  pub generation_tokens : ℕ
  pub completed : ℕ

unfoldable pub init : MockBackend
init = record {
  is_started = false;
  aborted = [];
  active = [];
  prompt_tokens = 0;
  generation_tokens = 0;
  completed = 0;
}

-- After its wait
unfoldable pub start : MockBackend → MockBackend
start m = record m { is_started = true }

unfoldable pub stop : MockBackend → MockBackend
stop m = record m { aborted = []; active = []; is_started = false }

unfoldable pub abort : Str → MockBackend → MockBackend
abort id m = record m { aborted = set_add id m.aborted }

-- `needle in text`
unfoldable pub contains : Str → Str → Bool
unfolding starts_with
contains needle [] = is_empty needle
contains needle (c ∷ s) = starts_with needle (c ∷ s) || contains needle s

module _ {Float : Type 0} where
  -- `any(s and s in text for s in stops)`; a SamplingParams has checked that all are texts.
  unfoldable pub stop_hits : List (Value Float) → Str → Bool
  unfolding contains
  stop_hits [] text = false
  stop_hits (str s ∷ stops) text = (not (is_empty s) && contains s text) || stop_hits stops text
  stop_hits (v ∷ stops) text = stop_hits stops text

  -- The number of tokens that `range` counts; a SamplingParams has checked that it is an int.
  unfoldable pub token_count : Value Float → ℕ
  token_count (int (pos n)) = n
  token_count _ = 0

-- The words that a random source picks
unfoldable pub picked : (ℕ → Str) → ℕ → ℕ → List Str
picked word i zero = []
picked word i (suc n) = word i ∷ picked word (i + 1) n

-- `encode("utf-8")` refuses a lone surrogate.
unfoldable pub encodes : Str → Bool
encodes [] = true
encodes (c ∷ s) = not (leb 55296 c && leb c 57343) && encodes s

-- `random.Random` takes no list and no dictionary; without a seed it gets an int.
unfoldable pub seeds : {Float : Type 0} → Value Float → Bool
seeds (list vs) = false
seeds (dict fs) = false
seeds _ = true

-- `_tokens_for`; a UnicodeEncodeError is a ValueError.
unfoldable pub tokens_for : {Float : Type 0} → (ℕ → Str) → ApiRequest Float → Result (List Str)
unfolding picked encodes seeds token_count
tokens_for word request = ensure (encodes request.request.prompt) value_error >>= λ _.
    ensure (seeds request.sampling.seed) type_error >>= λ _.
    ok (picked word 0 (token_count request.sampling.max_tokens))

-- The chunks of a stream, how it ends, and the object after it.
pub record Streamed (Time : Type 0) : Type 0 where
  pub chunks : List (TokenChunk Time)
  pub outcome : Result (Unit {0})
  pub after : MockBackend

-- The first token has no space before it.
abbrev pub text_at : ℕ → Str → Str
text_at i token = if i == 0 then token else codes " " ++ token

module _ {Float Time : Type 0} (request : ApiRequest Float) (word : ℕ → Str) (token_id : Str → ℕ)
    (clock : ℕ → Time) (others : ℕ → MockBackend → MockBackend) where
  abbrev pub id : Str
  id = request.request.request_id

  abbrev pub last_chunk : ℕ → FinishReason → TokenChunk Time
  last_chunk i reason = record {
    request_id = id;
    index = i;
    text = [];
    token_id = none;
    finish_reason = some reason;
    timestamp = clock i;
  }

  abbrev pub token_chunk : ℕ → Str → Str → TokenChunk Time
  token_chunk i token text = record {
    request_id = id;
    index = i;
    text = text;
    token_id = some (token_id token);
    finish_reason = none;
    timestamp = clock i;
  }

  -- The last chunk is yielded, and the request counts as completed.
  abbrev pub complete : ℕ → FinishReason → MockBackend → List (TokenChunk Time) × MockBackend
  complete i reason m =
      let later = others (2 * i + 2) m in
      (last_chunk i reason ∷ [], record later { completed = later.completed + 1 })

  abbrev pub waited : ℕ → MockBackend → MockBackend
  waited i m = if i == 0 then m else others (2 * i + 1) m

  abbrev pub counted : MockBackend → MockBackend
  counted m = record m { generation_tokens = m.generation_tokens + 1 }

  -- The loop over the tokens, from the `i`-th on.
  unfoldable pub stream_from : List Str → ℕ → MockBackend → List (TokenChunk Time) × MockBackend
  unfolding set_has stop_hits
  stream_from [] i m = complete i FinishReason.length_limit m
  stream_from (token ∷ tokens) i m =
      let text = text_at i token in
      let rest = stream_from tokens (i + 1) (others (2 * i + 2) (counted (waited i m))) in
      if set_has id m.aborted
      then (last_chunk i FinishReason.abort ∷ [], others (2 * i + 2) m)
      else if stop_hits request.sampling.stop text
      then complete i FinishReason.stop (waited i m)
      else (token_chunk i token text ∷ rest.0, rest.1)

  -- The `finally` block
  abbrev pub cleared : MockBackend → MockBackend
  cleared m = record m { active = set_discard id m.active; aborted = set_discard id m.aborted }

  abbrev pub entered : MockBackend → MockBackend
  entered m =
      let ready = if m.is_started then m else start (others 0 m) in
      record ready {
        active = set_add id ready.active;
        prompt_tokens = ready.prompt_tokens + prompt_len request.request;
      }

  -- After the prefill; an exception of `_tokens_for` passes the loop by.
  unfoldable pub streamed : Result (List Str) → MockBackend → Streamed Time
  unfolding stream_from set_discard
  streamed (err e) m = record { chunks = []; outcome = err e; after = cleared m }
  streamed (ok tokens) m =
      let done = stream_from tokens 0 m in
      record { chunks = done.0; outcome = ok tt; after = cleared done.1 }

  unfoldable pub generate_stream : MockBackend → Streamed Time
  unfolding start set_add tokens_for streamed
  generate_stream m = streamed (tokens_for word request) (others 1 (entered m))
