-- ===== src/Engine/Prefix.antt =====
-- llm_serve/engine/prefix_cache.py: the map from chained block hashes to pinned blocks, in the order
-- of use, and its methods. The block manager that the cache shares with the scheduler is part of
-- the state of a method. `hashlib.blake2b(...).hexdigest()` is the parameter `digest`.
pub mod Order
pub mod Payload
pub mod Chain
pub mod Find
pub mod Add
pub mod Evict
pub mod Publish
use llm_serve.Prelude.{
  ℕ, zero, suc, ◌+◌, ◌-◌, ◌*◌, ◌/◌, Bool, true, false, not, ◌&&◌, Option, none, some, List, [], ◌∷◌,
  ◌++◌, length, take, drop, Str, codes, show, Dict, lookup, insert, remove, ltb, leb, ◌==◌,
  if◌then◌else◌, is_some, value_error, key_error, Result, ok, err, Exec, pure, continue, ◌>>=◌,
  ◌>>◌, get_state,
}
use llm_serve.Engine.Blocks.{BlockManager, Ratio}
use llm_serve.Engine.Blocks

pub record PrefixMatch : Type 0 where
  pub block_ids : List ℕ
  pub num_cached_tokens : ℕ
  pub num_prompt_tokens : ℕ

unfoldable pub num_cached_blocks : PrefixMatch → ℕ
num_cached_blocks r = length r.block_ids

abbrev pub is_empty {ℓ} : {A : Type ℓ} → List A → Bool
is_empty [] = true
is_empty (x ∷ xs) = false

-- `PrefixMatch.hit`
unfoldable pub is_hit : PrefixMatch → Bool
is_hit r = not (is_empty r.block_ids)

unfoldable pub fraction : PrefixMatch → Ratio
fraction r =
    if leb r.num_prompt_tokens 0
    then record { num = 0; den = 1 }
    else record { num = r.num_cached_tokens; den = r.num_prompt_tokens }

pub record PrefixCacheStats : Type 0 where
  pub entries : ℕ
  pub queried_blocks : ℕ
  pub hit_blocks : ℕ
  pub hit_rate : Ratio
  pub evictions : ℕ
  pub queries : ℕ
  pub queries_with_hit : ℕ

-- `entries` is the ordered dictionary `_entries`, least recently used first.
pub record PrefixCache : Type 0 where
  pub enabled : Bool
  pub max_entries : Option ℕ
  pub entries : Dict ℕ
  pub queried_blocks : ℕ
  pub hit_blocks : ℕ
  pub evictions : ℕ
  pub queries : ℕ
  pub queries_with_hit : ℕ

unfoldable pub init : Bool → Option ℕ → PrefixCache
init enabled max_entries = record {
  enabled = enabled;
  max_entries = max_entries;
  entries = [];
  queried_blocks = 0;
  hit_blocks = 0;
  evictions = 0;
  queries = 0;
  queries_with_hit = 0;
}

-- The cache and the block manager that it refers to.
pub record Shared : Type 0 where
  pub cache : PrefixCache
  pub blocks : BlockManager

unfoldable pub hit_rate : PrefixCache → Ratio
hit_rate c =
    if c.queried_blocks == 0
    then record { num = 0; den = 1 }
    else record { num = c.hit_blocks; den = c.queried_blocks }

-- `xs[a:b]`
abbrev pub slice : List ℕ → ℕ → ℕ → List ℕ
slice xs a b = take (b - a) (drop a xs)

-- `b",".join(str(t) for t in chunk)`
unfoldable pub join_tokens : List ℕ → Str
join_tokens [] = []
join_tokens (t ∷ []) = show t
join_tokens (t ∷ u ∷ rest) = show t ++ b',' ∷ join_tokens (u ∷ rest)

unfoldable pub payload : Str → List ℕ → Str
unfolding join_tokens
payload parent chunk = parent ++ b'|' ∷ join_tokens chunk

abbrev pub prefix_seed : Str
prefix_seed = codes "llm_serve/v1"

-- `OrderedDict.move_to_end(h)` of a key that is there.
abbrev to_end : Str → Option ℕ → Dict ℕ → Dict ℕ
to_end h none d = d
to_end h (some b) d = remove h d ++ (h, b) ∷ []

unfoldable pub move_to_end : Str → Dict ℕ → Dict ℕ
move_to_end h d = to_end h (lookup h d) d

-- The loop of `lookup`: the blocks found before the first miss, and the entries in their new order.
unfoldable pub match_blocks : List Str → Dict ℕ → List ℕ × Dict ℕ
unfolding move_to_end
match_blocks [] d = ([], d)
match_blocks (h ∷ hs) d =
    let found = match_blocks hs (move_to_end h d) in
    elim (lookup h d) [ none ↦ ([], d) | some b ↦ (b ∷ found.0, found.1) ]

-- `matched.pop()`
unfoldable pub drop_last : List ℕ → List ℕ
drop_last [] = []
drop_last (b ∷ []) = []
drop_last (b ∷ c ∷ rest) = b ∷ drop_last (c ∷ rest)

-- Never the entire prompt.
unfoldable pub trim : List ℕ → ℕ → ℕ → List ℕ
unfolding drop_last
trim matched block_size num_prompt =
    if not (is_empty matched) && leb num_prompt (length matched * block_size)
    then drop_last matched
    else matched

abbrev pop_oldest : Dict ℕ → Exec Shared ℕ
pop_oldest [] s = (err key_error, s)
pop_oldest ((h, b) ∷ rest) s = (
  ok b,
  record s { cache = record (s.cache) { entries = rest; evictions = s.cache.evictions + 1 } },
)

-- An action of the block manager, as one of the shared state.
abbrev pub on_blocks : {A : Type 0} → Exec BlockManager A → Exec Shared A
on_blocks act s = ((act s.blocks).0, record s { blocks = (act s.blocks).1 })

unfoldable pub evict_one : Exec Shared Bool
evict_one = do s ← get_state; b ← pop_oldest s.cache.entries; on_blocks (Blocks.unpin b)

-- The loop of `_enforce_capacity`; the fuel bounds the evictions.
unfoldable pub evict_above : ℕ → ℕ → Exec Shared (Unit {0})
evict_above zero limit = pure tt
evict_above (suc fuel) limit = do
  s ← get_state
  if ltb limit (length s.cache.entries) then (do evict_one; evict_above fuel limit) else pure tt

abbrev enforce : Option ℕ → Exec Shared (Unit {0})
enforce none s = (ok tt, s)
enforce (some limit) s = evict_above (length s.cache.entries) limit s

unfoldable pub enforce_capacity : Exec Shared (Unit {0})
enforce_capacity s = enforce s.cache.max_entries s

-- The loop of `evict`: how many blocks became free.
unfoldable pub evict : ℕ → Exec Shared ℕ
evict zero = pure 0
evict (suc n) = do
  s ← get_state
  if is_empty s.cache.entries
      then pure 0
      else (do freed ← evict_one; rest ← evict n; pure ((if freed then 1 else 0) + rest))

-- The loop of `clear`; the fuel bounds the evictions.
unfoldable pub clear_from : ℕ → Exec Shared (Unit {0})
clear_from zero = pure tt
clear_from (suc fuel) = do
  s ← get_state
  if is_empty s.cache.entries then pure tt else (do evict_one; clear_from fuel)

unfoldable pub clear : Exec Shared (Unit {0})
clear s = clear_from (length s.cache.entries) s

abbrev pub with_entries : Shared → Dict ℕ → Shared
with_entries s d = record s { cache = record (s.cache) { entries = d } }

-- The loop of `insert` over `zip(hashes, block_ids)`: how many entries were added.
unfoldable pub publish : List Str → List ℕ → Exec Shared ℕ
unfolding move_to_end
publish [] bs s = (ok 0, s)
publish (h ∷ hs) [] s = (ok 0, s)
publish (h ∷ hs) (b ∷ bs) s = elim (is_some (lookup h s.cache.entries)) [
  | true ↦ publish hs bs (with_entries s (move_to_end h s.cache.entries))
  | false ↦
      (on_blocks (Blocks.pin b) >>= λ _ s'.
      (publish hs bs >>= λ added. pure (added + 1)) (with_entries s' (insert h b s'.cache.entries)))
        s
]

module _ (digest : Str → Str) where
  -- The loop of `hash_blocks` from block `i`, for `n` blocks.
  unfoldable pub hash_from : List ℕ → ℕ → ℕ → ℕ → Str → List Str
  unfolding payload
  hash_from token_ids block_size i zero parent = []
  hash_from token_ids block_size i (suc n) parent =
      let chunk = slice token_ids (i * block_size) ((i + 1) * block_size) in
      let h = digest (payload parent chunk) in h ∷ hash_from token_ids block_size (suc i) n h

  unfoldable pub hash_blocks : List ℕ → ℕ → Result (List Str)
  hash_blocks token_ids block_size =
      if ltb block_size 1
      then err value_error
      else ok (hash_from token_ids block_size 0 (length token_ids / block_size) prefix_seed)

  abbrev matching : List ℕ → List Str → Exec Shared PrefixMatch
  matching token_ids hashes s =
      let found = match_blocks hashes s.cache.entries in
      let size = s.blocks.block_size in
      let matched = trim found.0 size (length token_ids) in
      (
        ok (record {
          block_ids = matched;
          num_cached_tokens = length matched * size;
          num_prompt_tokens = length token_ids;
        }),
        record s {
          cache = record (s.cache) {
            entries = found.1;
            queries = s.cache.queries + 1;
            queried_blocks = s.cache.queried_blocks + length hashes;
            hit_blocks = s.cache.hit_blocks + length matched;
            queries_with_hit = s.cache.queries_with_hit + (if is_empty matched then 0 else 1);
          };
        },
      )

  -- `PrefixCache.lookup`
  unfoldable pub find : List ℕ → Exec Shared PrefixMatch
  unfolding hash_blocks
  find token_ids = do
    s ← get_state
    if not s.cache.enabled
        then pure
            (record { block_ids = []; num_cached_tokens = 0; num_prompt_tokens = length token_ids })
        else (λ s'. continue (hash_blocks token_ids s'.blocks.block_size) (matching token_ids) s')

  -- `PrefixCache.insert`
  unfoldable pub add : List ℕ → List ℕ → Exec Shared ℕ
  unfolding hash_blocks
  add token_ids block_ids = do
    s ← get_state
    if not s.cache.enabled then pure 0 else (do
      hashes ← (λ s'. (hash_blocks token_ids s'.blocks.block_size, s'))
      added ← publish hashes block_ids
      enforce_capacity
      pure added)

unfoldable pub stats : PrefixCache → PrefixCacheStats
unfolding hit_rate
stats c = record {
  entries = length c.entries;
  queried_blocks = c.queried_blocks;
  hit_blocks = c.hit_blocks;
  hit_rate = hit_rate c;
  evictions = c.evictions;
  queries = c.queries;
  queries_with_hit = c.queries_with_hit;
}
