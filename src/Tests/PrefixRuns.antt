-- ===== src/Tests/PrefixRuns.antt =====
-- The theorems on llm_serve/engine/prefix_cache.py at concrete caches.
use llm_serve.Prelude.{ℕ, ◌≤◌, ◌≡◌, refl, some, List, [], ◌∷◌, length, get_elem?, Str, ok}
use llm_serve.Engine.Prefix
use llm_serve.Engine.Prefix.{
  Shared, with_entries, payload, prefix_seed, find, evict, enforce_capacity, clear, add,
}
use llm_serve.Engine.Prefix.Order.{Reordered}
use llm_serve.Engine.Prefix.Find.{hashes, found_match, searched, find_lem, IsPinned}
use llm_serve.Engine.Prefix.Add.{add-limited}
use llm_serve.Tests.Samples.{
  digest, prompt, busy, busy-Inv, busy_enabled, full, full-IsPinned, first_blocks,
  first_blocks-owned,
}

abbrev cached : Shared
cached = busy.shared

abbrev other : List ℕ
other = 1 ∷ 2 ∷ 3 ∷ 4 ∷ 7 ∷ []

find_lem_example :
    (find digest other cached ≡ (
      ok (found_match digest cached other),
      record cached { cache = searched digest cached other },
    ))
    × Reordered cached.cache.entries (searched digest cached other).entries
find_lem_example = find_lem digest cached other busy-Inv.pinned busy_enabled

add-limited_example :
    (added : ℕ) × (t : Shared) × (add digest prompt first_blocks full ≡ (ok added, t))
    × IsPinned t
    × (length t.cache.entries ≤ 1)
add-limited_example =
    add-limited digest full prompt first_blocks full-IsPinned first_blocks-owned busy_enabled 1 refl

abbrev parent : Str
parent = 48 ∷ []

abbrev chunk : List ℕ
chunk = 1 ∷ 2 ∷ []

-- The hash of the block that the two prompts share.
abbrev shared_hash : Str
shared_hash = digest (payload prefix_seed (1 ∷ 2 ∷ 3 ∷ 4 ∷ []))

first_hash : get_elem? (hashes digest prompt 4) 0 ≡ some shared_hash
unfolding Prefix.hash_from
first_hash = refl

second_hash : get_elem? (hashes digest other 4) 0 ≡ some shared_hash
unfolding Prefix.hash_from
second_hash = refl
