-- ===== src/Cache.antt =====
-- crates/ozint/src/cache.rs, with its rows in store.rs: the cache of fetched values and its
-- single flight. The steps of a caller between two awaits are functions, so that the calls of several
-- callers interleave. serde's two directions on values are parameters.
pub mod Flight
use ozint.Base.{
  ℕ, suc, ◌-◌, ◌*◌, String, Bool, true, false, not, ◌&&◌, ◌||◌, if◌then◌else◌, leb, Option, none,
  some, List, [], ◌∷◌, concat, Map, get, insert, remove, string_eq, pair_eq, ℕ_eq,
}

-- `OnceCell`: nothing yet, an initializer under way, or a value.
pub data Cell (V : Type 0) : Type 0 where
  empty : Cell V
  running : Cell V
  ready : V → Cell V

-- The rows of `oz_tool_cache`, the map of flights, and the cells that exist: an `Arc` is a number.
pub record ToolCache (V : Type 0) : Type 0 where
  pub rows : Map (String × String) (String × ℕ)
  pub inflight : Map String ℕ
  pub cells : Map ℕ (Cell V)
  pub next_cell : ℕ

unfoldable pub map_key : String → String → String
map_key tool_id key = concat (tool_id ∷ "\u{1}" ∷ key ∷ [])

unfoldable pub get_cache_entry : {V : Type 0} → ToolCache V → String → String → Option (String × ℕ)
get_cache_entry cache tool_id key = get (tool_id, key) cache.rows

unfoldable pub put_cache_entry :
    {V : Type 0} → String → String → String → ℕ → ToolCache V → ToolCache V
put_cache_entry tool_id key payload retrieved_at cache = record cache {
  rows = insert (tool_id, key) (payload, retrieved_at) cache.rows;
}

module _ {V : Type 0} (parse : String → Option V) where
  -- A row from the future is a miss, and so is one that is older than its time to live.
  unfoldable pub fresh_value : ℕ → ℕ → String × ℕ → Option V
  fresh_value now ttl_ms (payload, retrieved_at) =
      if not (leb retrieved_at now) || not (leb (now - retrieved_at) ttl_ms)
      then none
      else parse payload

  unfoldable pub peek : ℕ → ℕ → String → String → ToolCache V → Option V
  unfolding fresh_value get_cache_entry
  peek now ttl_ms tool_id key cache = elim (get_cache_entry cache tool_id key) [
    | none ↦ none
    | some row ↦ fresh_value now ttl_ms row
  ]

module _ {V : Type 0} where
  -- `entry(map_key).or_insert_with(..).clone()`.
  unfoldable pub join_cell : String → ToolCache V → ℕ × ToolCache V
  join_cell k cache = elim (get k cache.inflight) [
    | some cell ↦ (cell, cache)
    | none ↦ (
      cache.next_cell,
      record cache {
        inflight = insert k cache.next_cell cache.inflight;
        cells = insert cache.next_cell Cell.empty cache.cells;
        next_cell = suc cache.next_cell;
      },
    )
  ]

  unfoldable pub set_cell : ℕ → Cell V → ToolCache V → ToolCache V
  set_cell cell c cache = record cache { cells = insert cell c cache.cells }

  unfoldable pub is_empty_cell : Option (Cell V) → Bool
  is_empty_cell (some Cell.empty) = true
  is_empty_cell _ = false

  -- A caller becomes the one that fetches, where the cell has neither a value nor a fetch.
  unfoldable pub lead : ℕ → ToolCache V → Option (ToolCache V)
  unfolding set_cell is_empty_cell
  lead cell cache =
      if is_empty_cell (get cell cache.cells) then some (set_cell cell Cell.running cache) else none

  -- A failed fetch leaves the cell without a value, so that the next caller fetches again.
  unfoldable pub fail_fetch : ℕ → ToolCache V → ToolCache V
  unfolding set_cell
  fail_fetch cell cache = set_cell cell Cell.empty cache

  -- What is written on success: `none` where the value has no rendering or the write fails.
  unfoldable pub stored : String → String → ℕ → Option String → ToolCache V → ToolCache V
  unfolding put_cache_entry
  stored tool_id key retrieved_at none cache = cache
  stored tool_id key retrieved_at (some payload) cache =
      put_cache_entry tool_id key payload retrieved_at cache

  unfoldable pub succeed : String → String → ℕ → ℕ → V → Option String → ToolCache V → ToolCache V
  unfolding set_cell stored
  succeed tool_id key retrieved_at cell value written cache =
      set_cell cell (Cell.ready value) (stored tool_id key retrieved_at written cache)

  -- After the cell has answered, each caller removes the entry of its key.
  unfoldable pub leave : String → ToolCache V → ToolCache V
  leave k cache = record cache { inflight = remove k cache.inflight }

-- What a fetch answers.
pub data Fetched (V : Type 0) : Type 0 where
  fetched : V → Fetched V
  fetch_failed : String → Fetched V

module _ {V : Type 0} where
  -- The fetch of the caller that leads. `write value` is what reaches the row.
  unfoldable pub led :
      ℕ
      → String
      → String
      → Fetched V
      → (V → Option String)
      → ℕ
      → ToolCache V
      → Fetched V × ToolCache V
  unfolding succeed fail_fetch
  led now tool_id key (fetched value) write cell cache =
      (fetched value, succeed tool_id key now cell value (write value) cache)
  led now tool_id key (fetch_failed error) write cell cache =
      (fetch_failed error, fail_fetch cell cache)

  -- A cell that has its value answers it, and the caller leaves.
  unfoldable pub follow : String → Option (Cell V) → ToolCache V → Option (Fetched V × ToolCache V)
  unfolding leave
  follow k (some (Cell.ready value)) cache = some (fetched value, leave k cache)
  follow k _ cache = none

  -- `none` waits for the fetch of another caller, and looks at the cell again when it ends.
  unfoldable pub after_lead :
      ℕ
      → String
      → String
      → Fetched V
      → (V → Option String)
      → ℕ
      → ToolCache V
      → Option (ToolCache V)
      → Option (Fetched V × ToolCache V)
  unfolding led leave map_key follow
  after_lead now tool_id key answer write cell joined none =
      follow (map_key tool_id key) (get cell joined.cells) joined
  after_lead now tool_id key answer write cell joined (some leading) =
      let (result, settled) = led now tool_id key answer write cell leading in
      some (result, leave (map_key tool_id key) settled)

  -- The part of the call that no other caller interleaves with.
  unfoldable pub fetch_alone :
      ℕ
      → String
      → String
      → Fetched V
      → (V → Option String)
      → ToolCache V
      → Option (Fetched V × ToolCache V)
  unfolding after_lead
  fetch_alone now tool_id key answer write cache =
      let (cell, joined) = join_cell (map_key tool_id key) cache in
      after_lead now tool_id key answer write cell joined (lead cell joined)

-- The whole call.
unfoldable pub get_or_fetch :
    {V : Type 0}
    → (String → Option V)
    → ℕ
    → ℕ
    → Bool
    → String
    → String
    → Fetched V
    → (V → Option String)
    → ToolCache V
    → Option (Fetched V × ToolCache V)
unfolding fetch_alone
get_or_fetch parse now ttl_ms bypass tool_id key answer write cache =
    elim (if bypass then none else peek parse now ttl_ms tool_id key cache) [
      | some value ↦ some (fetched value, cache)
      | none ↦ fetch_alone now tool_id key answer write cache
    ]
