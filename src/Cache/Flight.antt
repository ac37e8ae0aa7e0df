-- ===== src/Cache/Flight.antt =====
-- What a fetch leaves for the next call, and a flight that is forgotten (crates/ozint/src/cache.rs).
use ozint.Base.{
  ℕ, suc, ◌<◌, String, Bool, false, ◌≡◌, refl, ap, ◌∙◌, if◌then◌else◌, arith, Option, none, some,
  Map, get, insert, remove, string_eq, pair_eq, ℕ_eq, get-insert, get-remove, get-insert_self,
  eq_self, ==_iff, ◌==◌,
}
use ozint.Cache.{
  follow, stored, Cell, ToolCache, map_key, peek, join_cell, set_cell, is_empty_cell, lead,
  fail_fetch, stored, succeed, leave, Fetched, fetched, fetch_failed, led, after_lead, fetch_alone,
  get_or_fetch,
}

forgotten : (k : String) (inflight : Map String ℕ) → get k (remove k inflight) ≡ none
forgotten k inflight = ground (arith, get-remove k k inflight, eq_self k)

get-older :
    {V : Type 0} (cell next : ℕ) (a b c : Cell V) (cells : Map ℕ (Cell V))
    → cell < next
    → get cell cells ≡ some c
    → get cell (insert next a (insert next b cells)) ≡ some c
get-older cell next a b c cells below r =
    let apart : (next == cell) ≡ false = ground (arith, ==_iff next cell, below) in
    rw (get-insert next cell a (insert next b cells), apart, get-insert next cell b cells, apart) r

module _ {V : Type 0} where
  -- The cache after the caller joined an empty cell of its own, under a key without a flight.
  joined : String → ToolCache V → ToolCache V
  joined k cache = record cache {
    inflight = insert k cache.next_cell cache.inflight;
    cells = insert cache.next_cell Cell.running (insert cache.next_cell Cell.empty cache.cells);
    next_cell = suc cache.next_cell;
  }

  lead-join_cell :
      (k : String) (cache : ToolCache V)
      → get k cache.inflight ≡ none
      → lead (join_cell k cache).0 (join_cell k cache).1 ≡ some (joined k cache)
  unfolding joined lead join_cell set_cell is_empty_cell
  lead-join_cell k cache h =
      rw (h, join_cell) (rw (get-insert_self cache.next_cell Cell.empty cache.cells) refl)

  join_cell-next :
      (k : String) (cache : ToolCache V)
      → get k cache.inflight ≡ none
      → (join_cell k cache).0 ≡ cache.next_cell
  unfolding join_cell
  join_cell-next k cache h = rw (h, join_cell) refl

  -- A caller that goes alone, under a key without a flight, leads a cell of its own.
  fetch_alone-led :
      (now : ℕ) (tool_id key : String) (answer : Fetched V) (write : V → Option String)
      (cache : ToolCache V)
      → get (map_key tool_id key) cache.inflight ≡ none
      → fetch_alone now tool_id key answer write cache
        ≡ after_lead now tool_id key answer write cache.next_cell
            (join_cell (map_key tool_id key) cache).1
            (some (joined (map_key tool_id key) cache))
  unfolding fetch_alone
  fetch_alone-led now tool_id key answer write cache h =
      let k : String = map_key tool_id key in
      ap
        (λ cell.
          after_lead now tool_id key answer write cell (join_cell k cache).1
            (lead (join_cell k cache).0 (join_cell k cache).1))
        (join_cell-next k cache h)
      ∙ ap (after_lead now tool_id key answer write cache.next_cell (join_cell k cache).1)
          (lead-join_cell k cache h)

  -- A caller that waits on the cell of a fetch is answered what the fetch gave.
  follow-succeed :
      (now : ℕ) (tool_id key : String) (cell : ℕ) (value : V) (written : Option String)
      (cache : ToolCache V)
      → let settled = succeed tool_id key now cell value written cache in
        follow (map_key tool_id key) (get cell settled.cells) settled
        ≡ some (fetched value, leave (map_key tool_id key) settled)
  unfolding follow succeed set_cell
  follow-succeed now tool_id key cell value written cache =
      rw (get-insert_self cell (Cell.ready value) (stored tool_id key now written cache).cells) refl

-- A call fetches, alone, where it bypasses the rows or finds none that is fresh.
get_or_fetch-miss :
    {V : Type 0} (parse : String → Option V) (now ttl_ms : ℕ) (bypass : Bool) (tool_id key : String)
    (answer : Fetched V) (write : V → Option String) (cache : ToolCache V)
    → (if bypass then none else peek parse now ttl_ms tool_id key cache) ≡ none
    → get_or_fetch parse now ttl_ms bypass tool_id key answer write cache
      ≡ fetch_alone now tool_id key answer write cache
unfolding get_or_fetch fetch_alone
get_or_fetch-miss parse now ttl_ms bypass tool_id key answer write cache miss =
    rw (miss, get_or_fetch) refl

-- A call that misses or bypasses the rows, and whose fetch fails under a key without a flight, answers
-- the error. It writes no row and leaves no flight behind.
pub get_or_fetch-failed :
    {V : Type 0} (parse : String → Option V) (now ttl_ms : ℕ) (bypass : Bool)
    (tool_id key error : String) (write : V → Option String) (cache : ToolCache V)
    → (if bypass then none else peek parse now ttl_ms tool_id key cache) ≡ none
    → get (map_key tool_id key) cache.inflight ≡ none
    → (after : ToolCache V) × (get_or_fetch parse now ttl_ms bypass tool_id key
            (fetch_failed error)
            write
            cache
          ≡ some (fetch_failed error, after)
        × (after.rows ≡ cache.rows)
        × (get (map_key tool_id key) after.inflight ≡ none))
unfolding after_lead led fail_fetch set_cell leave joined
get_or_fetch-failed parse now ttl_ms bypass tool_id key error write cache miss h =
    let k : String = map_key tool_id key in
    (
      leave k (fail_fetch cache.next_cell (joined k cache)),
      (
        get_or_fetch-miss parse now ttl_ms bypass tool_id key (fetch_failed error) write cache miss
            ∙ fetch_alone-led now tool_id key (fetch_failed error) write cache h,
        refl,
        forgotten k _,
      ),
    )

-- While a fetch for a key is under way, a caller of an earlier flight that leaves lets the next caller
-- start a second fetch for the same key.
pub leave-second_flight :
    {V : Type 0} (k : String) (cell : ℕ) (cache : ToolCache V)
    → get cell cache.cells ≡ some Cell.running
    → cell < cache.next_cell
    → let (second, joined_cache) = join_cell k (leave k cache) in
      (after : ToolCache V) × (lead second joined_cache ≡ some after
        × (get cell after.cells ≡ some Cell.running)
        × (get second after.cells ≡ some Cell.running)
        × (cell < second))
unfolding leave joined
leave-second_flight k cell cache r below =
    let free : get k (leave k cache).inflight ≡ none = forgotten k cache.inflight in
    let next : (join_cell k (leave k cache)).0 ≡ cache.next_cell =
      join_cell-next k (leave k cache) free in
    (
      joined k (leave k cache),
      (
        lead-join_cell k (leave k cache) free,
        get-older cell cache.next_cell Cell.running Cell.empty Cell.running cache.cells below r,
        rw next (
            get-insert_self cache.next_cell Cell.running
              (insert cache.next_cell Cell.empty cache.cells)),
        rw next below,
      ),
    )
