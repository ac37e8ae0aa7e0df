-- ===== src/Examples/Fetches.antt =====
-- A cache with one flight under way, and a call for another key.
use ozint.Base.{arith, String, true, ◌≡◌, ◌<◌, refl, none, some, [], ◌∷◌, get, string_eq, ℕ_eq}
use ozint.Cache.{Cell, ToolCache, map_key, get_or_fetch, join_cell, leave, lead, fetch_failed}
use ozint.Cache.Flight.{get_or_fetch-failed, leave-second_flight}

abbrev busy : ToolCache String
busy = record {
  rows = (("hibp", "a@x.io"), ("old", 10)) ∷ [];
  inflight = (map_key "hibp" "a@x.io", 0) ∷ [];
  cells = (0, Cell.running) ∷ [];
  next_cell = 1;
}

get_or_fetch-failed_example :
    (after : ToolCache String) × (get_or_fetch some 100 60 true "github" "jane"
          (fetch_failed "timeout")
          some
          busy
        ≡ some (fetch_failed "timeout", after)
      × (after.rows ≡ busy.rows)
      × (get (map_key "github" "jane") after.inflight ≡ none))
unfolding get map_key
get_or_fetch-failed_example =
    get_or_fetch-failed some 100 60 true "github" "jane" "timeout" some busy refl refl

leave-second_flight_example :
    let (second, joined_cache) =
      join_cell (map_key "hibp" "a@x.io") (leave (map_key "hibp" "a@x.io") busy) in
    (after : ToolCache String) × (lead second joined_cache ≡ some after
      × (get 0 after.cells ≡ some Cell.running)
      × (get second after.cells ≡ some Cell.running)
      × (0 < second))
unfolding get
leave-second_flight_example =
    leave-second_flight (map_key "hibp" "a@x.io") 0 busy refl (omega arith)
