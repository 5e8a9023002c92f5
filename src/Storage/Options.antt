-- ===== src/Storage/Options.antt =====
-- core/storage/util.go: the page of a list that is asked for.
use ttn.Base.{
  ℕ, ◌+◌, ◌-◌, ◌^◌, ◌%◌, ◌≤◌, ◌<◌, ◌≡◌, ◌↔◌, ◌&&◌, List, [], Option, none, some, Outcome, done,
  panics, arith, ltb, leb, if◌then◌else◌, length, take, drop, length-drop, drop-take, drop_beyond,
  take_beyond, take_all, take_nil,
}
use ttn.Storage.Redis.{Text}

pub record ListOptions : Type 0 where
  pub limit : ℕ
  pub offset : ℕ
  pub total : ℕ
  pub selected : ℕ

-- keys[start:end], the end being at most the length here.
slice : ℕ → ℕ → List Text → Outcome (List Text)
slice start stop keys =
    if leb start stop && leb stop (length keys) then done (drop start (take stop keys)) else panics

-- selectKeys with options, which it changes. Offset and Limit are added in uint64.
unfoldable pub select_page : List Text → ListOptions → Outcome (List Text) × ListOptions
unfolding slice
select_page keys options =
    let total = length keys in
    let sum = (options.offset + options.limit) % 2 ^ 64 in
    let limit = if ltb total sum then total - options.offset else options.limit in
    let limited = if ltb 0 options.limit then limit else options.limit in
    let stop = if ltb 0 options.limit then (options.offset + limited) % 2 ^ 64 else total in
    if leb total options.offset then (done [], record options { total = total }) else (
      slice options.offset stop keys,
      record options {
        total = total;
        limit = limited;
        selected = (stop + 2 ^ 64 - options.offset) % 2 ^ 64;
      },
    )

unfoldable pub select_keys :
    List Text → Option ListOptions → Outcome (List Text) × Option ListOptions
unfolding slice select_page
select_keys keys none = (slice 0 (length keys) keys, none)
select_keys keys (some options) =
    let (page, changed) = select_page keys options in (page, some changed)

-- The page, without machine integers: a limit of 0 is no limit.
abbrev pub page : ℕ → ℕ → List Text → List Text
page offset limit keys = if ltb 0 limit then take limit (drop offset keys) else drop offset keys

-- The call panics exactly if the offset lies within the list and the sum of offset and limit does
-- not fit in 64 bits.
pub select_page_panics_iff :
    (keys : List Text) (options : ListOptions)
    → length keys < 2 ^ 64
    → options.offset < 2 ^ 64
    → options.limit < 2 ^ 64
    → ((select_page keys options).0 ≡ panics)
      ↔ ((options.offset < length keys) × (2 ^ 64 ≤ options.offset + options.limit))
unfolding select_page slice
select_page_panics_iff keys options k o l = ((λ h. ground arith), (λ h. ground arith))

-- Where the sum of offset and limit fits in 64 bits, the result is the page that is asked for, and the
-- options hold the number of all keys.
pub select_page_lem :
    (keys : List Text) (options : ListOptions)
    → length keys < 2 ^ 64
    → options.offset + options.limit < 2 ^ 64
    → ((select_page keys options).0 ≡ done (page options.offset options.limit keys))
      × ((select_page keys options).1.total ≡ length keys)
unfolding select_page slice
select_page_lem keys options k s =
    let o = options.offset in
    let l = options.limit in
    (
      ground (
        arith,
        drop_beyond o keys,
        take_nil {A = Text} l,
        take_all keys,
        take_beyond l (drop o keys),
        length-drop o keys,
        drop-take o l keys,
      ),
      ground arith,
    )
