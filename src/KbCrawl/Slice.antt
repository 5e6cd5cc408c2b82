-- ===== src/KbCrawl/Slice.antt =====
-- app/services/kb/crawl.py, crawl_slice: one run of a crawl. A run takes fuel; what the clock and the web
-- answer is given for each round. The pauses between requests and the sitemaps' download are not
-- modelled.
use ai_wa_chat_agent_be.Prelude.{
  ℕ, zero, suc, Bool, true, not, ◌&&◌, ◌||◌, Option, none, some, List, [], ◌∷◌, ◌++◌, if◌then◌else◌,
  ltb, leb, ◌==◌, length, is_some, max, min, ◌-◌, ◌*◌, take, drop,
}
use ai_wa_chat_agent_be.Prelude.Text.{Text, text_eq, is_one_of}
use ai_wa_chat_agent_be.KbCrawl.Scope.{Urls, CrawlConfig, in_scope}

-- _FRONTIER_CAP
abbrev pub frontier_cap : ℕ
frontier_cap = 3000

pub data StoppedReason : Type 0 where
  max_pages_reached time_budget complete : StoppedReason

-- _SEEN_CAP
abbrev pub seen_cap : ℕ
seen_cap = 6000

-- CrawlState, with the addresses given to `fetch` and the pages handed out, oldest first; `in_slice` is
-- `fetched_this_slice`. What `fetch` requests itself to follow redirections is not recorded.
pub record CrawlState : Type 0 where
  pub frontier : List (Text × ℕ)
  pub seen : List Text
  pub seeded : Bool
  pub fetched : ℕ
  pub skipped_robots : ℕ
  pub errors : ℕ
  pub thin : ℕ
  pub in_slice : ℕ
  pub stopped_reason : Option StoppedReason
  pub requests : List Text
  pub pages : List Text

-- to_dict and from_dict: what is kept between two slices
unfoldable pub saved : CrawlState → CrawlState
saved s = record s {
  frontier = take frontier_cap s.frontier;
  seen = drop (length s.seen - seen_cap) s.seen;
}

-- An extracted page: its links, and whether its text is shorter than MIN_PAGE_CHARS.
pub record Extracted : Type 0 where
  pub links : List Text
  pub is_thin : Bool

-- `fetch`: a FetchError, or the status, the address after redirections and what is extracted.
pub data Fetched : Type 0 where
  fetch_error : Fetched
  answered : ℕ → Text → Option Extracted → Fetched

-- A round's clock and web: whether the crawl's or the slice's time is over, what robots.txt allows.
pub record Round : Type 0 where
  pub over_budget : Bool
  pub slice_over : Bool
  pub allowed : Text → Bool
  pub fetch : Text → Fetched

-- A job: its rounds, and what the sitemaps give.
pub record CrawlJob : Type 0 where
  pub rounds : ℕ → Round
  pub sitemap_urls : List Text

pub data Decision : Type 0 where
  ended again : CrawlState → Decision

-- of the settings: KB_CRAWL_DEFAULT_MAX_PAGES, KB_CRAWL_MAX_PAGES and KB_CRAWL_MAX_DEPTH
pub record CrawlLimits : Type 0 where
  pub default_max_pages : ℕ
  pub max_pages : ℕ
  pub max_depth : ℕ

-- _visit
unfoldable pub visit : Text → ℕ → CrawlState → CrawlState
visit u depth s =
    if not (is_one_of u s.seen) && ltb (length s.frontier) frontier_cap
    then record s { seen = s.seen ++ u ∷ []; frontier = s.frontier ++ (u, depth) ∷ [] }
    else s

unfoldable pub visit_all : List Text → ℕ → CrawlState → CrawlState
visit_all [] depth s = s
visit_all (u ∷ us) depth s = visit_all us depth (visit u depth s)

-- the end of the loop
unfoldable pub close : CrawlState → CrawlState
close s =
    if not (ltb 0 (length s.frontier)) && not (is_some s.stopped_reason)
    then record s { stopped_reason = some complete }
    else s

abbrev stop : StoppedReason → CrawlState → CrawlState
stop reason s = record s { stopped_reason = some reason }

module _ (urls : Urls) (cfg : CrawlConfig) where
  -- the loop over the links of a page
  unfoldable pub visit_links : List Text → ℕ → CrawlState → CrawlState
  visit_links [] depth s = s
  visit_links (link ∷ links) depth s =
      let n = urls.normalize_url link in
      visit_links links depth (if in_scope urls cfg n then visit n depth s else s)

  abbrev note_final : Text → Text → CrawlState → CrawlState
  note_final url final s = if text_eq final url then s else record s { seen = s.seen ++ final ∷ [] }

  -- a page that was extracted
  unfoldable pub take_page : ℕ → ℕ → Text → Extracted → CrawlState → CrawlState
  take_page max_depth depth final page s =
      let counted : CrawlState = record s { fetched = suc s.fetched } in
      let linked =
        if ltb depth max_depth then visit_links page.links (suc depth) counted else counted in
      if page.is_thin
      then record linked { thin = suc linked.thin }
      else record linked { pages = linked.pages ++ final ∷ [] }

  abbrev pub count_error : CrawlState → CrawlState
  count_error s = record s { errors = suc s.errors }

  -- what comes of a request
  unfoldable pub take_answer : ℕ → Text → ℕ → Fetched → CrawlState → CrawlState
  take_answer max_depth url depth fetch_error s = count_error s
  take_answer max_depth url depth (answered status address page) s =
      let final = urls.normalize_url address in
      if not (status == 200) || (not (text_eq final url) && not (in_scope urls cfg final))
      then count_error s
      else elim page [
        | none ↦ count_error (note_final url final s)
        | some p ↦ take_page max_depth depth final p (note_final url final s)
      ]

  -- the rest of a round, after `popleft`
  unfoldable pub follow : ℕ → Round → Text → ℕ → CrawlState → CrawlState
  follow max_depth round url depth s =
      if round.allowed url
      then take_answer max_depth url depth (round.fetch url)
          (record s { in_slice = suc s.in_slice; requests = s.requests ++ url ∷ [] })
      else record s { skipped_robots = suc s.skipped_robots }

  -- a round of the loop, with the frontier that it finds
  unfoldable pub one_round : ℕ → ℕ → Round → List (Text × ℕ) → CrawlState → Decision
  one_round max_pages max_depth round [] s = ended (close s)
  one_round max_pages max_depth round ((url, depth) ∷ queue) s =
      if leb max_pages s.fetched
      then ended (close (stop max_pages_reached s))
      else if round.over_budget
      then ended (close (stop time_budget s))
      else if ltb 0 s.in_slice && round.slice_over
      then ended (close s)
      else again (follow max_depth round url depth (record s { frontier = queue }))

  -- the loop, with the rounds that come; `none` is out of fuel
  unfoldable pub crawl : ℕ → ℕ → ℕ → (ℕ → Round) → CrawlState → Option CrawlState
  crawl zero max_pages max_depth rounds s = none
  crawl (suc fuel) max_pages max_depth rounds s =
      elim (one_round max_pages max_depth (rounds fuel) s.frontier s) [
        | ended t ↦ some t
        | again t ↦ crawl fuel max_pages max_depth rounds t
      ]

  -- the first slice's seeds: the start, and what the sitemaps gave
  unfoldable pub seed : List Text → CrawlState → CrawlState
  seed sitemap_urls s =
      if s.seeded
      then s
      else record (visit_all sitemap_urls 1 (visit (urls.normalize_url cfg.start_url) 0 s)) {
        seeded = true;
      }

  unfoldable pub page_limit : CrawlLimits → ℕ
  page_limit limits = max 1 (
      min (if cfg.max_pages == 0 then limits.default_max_pages else cfg.max_pages) limits.max_pages)

  unfoldable pub crawl_slice :
      CrawlLimits → ℕ → (ℕ → Round) → List Text → CrawlState → Option CrawlState
  crawl_slice limits fuel rounds sitemap_urls s =
      crawl fuel (page_limit limits) (min cfg.max_depth limits.max_depth) rounds
        (seed sitemap_urls (record s { in_slice = 0 }))

  -- a full frontier for each page that is left, and a round more
  abbrev pub slice_fuel : CrawlLimits → CrawlState → ℕ
  slice_fuel limits s = suc (suc (page_limit limits - s.fetched) * suc frontier_cap)

  -- the jobs of a crawl, each with one slice, until one of them stops it
  unfoldable pub crawl_jobs : CrawlLimits → List CrawlJob → CrawlState → Option CrawlState
  crawl_jobs limits [] s = some s
  crawl_jobs limits (j ∷ js) s =
      elim (crawl_slice limits (slice_fuel limits s) j.rounds j.sitemap_urls s) [
        | none ↦ none
        | some t ↦ if is_some t.stopped_reason then some t else crawl_jobs limits js (saved t)
      ]
