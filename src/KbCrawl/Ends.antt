-- ===== src/KbCrawl/Ends.antt =====
-- A slice ends, and a crawl keeps the limit of its pages.
use ai_wa_chat_agent_be.Prelude.{
  ℕ, zero, suc, ◌+◌, ◌*◌, ◌-◌, ◌≤◌, ◌<◌, ◌≡◌, refl, ◌∙◌, ap, ◌⊎◌, inl, inr, not, ◌&&◌, Option, none,
  some, List, [], ◌∷◌, ◌++◌, arith, if◌then◌else◌, ltb, leb, Bool-cases, length, min, max, is_some,
}
use ai_wa_chat_agent_be.Prelude.Text.{Text, text_eq}
use ai_wa_chat_agent_be.KbCrawl.Scope.{Urls, CrawlConfig, in_scope}
use ai_wa_chat_agent_be.KbCrawl.Slice.{
  CrawlState, Extracted, Fetched, fetch_error, answered, Round, Decision, ended, again, CrawlLimits,
  frontier_cap, visit, visit_all, visit_links, take_page, take_answer, follow, close, one_round,
  crawl, seed, page_limit, crawl_slice,
}
use ai_wa_chat_agent_be.KbCrawl.Frontier.{IsFresh}
use ai_wa_chat_agent_be.KbCrawl.Once.{
  one_round-DecisionFresh, DecisionFresh, if_has, follow-IsFresh, seed-IsFresh,
}

visit-fetched : (u : Text) (depth : ℕ) (s : CrawlState) → (visit u depth s).fetched ≡ s.fetched
unfolding visit
visit-fetched u depth s = if_has (λ (t : CrawlState). t.fetched ≡ s.fetched) _ _ _ refl refl

-- Either a page was taken, or the frontier is as it was.
abbrev Progress : CrawlState → CrawlState → Type 0
Progress s t = ((t.fetched ≡ s.fetched) × (t.frontier ≡ s.frontier)) ⊎ (t.fetched ≡ suc s.fetched)

module _ (urls : Urls) (cfg : CrawlConfig) where
  visit_links-fetched :
      (links : List Text) (depth : ℕ) (s : CrawlState)
      → (visit_links urls cfg links depth s).fetched ≡ s.fetched
  unfolding visit_links
  visit_links-fetched [] depth s = refl
  visit_links-fetched (link ∷ links) depth s =
      let n = urls.normalize_url link in
      visit_links-fetched links depth _
      ∙ if_has (λ (t : CrawlState). t.fetched ≡ s.fetched) (in_scope urls cfg n) _ _
          (visit-fetched n depth s) refl

  take_page-fetched :
      (max_depth depth : ℕ) (final : Text) (page : Extracted) (s : CrawlState)
      → (take_page urls cfg max_depth depth final page s).fetched ≡ suc s.fetched
  unfolding take_page
  take_page-fetched max_depth depth final page s =
      let counted : CrawlState = record s { fetched = suc s.fetched } in
      let linked =
        if_has (λ (t : CrawlState). t.fetched ≡ suc s.fetched) (ltb depth max_depth) _ _
          (visit_links-fetched page.links (suc depth) counted) refl in
      if_has (λ (t : CrawlState). t.fetched ≡ suc s.fetched) page.is_thin _ _ linked linked

  note_final-Progress :
      (url final : Text) (s : CrawlState)
      → let t = if text_eq final url then s else record s { seen = s.seen ++ final ∷ [] } in
        (t.fetched ≡ s.fetched) × (t.frontier ≡ s.frontier)
  note_final-Progress url final s =
      if_has (λ (t : CrawlState). (t.fetched ≡ s.fetched) × (t.frontier ≡ s.frontier))
        (text_eq final url) _ _ (refl, refl) (refl, refl)

  take_answer-Progress :
      (max_depth : ℕ) (url : Text) (depth : ℕ) (answer : Fetched) (s : CrawlState)
      → Progress s (take_answer urls cfg max_depth url depth answer s)
  unfolding take_answer
  take_answer-Progress max_depth url depth fetch_error s = inl (refl, refl)
  take_answer-Progress max_depth url depth (answered status address none) s =
      if_has (Progress s) _ _ _ (inl (refl, refl))
        (inl (note_final-Progress url (urls.normalize_url address) s))
  take_answer-Progress max_depth url depth (answered status address (some p)) s =
      let final = urls.normalize_url address in
      if_has (Progress s) _ _ _ (inl (refl, refl)) (
        inr (
          take_page-fetched max_depth depth final p _ ∙ ap suc (note_final-Progress url final s).0))

  follow-Progress :
      (max_depth : ℕ) (round : Round) (url : Text) (depth : ℕ) (s : CrawlState)
      → Progress s (follow urls cfg max_depth round url depth s)
  unfolding follow
  follow-Progress max_depth round url depth s =
      if_has (Progress s) (round.allowed url) _ _
        (take_answer-Progress max_depth url depth (round.fetch url) _) (inl (refl, refl))

-- The rounds that a crawl can still take: for each page left, a full frontier and the page itself.
unfoldable pub enough_fuel : ℕ → CrawlState → ℕ
enough_fuel max_pages s = (max_pages - s.fetched) * suc frontier_cap + length s.frontier

close-fetched : (s : CrawlState) → (close s).fetched ≡ s.fetched
unfolding close
close-fetched s =
    if_has (λ (t : CrawlState). t.fetched ≡ s.fetched)
      (not (ltb 0 (length s.frontier)) && not (is_some s.stopped_reason)) _ _ refl refl

-- A round that is not the last leaves fewer to come, and none takes a page beyond the limit.
abbrev Nearer : ℕ → CrawlState → Decision → Type 0
Nearer max_pages s (ended t) = t.fetched ≤ max max_pages s.fetched
Nearer max_pages s (again t) =
    (t.fetched ≤ max_pages) × (enough_fuel max_pages t < enough_fuel max_pages s)

follow-Nearer :
    (max_pages : ℕ) (s t : CrawlState) (q : Text × ℕ) (queue : List (Text × ℕ))
    → s.frontier ≡ q ∷ queue
    → s.fetched < max_pages
    → length t.frontier ≤ frontier_cap
    → Progress (record s { frontier = queue }) t
    → (t.fetched ≤ max_pages) × (enough_fuel max_pages t < enough_fuel max_pages s)
unfolding enough_fuel
follow-Nearer max_pages s t q queue e lt bound (inl (same, front)) =
    (omega arith, omega (arith, ap length front, ap length e))
follow-Nearer max_pages s t q queue e lt bound (inr taken) =
    (omega arith, omega (arith, ap length e))

module _ (urls : Urls) (cfg : CrawlConfig) (max_pages max_depth : ℕ) where
  one_round-Nearer :
      (round : Round) (queue : List (Text × ℕ)) (s : CrawlState)
      → s.frontier ≡ queue
      → IsFresh s
      → Nearer max_pages s (one_round urls cfg max_pages max_depth round queue s)
  unfolding one_round
  one_round-Nearer round [] s e h = omega (arith, close-fetched s)
  one_round-Nearer round ((url, depth) ∷ queue) s e h =
      elim (Bool-cases (leb max_pages s.fetched)) [
        | inl full ↦ rw full (omega (arith, close-fetched _))
        | inr room ↦
            let followed = follow-IsFresh urls cfg max_depth round url depth queue s (record {
              distinct = rw e at h.distinct;
              known = rw e at h.known;
              bounded = rw e at h.bounded;
            }) in
            let near =
              follow-Nearer max_pages s _ (url, depth) queue e (ground (arith, room))
                followed.bounded
                (follow-Progress urls cfg max_depth round url depth
                  (record s { frontier = queue })) in
            rw room (
              if_has (Nearer max_pages s) round.over_budget _ _ (omega (arith, close-fetched _)) (
                if_has (Nearer max_pages s) (ltb 0 s.in_slice && round.slice_over) _ _
                  (omega (arith, close-fetched s)) near))
      ]

module _ (urls : Urls) (cfg : CrawlConfig) (max_pages max_depth : ℕ) (rounds : ℕ → Round) where
  abbrev EndsFrom : CrawlState → Option CrawlState → Type 0
  EndsFrom s out = (t : CrawlState) × (out ≡ some t) × (t.fetched ≤ max max_pages s.fetched)

  after_round :
      (fuel : ℕ) (s : CrawlState) (d : Decision)
      → enough_fuel max_pages s < suc fuel
      → Nearer max_pages s d
      → DecisionFresh d
      → ((t : CrawlState)
          → enough_fuel max_pages t < fuel
          → IsFresh t
          → EndsFrom t (crawl urls cfg fuel max_pages max_depth rounds t))
      → EndsFrom s
          (elim d [ ended t ↦ some t | again t ↦ crawl urls cfg fuel max_pages max_depth rounds t ])
  after_round fuel s (ended t) enough near fresh ih = (t, refl, near)
  after_round fuel s (again t) enough (kept, near) fresh ih =
      let (r, e, le) = ih t (omega arith) fresh in (r, e, omega arith)

  crawl-EndsFrom :
      (fuel : ℕ) (s : CrawlState)
      → enough_fuel max_pages s < fuel
      → IsFresh s
      → EndsFrom s (crawl urls cfg fuel max_pages max_depth rounds s)
  unfolding crawl
  crawl-EndsFrom zero s enough h = absurd (omega arith)
  crawl-EndsFrom (suc fuel) s enough h =
      let fresh =
        one_round-DecisionFresh urls cfg max_pages max_depth (rounds fuel) s.frontier s refl h in
      after_round fuel s _ enough
        (one_round-Nearer urls cfg max_pages max_depth (rounds fuel) s.frontier s refl h) fresh
        (λ t less k. crawl-EndsFrom fuel t less k)

visit_all-fetched :
    (us : List Text) (depth : ℕ) (s : CrawlState) → (visit_all us depth s).fetched ≡ s.fetched
unfolding visit_all
visit_all-fetched [] depth s = refl
visit_all-fetched (u ∷ us) depth s = visit_all-fetched us depth _ ∙ visit-fetched u depth s

seed-fetched :
    (urls : Urls) (cfg : CrawlConfig) (us : List Text) (s : CrawlState)
    → (seed urls cfg us s).fetched ≡ s.fetched
unfolding seed
seed-fetched urls cfg us s =
    if_has (λ (t : CrawlState). t.fetched ≡ s.fetched) s.seeded _ _ refl
      (visit_all-fetched us 1 _ ∙ visit-fetched (urls.normalize_url cfg.start_url) 0 s)

-- A slice of a crawl whose requests and waiting addresses are distinct and known, and whose frontier
-- keeps its limit: with fuel for a full frontier per page that is left, and one round more, it ends,
-- whatever the clock, robots.txt and the web answer. It takes no page beyond the limit of the pages,
-- or beyond those that were taken before.
pub crawl_slice-ends :
    (urls : Urls) (cfg : CrawlConfig) (limits : CrawlLimits) (rounds : ℕ → Round)
    (sitemap_urls : List Text) (s : CrawlState)
    → IsFresh s
    → let fuel = suc (suc (page_limit urls cfg limits - s.fetched) * suc frontier_cap) in
      (t : CrawlState) × (crawl_slice urls cfg limits fuel rounds sitemap_urls s ≡ some t)
      × (t.fetched ≤ max (page_limit urls cfg limits) s.fetched)
unfolding crawl_slice enough_fuel
crawl_slice-ends urls cfg limits rounds sitemap_urls s h =
    let begun : CrawlState = record s { in_slice = 0 } in
    let start =
      seed-IsFresh urls cfg sitemap_urls begun
        (record { distinct = h.distinct; known = h.known; bounded = h.bounded }) in
    let same = seed-fetched urls cfg sitemap_urls begun in
    let (t, e, le) =
      crawl-EndsFrom urls cfg (page_limit urls cfg limits) (min cfg.max_depth limits.max_depth)
        rounds (suc (suc (page_limit urls cfg limits - s.fetched) * suc frontier_cap))
        (seed urls cfg sitemap_urls begun) (omega (arith, same, start.bounded)) start in
    (t, e, omega (arith, same))
