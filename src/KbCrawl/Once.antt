-- ===== src/KbCrawl/Once.antt =====
-- No address is requested twice.
use mathlib.Core.List.{append_assoc}
use mathlib.Core.Path.{subst}
use ai_wa_chat_agent_be.Prelude.{
  ℕ, zero, suc, ◌≡◌, refl, inl, inr, Bool, true, false, not, ◌&&◌, ◌||◌, Option, none, some, List,
  [], ◌∷◌, ◌++◌, arith, if◌then◌else◌, ltb, leb, ◌==◌, Bool-cases, Option-cases, length, min,
  is_some,
}
use ai_wa_chat_agent_be.Prelude.Text.{Text, text_eq}
use ai_wa_chat_agent_be.KbCrawl.Scope.{Urls, CrawlConfig, in_scope}
use ai_wa_chat_agent_be.KbCrawl.Slice.{
  CrawlState, StoppedReason, Extracted, Fetched, fetch_error, answered, Round, Decision, ended,
  again, CrawlLimits, visit_all, visit_links, take_page, take_answer, follow, close, one_round,
  crawl, seed, page_limit, crawl_slice,
}
use ai_wa_chat_agent_be.KbCrawl.Frontier.{
  Distinct-drop, Known-drop, Known-more, addresses, touched, IsFresh, visit-IsFresh,
}

module _ (urls : Urls) (cfg : CrawlConfig) where
  visit_links-IsFresh :
      (links : List Text) (depth : ℕ) (s : CrawlState)
      → IsFresh s
      → IsFresh (visit_links urls cfg links depth s)
  unfolding visit_links
  visit_links-IsFresh [] depth s h = h
  visit_links-IsFresh (link ∷ links) depth s h =
      elim (Bool-cases (in_scope urls cfg (urls.normalize_url link))) [
        | inl y ↦
            rw y (
              visit_links-IsFresh links depth _ (visit-IsFresh (urls.normalize_url link) depth s h))
        | inr n ↦ rw n (visit_links-IsFresh links depth s h)
      ]

  note_final-IsFresh :
      (url final : Text) (s : CrawlState)
      → IsFresh s
      → IsFresh (if text_eq final url then s else record s { seen = s.seen ++ final ∷ [] })
  note_final-IsFresh url final s h = elim (Bool-cases (text_eq final url)) [
    | inl y ↦ rw y h
    | inr n ↦ rw n (record {
      distinct = h.distinct;
      known = Known-more s.seen (final ∷ []) (touched s) h.known;
      bounded = h.bounded;
    })
  ]

  take_page-IsFresh :
      (max_depth depth : ℕ) (final : Text) (page : Extracted) (s : CrawlState)
      → IsFresh s
      → IsFresh (take_page urls cfg max_depth depth final page s)
  unfolding take_page
  take_page-IsFresh max_depth depth final page s h =
      let counted : CrawlState = record s { fetched = suc s.fetched } in
      let start : IsFresh counted = record {
        distinct = h.distinct;
        known = h.known;
        bounded = h.bounded;
      } in
      let linked = visit_links-IsFresh page.links (suc depth) counted start in
      elim (Bool-cases (ltb depth max_depth)) [
        | inl y ↦ elim (Bool-cases page.is_thin) [
          | inl t ↦
              rw (y, t)
                (record {
                  distinct = linked.distinct;
                  known = linked.known;
                  bounded = linked.bounded;
                })
          | inr f ↦
              rw (y, f)
                (record {
                  distinct = linked.distinct;
                  known = linked.known;
                  bounded = linked.bounded;
                })
        ]
        | inr n ↦ elim (Bool-cases page.is_thin) [
          | inl t ↦
              rw (n, t) (record { distinct = h.distinct; known = h.known; bounded = h.bounded })
          | inr f ↦
              rw (n, f) (record { distinct = h.distinct; known = h.known; bounded = h.bounded })
        ]
      ]

  count_error-IsFresh : (s : CrawlState) → IsFresh s → IsFresh (record s { errors = suc s.errors })
  count_error-IsFresh s h = record { distinct = h.distinct; known = h.known; bounded = h.bounded }

  take_answer-IsFresh :
      (max_depth : ℕ) (url : Text) (depth : ℕ) (answer : Fetched) (s : CrawlState)
      → IsFresh s
      → IsFresh (take_answer urls cfg max_depth url depth answer s)
  unfolding take_answer
  take_answer-IsFresh max_depth url depth fetch_error s h = count_error-IsFresh s h
  take_answer-IsFresh max_depth url depth (answered status address page) s h =
      let final = urls.normalize_url address in
      elim (Bool-cases
        (not (status == 200) || (not (text_eq final url) && not (in_scope urls cfg final)))) [
          | inl bad ↦ rw bad (count_error-IsFresh s h)
          | inr good ↦ elim (Option-cases page) [
            | inl nothing ↦
                rw (good, nothing) (count_error-IsFresh _ (note_final-IsFresh url final s h))
            | inr (p, there) ↦
                rw (good, there)
                  (take_page-IsFresh max_depth depth final p _ (note_final-IsFresh url final s h))
          ]
        ]

  pub follow-IsFresh :
      (max_depth : ℕ) (round : Round) (url : Text) (depth : ℕ) (queue : List (Text × ℕ))
      (s : CrawlState)
      → IsFresh (record s { frontier = (url, depth) ∷ queue })
      → IsFresh (follow urls cfg max_depth round url depth (record s { frontier = queue }))
  unfolding follow
  follow-IsFresh max_depth round url depth queue s h =
      let moved : (s.requests ++ url ∷ []) ++ addresses queue
          ≡ s.requests ++ url ∷ addresses queue =
        append_assoc s.requests (url ∷ []) (addresses queue) in
      elim (Bool-cases (round.allowed url)) [
        | inl y ↦ rw y (
            take_answer-IsFresh max_depth url depth (round.fetch url) _ (record {
              distinct = rw moved h.distinct;
              known = rw moved h.known;
              bounded = omega (arith, h.bounded);
            }))
        | inr n ↦ rw n (record {
          distinct = Distinct-drop s.requests (addresses queue) url h.distinct;
          known = Known-drop s.seen s.requests (addresses queue) url h.known;
          bounded = omega (arith, h.bounded);
        })
      ]

close-IsFresh : (s : CrawlState) → IsFresh s → IsFresh (close s)
unfolding close
close-IsFresh s h =
    elim (Bool-cases (not (ltb 0 (length s.frontier)) && not (is_some s.stopped_reason))) [
      | inl y ↦ rw y (record { distinct = h.distinct; known = h.known; bounded = h.bounded })
      | inr n ↦ rw n h
    ]

stop-IsFresh :
    (reason : StoppedReason) (s : CrawlState)
    → IsFresh s
    → IsFresh (record s { stopped_reason = some reason })
stop-IsFresh reason s h = record { distinct = h.distinct; known = h.known; bounded = h.bounded }

abbrev pub DecisionFresh : Decision → Type 0
DecisionFresh (ended t) = IsFresh t
DecisionFresh (again t) = IsFresh t

-- What both branches have, the choice has.
pub if_has : {A : Type 0} (P : A → Type 0) (b : Bool) (x y : A) → P x → P y → P (if b then x else y)
if_has P true x y hx hy = hx
if_has P false x y hx hy = hy

module _ (urls : Urls) (cfg : CrawlConfig) (max_pages max_depth : ℕ) where
  pub one_round-DecisionFresh :
      (round : Round) (queue : List (Text × ℕ)) (s : CrawlState)
      → s.frontier ≡ queue
      → IsFresh s
      → DecisionFresh (one_round urls cfg max_pages max_depth round queue s)
  unfolding one_round
  one_round-DecisionFresh round [] s e h = close-IsFresh s h
  one_round-DecisionFresh round ((url, depth) ∷ queue) s e h =
      let followed = follow-IsFresh urls cfg max_depth round url depth queue s (record {
        distinct = rw e at h.distinct;
        known = rw e at h.known;
        bounded = rw e at h.bounded;
      }) in
      if_has DecisionFresh (leb max_pages s.fetched) _ _
        (close-IsFresh _ (stop-IsFresh StoppedReason.max_pages_reached s h))
        (if_has DecisionFresh round.over_budget _ _
          (close-IsFresh _ (stop-IsFresh StoppedReason.time_budget s h))
          (if_has DecisionFresh (ltb 0 s.in_slice && round.slice_over) _ _ (close-IsFresh s h)
            followed))

abbrev pub FreshIf : Option CrawlState → Type 0
FreshIf none = Unit
FreshIf (some t) = IsFresh t

module _ (urls : Urls) (cfg : CrawlConfig) (max_pages max_depth : ℕ) (rounds : ℕ → Round) where
  after_round :
      (fuel : ℕ) (d : Decision)
      → DecisionFresh d
      → ((t : CrawlState) → IsFresh t → FreshIf (crawl urls cfg fuel max_pages max_depth rounds t))
      → FreshIf
          (elim d [ ended t ↦ some t | again t ↦ crawl urls cfg fuel max_pages max_depth rounds t ])
  after_round fuel (ended t) h ih = h
  after_round fuel (again t) h ih = ih t h

  crawl-FreshIf :
      (fuel : ℕ) (s : CrawlState)
      → IsFresh s
      → FreshIf (crawl urls cfg fuel max_pages max_depth rounds s)
  unfolding crawl
  crawl-FreshIf zero s h = tt
  crawl-FreshIf (suc fuel) s h =
      after_round fuel _
        (one_round-DecisionFresh urls cfg max_pages max_depth (rounds fuel) s.frontier s refl h)
        (λ t k. crawl-FreshIf fuel t k)

visit_all-IsFresh :
    (us : List Text) (depth : ℕ) (s : CrawlState) → IsFresh s → IsFresh (visit_all us depth s)
unfolding visit_all
visit_all-IsFresh [] depth s h = h
visit_all-IsFresh (u ∷ us) depth s h = visit_all-IsFresh us depth _ (visit-IsFresh u depth s h)

pub seed-IsFresh :
    (urls : Urls) (cfg : CrawlConfig) (sitemap_urls : List Text) (s : CrawlState)
    → IsFresh s
    → IsFresh (seed urls cfg sitemap_urls s)
unfolding seed
seed-IsFresh urls cfg sitemap_urls s h =
    let start = urls.normalize_url cfg.start_url in
    let all = visit_all-IsFresh sitemap_urls 1 _ (visit-IsFresh start 0 s h) in
    if_has IsFresh s.seeded _ _ h
      (record { distinct = all.distinct; known = all.known; bounded = all.bounded })

-- A slice of a crawl, whatever the clock, robots.txt and the web answer: if no address was requested
-- twice before, none of those that wait was requested, and none waits twice, then so it is after the
-- slice, over all requests of this and the earlier ones.
pub crawl_slice-IsFresh :
    (urls : Urls) (cfg : CrawlConfig) (limits : CrawlLimits) (fuel : ℕ) (rounds : ℕ → Round)
    (sitemap_urls : List Text) (s t : CrawlState)
    → IsFresh s
    → crawl_slice urls cfg limits fuel rounds sitemap_urls s ≡ some t
    → IsFresh t
unfolding crawl_slice
crawl_slice-IsFresh urls cfg limits fuel rounds sitemap_urls s t h e =
    let begun : CrawlState = record s { in_slice = 0 } in
    let start : IsFresh begun = record {
      distinct = h.distinct;
      known = h.known;
      bounded = h.bounded;
    } in
    let done =
      crawl-FreshIf urls cfg (page_limit urls cfg limits) (min cfg.max_depth limits.max_depth)
        rounds fuel (seed urls cfg sitemap_urls begun)
        (seed-IsFresh urls cfg sitemap_urls begun start) in
    subst FreshIf e done
