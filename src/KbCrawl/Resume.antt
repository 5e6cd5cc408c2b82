-- ===== src/KbCrawl/Resume.antt =====
-- A crawl over several jobs, between which only a part of what was seen is kept.
use ai_wa_chat_agent_be.Prelude.{
  ℕ, zero, suc, ◌-◌, ◌<◌, ◌≤◌, ◌≡◌, refl, inl, inr, Bool, true, false, none, some, List, [], ◌∷◌,
  ◌++◌, arith, ltb, if◌then◌else◌, Bool-cases, length, take, is_some,
}
use ai_wa_chat_agent_be.Prelude.Text.{Text, is_one_of}
use ai_wa_chat_agent_be.KbCrawl.Scope.{Urls, CrawlConfig}
use ai_wa_chat_agent_be.KbCrawl.Slice.{
  CrawlState, CrawlLimits, CrawlJob, frontier_cap, seen_cap, saved, slice_fuel, visit, crawl_slice,
  crawl_jobs,
}
use ai_wa_chat_agent_be.KbCrawl.Frontier.{IsFresh}
use ai_wa_chat_agent_be.KbCrawl.Once.{crawl_slice-IsFresh}
use ai_wa_chat_agent_be.KbCrawl.Ends.{crawl_slice-ends}

take_all : (n : ℕ) (xs : List (Text × ℕ)) → length xs ≤ n → take n xs ≡ xs
take_all zero [] h = refl
take_all zero (x ∷ xs) h = absurd (omega (arith, h))
take_all (suc n) [] h = refl
take_all (suc n) (x ∷ xs) h = rw (take_all n xs (omega (arith, h))) refl

-- What is kept of a state that has seen no more than is kept is the state.
saved-short :
    (s : CrawlState) → length s.frontier ≤ frontier_cap → length s.seen ≤ seen_cap → saved s ≡ s
unfolding saved
saved-short s few short =
    let none_over : length s.seen - seen_cap ≡ 0 = omega (arith, short) in
    rw (take_all frontier_cap s.frontier few, none_over) refl

-- Does a job that is followed by another leave more addresses seen than are kept?
unfoldable pub outgrows : Urls → CrawlConfig → CrawlLimits → List CrawlJob → CrawlState → Bool
outgrows urls cfg limits [] s = false
outgrows urls cfg limits (j ∷ js) s =
    elim (crawl_slice urls cfg limits (slice_fuel urls cfg limits s) j.rounds j.sitemap_urls s) [
      | none ↦ false
      | some t ↦
          if is_some t.stopped_reason
          then false
          else if ltb seen_cap (length t.seen)
          then true
          else outgrows urls cfg limits js (saved t)
    ]

module _ (urls : Urls) (cfg : CrawlConfig) (limits : CrawlLimits) where
  -- A crawl of any number of jobs, whatever the clock, robots.txt and the web answer, none of which
  -- leaves more addresses seen than are kept for the next: if no address was given to `fetch` twice
  -- before, none of those that wait was given to it, and none waits twice, then every job ends with
  -- the fuel given, and so it is afterwards, over all jobs together.
  pub crawl_jobs-IsFresh :
      (js : List CrawlJob) (s : CrawlState)
      → IsFresh s
      → outgrows urls cfg limits js s ≡ false
      → (t : CrawlState) × (crawl_jobs urls cfg limits js s ≡ some t) × IsFresh t
  unfolding crawl_jobs outgrows
  crawl_jobs-IsFresh [] s h short = (s, refl, h)
  crawl_jobs-IsFresh (j ∷ js) s h short =
      let fuel = slice_fuel urls cfg limits s in
      let (u, ran, _) = crawl_slice-ends urls cfg limits j.rounds j.sitemap_urls s h in
      let fresh = crawl_slice-IsFresh urls cfg limits fuel j.rounds j.sitemap_urls s u h ran in
      elim (Bool-cases (is_some u.stopped_reason)) [
        | inl over ↦ (u, rw (ran, over, crawl_jobs) refl, fresh)
        | inr on ↦ elim (Bool-cases (ltb seen_cap (length u.seen))) [
          | inl much ↦ absurd (let d : true ≡ false = rw (ran, on, much, outgrows) at short in cc)
          | inr few ↦
              let same = saved-short u fresh.bounded (ground (arith, few)) in
              let (t, went_on, kept) =
                crawl_jobs-IsFresh js u fresh (rw (ran, on, few, same, outgrows) at short) in
              (t, rw (ran, on, crawl_jobs, same) went_on, kept)
        ]
      ]

-- Once the address that was seen first is beyond those that are kept, it is taken for a new one.
saved_forgets :
    (u : Text) (more : List Text) (depth : ℕ) (s : CrawlState)
    → s.seen ≡ u ∷ more
    → length more ≡ seen_cap
    → is_one_of u more ≡ false
    → length s.frontier < frontier_cap
    → (visit u depth (saved s)).frontier ≡ s.frontier ++ (u, depth) ∷ []
unfolding visit saved
saved_forgets u more depth s e n unknown room =
    let one_more : length s.seen - seen_cap ≡ 1 = ground (arith, e, n) in
    let has_room : ltb (length s.frontier) frontier_cap ≡ true = ground (arith, room) in
    rw (one_more, e, take_all frontier_cap s.frontier (omega (arith, room)))
      (rw (unknown, has_room) refl)
