-- ===== src/KbCrawl/Tests.antt =====
-- A site of three addresses, of which two lead to one page.
use ai_wa_chat_agent_be.Prelude.{
  List, false, ℕ, suc, ◌*◌, ◌-◌, ◌≤◌, ◌≡◌, refl, true, false, none, some, [], ◌∷◌, arith, max,
  if◌then◌else◌,
}
use ai_wa_chat_agent_be.Prelude.Text.{Text, codes, text_eq, is_one_of, begins_with, lower}
use ai_wa_chat_agent_be.KbCrawl.Scope.{
  Urls, CrawlConfig, site, default_include_path, before_last_slash, is_excluded, in_scope,
}
use ai_wa_chat_agent_be.KbCrawl.Slice.{
  CrawlState, StoppedReason, Fetched, Round, CrawlLimits, frontier_cap, visit, visit_all,
  visit_links, take_page, take_answer, follow, close, one_round, crawl, seed, page_limit,
  crawl_slice, CrawlJob, saved, crawl_jobs,
}
use ai_wa_chat_agent_be.KbCrawl.Frontier.{IsFresh}
use ai_wa_chat_agent_be.KbCrawl.Resume.{outgrows, crawl_jobs-IsFresh}
use ai_wa_chat_agent_be.KbCrawl.Ends.{crawl_slice-ends}

-- Every address is of one host, and is its own path.
abbrev urls : Urls
urls = record {
  scheme = λ u. codes "https";
  hostname = λ u. codes "shop";
  path = λ u. u;
  skip_ext = λ p. false;
  fnmatch = λ p pat. false;
  normalize_url = λ u. u;
}

abbrev cfg : CrawlConfig
cfg = record {
  start_url = codes "/";
  include_paths = [];
  exclude_paths = [];
  max_pages = 5;
  max_depth = 2;
}

abbrev limits : CrawlLimits
limits = record { default_max_pages = 50; max_pages = 500; max_depth = 5 }

-- "/" links to "/a" and "/b", which both are redirected to "/c".
abbrev web : Text → Fetched
web u =
    if text_eq u (codes "/")
    then Fetched.answered 200 u
        (some (record { links = codes "/a" ∷ codes "/b" ∷ codes "/" ∷ []; is_thin = false }))
    else Fetched.answered 200 (codes "/c") (some (record { links = []; is_thin = false }))

abbrev rounds : ℕ → Round
rounds n = record { over_budget = false; slice_over = false; allowed = λ u. true; fetch = web }

abbrev fresh : CrawlState
fresh = record {
  frontier = [];
  seen = [];
  seeded = false;
  fetched = 0;
  skipped_robots = 0;
  errors = 0;
  thin = 0;
  in_slice = 0;
  stopped_reason = none;
  requests = [];
  pages = [];
}

-- The page "/c" is handed out twice.
abbrev crawled : CrawlState
crawled = record {
  frontier = [];
  seen = codes "/" ∷ codes "/a" ∷ codes "/b" ∷ codes "/c" ∷ codes "/c" ∷ [];
  seeded = true;
  fetched = 3;
  skipped_robots = 0;
  errors = 0;
  thin = 0;
  in_slice = 3;
  stopped_reason = some StoppedReason.complete;
  requests = codes "/" ∷ codes "/a" ∷ codes "/b" ∷ [];
  pages = codes "/" ∷ codes "/c" ∷ codes "/c" ∷ [];
}

redirections_repeat_a_page : crawl_slice urls cfg limits 9 rounds [] fresh ≡ some crawled
unfolding crawl_slice crawl one_round follow take_answer take_page visit_links visit visit_all close
    seed page_limit in_scope is_excluded default_include_path before_last_slash site is_one_of
    text_eq begins_with lower
redirections_repeat_a_page = refl

fresh-IsFresh : IsFresh fresh
fresh-IsFresh = record { distinct = tt; known = tt; bounded = omega arith }

-- A first job that ends after one page, and a second one.
abbrev two_jobs : List CrawlJob
two_jobs =
    record { rounds = λ n. record (rounds n) { slice_over = true }; sitemap_urls = [] }
    ∷ record { rounds = rounds; sitemap_urls = [] }
    ∷ []

two_jobs_fit : outgrows urls cfg limits two_jobs fresh ≡ false
unfolding outgrows saved crawl_slice crawl one_round follow take_answer take_page visit_links visit
    visit_all close seed page_limit in_scope is_excluded default_include_path before_last_slash site
    is_one_of text_eq begins_with lower
two_jobs_fit = refl

crawl_jobs-IsFresh_example :
    (t : CrawlState) × (crawl_jobs urls cfg limits two_jobs fresh ≡ some t) × IsFresh t
crawl_jobs-IsFresh_example =
    crawl_jobs-IsFresh urls cfg limits two_jobs fresh fresh-IsFresh two_jobs_fit

crawl_slice-ends_example :
    (t : CrawlState) × (crawl_slice urls cfg limits
        (suc (suc (page_limit urls cfg limits - 0) * suc frontier_cap))
        rounds
        []
        fresh
      ≡ some t)
    × (t.fetched ≤ max (page_limit urls cfg limits) 0)
crawl_slice-ends_example = crawl_slice-ends urls cfg limits rounds [] fresh fresh-IsFresh
