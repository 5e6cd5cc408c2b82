-- ===== src/KbCrawl/Scope.antt =====
-- app/services/kb/crawl.py: which addresses are in the scope of a crawl.
use ai_wa_chat_agent_be.Prelude.{
  ℕ, Bool, false, not, ◌&&◌, ◌||◌, List, [], ◌∷◌, ◌++◌, if◌then◌else◌, ◌==◌, any, drop, length, ltb,
}
use ai_wa_chat_agent_be.Prelude.Text.{Text, codes, text_eq, is_empty, is_one_of, begins_with, lower}

-- What Python's libraries say of an address and a path: `urlsplit`, the pattern `_SKIP_EXT` and
-- `fnmatch`; and `normalize_url`, which is made of calls of `urllib.parse`.
pub record Urls : Type 0 where
  pub scheme : Text → Text
  pub hostname : Text → Text
  pub path : Text → Text
  pub skip_ext : Text → Bool
  pub fnmatch : Text → Text → Bool
  pub normalize_url : Text → Text

pub record CrawlConfig : Type 0 where
  pub start_url : Text
  pub include_paths : List Text
  pub exclude_paths : List Text
  pub max_pages : ℕ
  pub max_depth : ℕ

-- _site
unfoldable pub site : Text → Text
site host = let h = lower host in if begins_with (codes "www.") h then drop 4 h else h

abbrev has_slash : Text → Bool
has_slash t = any (λ c. c == b'/') t

-- `path.rsplit("/", 1)[0]`
unfoldable pub before_last_slash : Text → Text
before_last_slash [] = []
before_last_slash (c ∷ cs) =
    let rest = before_last_slash cs in if c == b'/' && not (has_slash cs) then [] else c ∷ rest

abbrev ends_with_slash : Text → Bool
ends_with_slash [] = false
ends_with_slash (c ∷ []) = c == b'/'
ends_with_slash (c ∷ cs) = ends_with_slash cs

abbrev rooted : Text → Text
rooted p = if begins_with (codes "/") p then p else codes "/" ++ p

abbrev or_root : Text → Text
or_root p = if is_empty p then codes "/" else p

-- `pat.rstrip("*")`
unfoldable pub rstrip_stars : Text → Text
rstrip_stars [] = []
rstrip_stars (c ∷ cs) =
    let rest = rstrip_stars cs in if c == b'*' && is_empty rest then [] else c ∷ rest

module _ (u : Urls) where
  unfoldable pub default_include_path : Text → Text
  default_include_path start_url =
      let path = or_root (u.path start_url) in
      if ends_with_slash path then path else before_last_slash path ++ codes "/"

  abbrev includes : CrawlConfig → List Text
  includes cfg =
      if ltb 0 (length cfg.include_paths)
      then cfg.include_paths
      else default_include_path cfg.start_url ∷ []

  unfoldable pub is_excluded : Text → Text → Bool
  is_excluded path pattern =
      let pat = rooted pattern in
      (begins_with (rstrip_stars pat) path && not (any (λ c. c == b'*') pat)) || u.fnmatch path pat

  unfoldable pub in_scope : CrawlConfig → Text → Bool
  in_scope cfg url =
      let path = or_root (u.path url) in
      is_one_of (u.scheme url) (codes "http" ∷ codes "https" ∷ [])
      && text_eq (site (u.hostname url)) (site (u.hostname cfg.start_url))
      && not (u.skip_ext path)
      && any (λ p. begins_with (rooted p) path) (includes cfg)
      && not (any (is_excluded path) cfg.exclude_paths)
